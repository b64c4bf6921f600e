-- ===== src/Monitor/Pages/Reopen.antt =====
-- The loop of `ValidateEptPages`.
use device_mon.Prelude.{
  ℕ, zero, suc, ◌+◌, ◌≤◌, ◌<◌, ◌≡◌, refl, sym, ap, ◌∙◌, ◌⊎◌, inl, inr, arith, Bool, true, false,
  Option, none, some, ◌==◌, Bool-cases, eq_of_test, ne_of_test,
}
use device_mon.Ept.Entry.{EptCommonEntry}
use device_mon.Ept.Tables.{Pointer, Ept, Run, ok, ◌>>=◌, pure}
use device_mon.Ept.Tables.Walk.{page, locate, translation, locate-page}
use device_mon.Ept.Tables.Inv.{Shape, Inv}
use device_mon.Monitor.Pages.{
  with_access, page_address, validate_page, page_loop, validate_ept_pages, span_pages,
}
use device_mon.Monitor.Pages.Visits.{visit_address}
use device_mon.Monitor.Pages.Trap.{lookup-locate, is_present-translation, set_access-Updated}

-- The address is not mapped, or it is with full access.
abbrev pub IsOpen : ℕ → Ept → Type 0
IsOpen pa s =
    (translation pa s ≡ none)
    ⊎ ((e : EptCommonEntry) × (translation pa s ≡ some (with_access 1 1 1 e)))

-- The address is translated as before, or by the same entry with full access.
abbrev pub OpensOnly : ℕ → Ept → Ept → Type 0
OpensOnly pa s s' =
    (translation pa s' ≡ translation pa s)
    ⊎ ((e : EptCommonEntry) × (translation pa s ≡ some e)
        × (translation pa s' ≡ some (with_access 1 1 1 e)))

translation-page :
    (pa pa' : ℕ) (s : Ept) → page pa' ≡ page pa → translation pa' s ≡ translation pa s
unfolding translation
translation-page pa pa' s same = rw (locate-page 4 s.ept_pml4 pa' pa s.tables (omega arith) same)

OpensOnly-trans :
    (pa : ℕ) (s s₁ s' : Ept) → OpensOnly pa s s₁ → OpensOnly pa s₁ s' → OpensOnly pa s s'
OpensOnly-trans pa s s₁ s' (inl a) (inl b) = inl (b ∙ a)
OpensOnly-trans pa s s₁ s' (inl a) (inr (e, b, c)) = inr (e, sym a ∙ b, c)
OpensOnly-trans pa s s₁ s' (inr (e, a, b)) (inl c) = inr (e, a, c ∙ b)
OpensOnly-trans pa s s₁ s' (inr (e, a, b)) (inr (e', c, d)) =
    let same : some (with_access 1 1 1 e) ≡ some e' = sym b ∙ c in
    inr (e, a, d ∙ ap opened (sym same))
  where
    opened : Option EptCommonEntry → Option EptCommonEntry
    opened none = none
    opened (some x) = some (with_access 1 1 1 x)

IsOpen-kept : (pa : ℕ) (s s' : Ept) → IsOpen pa s → OpensOnly pa s s' → IsOpen pa s'
IsOpen-kept pa s s' (inl a) (inl b) = inl (b ∙ a)
IsOpen-kept pa s s' (inr (e, a)) (inl b) = inr (e, b ∙ a)
IsOpen-kept pa s s' was (inr (e, a, b)) = inr (e, b)

-- A round.
data Opened (s : Ept) (h : Shape) (pa : ℕ) : Run Bool → Type 0 where
  opened :
      {s' : Ept}
      → Inv s' h
      → ((pa' : ℕ) → page pa' ≡ page pa → IsOpen pa' s')
      → ((pa' : ℕ) → OpensOnly pa' s s')
      → s'.preallocated_entries_count ≡ s.preallocated_entries_count
      → Opened s h pa (ok true s')

validate_page-Opened : (pa : ℕ) (s : Ept) (h : Shape) → Inv s h → Opened s h pa (validate_page pa s)
unfolding validate_page
validate_page-Opened pa s h inv =
    let r : Option Pointer = locate 4 s.ept_pml4 pa s.tables in
    elim (is_present-translation s h pa inv r refl) [
      | inl (absent, void) ↦
          rw (lookup-locate s h pa inv, validate_page, ◌>>=◌)
            (rw (absent, ◌>>=◌)
              (opened inv (λ pa' same. inl (translation-page pa pa' s same ∙ void))
                (λ pa'. inl refl) refl))
      | inr (p, e, same, there, is, found) ↦
          let (s', run, up) = set_access-Updated s h pa inv 1 1 1 p e found (omega arith) in
          rw (lookup-locate s h pa inv, validate_page, ◌>>=◌)
            (rw (there, ◌>>=◌)
              (rw same (
                rw (run, ◌>>=◌)
                  (opened up.inv (λ pa' hit. inr (e, up.at pa' hit))
                    (λ pa'. elim (Bool-cases (page pa' == page pa)) [
                      | inl hit ↦
                          let hit' = eq_of_test _ _ hit in
                          inr (e, translation-page pa pa' s hit' ∙ is, up.at pa' hit')
                      | inr miss ↦ inl (up.other pa' (ne_of_test _ _ miss))
                    ])
                    up.same_count))))
    ]

-- All rounds were made: the pages that they visited are open, and nothing was changed but by
-- giving full access to what was mapped.
pub data Reopened (base : ℕ) (s : Ept) (h : Shape) (left k : ℕ) : Run Bool → Type 0 where
  reopened :
      {s' : Ept}
      → Inv s' h
      → ((j : ℕ) → k ≤ j → j < k + left → IsOpen (visit_address base j) s')
      → ((pa : ℕ) → OpensOnly pa s s')
      → s'.preallocated_entries_count ≡ s.preallocated_entries_count
      → Reopened base s h left k (ok true s')

module _ (base : ℕ) where
  after-opened :
      (left k : ℕ) (s s₁ : Ept) (h : Shape)
      → IsOpen (visit_address base k) s₁
      → ((pa : ℕ) → OpensOnly pa s s₁)
      → s₁.preallocated_entries_count ≡ s.preallocated_entries_count
      → {r : Run Bool} → Reopened base s₁ h left (suc k) r
      → Reopened base s h (suc left) k r
  after-opened left k s s₁ h first step count (reopened {s'} inv hit more count') =
      reopened inv
        (λ j from below. elim (Bool-cases (j == k)) [
          | inl at ↦
              rw (eq_of_test _ _ at) (IsOpen-kept (visit_address base k) s₁ s' first (more _))
          | inr later ↦ hit j (ground arith) (omega arith)
        ])
        (λ pa. OpensOnly-trans pa s s₁ s' (step pa) (more pa)) (count' ∙ count)

  next_round : ℕ → ℕ → Bool → Ept → Run Bool
  next_round left k go_on = elim go_on [
    | true ↦ page_loop validate_page base left (suc k) (page_address base k)
    | false ↦ pure false
  ]

  after-Opened :
      (left k : ℕ) (s : Ept) (h : Shape)
      → ((s₁ : Ept)
          → Inv s₁ h
          → Reopened base s₁ h left
              (suc k)
              (page_loop validate_page base left (suc k) (page_address base k) s₁))
      → {r : Run Bool} → Opened s h (visit_address base k) r
      → Reopened base s h (suc left) k (◌>>=◌ (λ _. r) (next_round left k) s)
  unfolding next_round
  after-Opened left k s h ih (opened {s' = s₁} inv at step count) =
      after-opened left k s s₁ h (at (visit_address base k) refl) step count (ih s₁ inv)

  page_loop-Reopened :
      (left k : ℕ) (s : Ept) (h : Shape)
      → Inv s h
      → Reopened base s h left k (page_loop validate_page base left k (visit_address base k) s)
  unfolding page_loop next_round
  page_loop-Reopened zero k s h inv =
      reopened inv (λ j from below. absurd (omega arith)) (λ pa. inl refl) refl
  page_loop-Reopened (suc left) k s h inv =
      after-Opened left k s h (λ s₁ inv₁. page_loop-Reopened left (suc k) s₁ h inv₁)
        (validate_page-Opened (visit_address base k) s h inv)

-- In a well-formed state `ValidateEptPages` ends without a fault in a well-formed state. The pages
-- of all its rounds are open or not mapped, and no address is translated otherwise than before but
-- for having full access.
pub validate_ept_pages-Reopened :
    (base size : ℕ) (s : Ept) (h : Shape)
    → Inv s h
    → Reopened base s h (span_pages size) 0 (validate_ept_pages base size s)
unfolding validate_ept_pages
validate_ept_pages-Reopened base size s h inv = page_loop-Reopened base (span_pages size) 0 s h inv
