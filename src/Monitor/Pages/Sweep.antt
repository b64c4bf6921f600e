-- ===== src/Monitor/Pages/Sweep.antt =====
-- The loop of `InvalidateEptPages`.
use device_mon.Prelude.{
  ℕ, zero, suc, ◌+◌, ◌-◌, ◌*◌, ◌%◌, ◌^◌, ◌≤◌, ◌<◌, ◌≡◌, refl, ◌∙◌, inl, inr, ◌≢◌, arith, Bool, true,
  false, ◌==◌, Bool-cases, eq_of_test, ne_of_test,
}
use device_mon.Ept.Tables.{Ept, Run, ok, ◌>>=◌, pure}
use device_mon.Ept.Tables.Spends.{Took, nothing, Took-Took, Refused, Took-Refused}
use device_mon.Ept.Tables.Walk.{page, translation}
use device_mon.Ept.Tables.Inv.{Shape, Inv}
use device_mon.Monitor.Pages.{
  page_address, invalidate_page, page_loop, invalidate_ept_pages, span_pages,
}
use device_mon.Monitor.Pages.Visits.{visit_address, last-not-visited, visits-cover}
use device_mon.Monitor.Pages.Trap.{IsTrapped, Visited, trapped, stopped, invalidate_page-Visited}

-- The page of `pa` is that of none of `left` rounds from `k` on.
abbrev pub Untouched : ℕ → ℕ → ℕ → ℕ → Type 0
Untouched base left k pa = (j : ℕ) → k ≤ j → j < k + left → page pa ≢ page (visit_address base j)

-- The state after `left` rounds from round `k` on. A page that was trapped stays so.
pub data Swept (base : ℕ) (s : Ept) (left k : ℕ) : Run Bool → Type 0 where
  complete :
      {s' : Ept} (h' : Shape)
      → Inv s' h'
      → ((j : ℕ) → k ≤ j → j < k + left → IsTrapped (visit_address base j) s')
      → ((pa : ℕ) → IsTrapped pa s → IsTrapped pa s')
      → ((pa : ℕ) → Untouched base left k pa → translation pa s' ≡ translation pa s)
      → Took s.pool s'.pool
      → s'.preallocated_entries_count ≤ s.preallocated_entries_count + 3 * left
      → Swept base s left k (ok true s')
  broken :
      {s' : Ept} (h' : Shape)
      → Inv s' h'
      → ((pa : ℕ) → IsTrapped pa s → IsTrapped pa s')
      → ((pa : ℕ) → Untouched base left k pa → translation pa s' ≡ translation pa s)
      → Refused s.pool s'.pool
      → s'.preallocated_entries_count ≤ s.preallocated_entries_count + 3 * left
      → Swept base s left k (ok false s')

IsTrapped-kept :
    (s s' : Ept) (pa : ℕ) → translation pa s' ≡ translation pa s → IsTrapped pa s → IsTrapped pa s'
IsTrapped-kept s s' pa same (e, is, r, w, x) = (e, same ∙ is, r, w, x)

next_round : ℕ → ℕ → ℕ → Bool → Ept → Run Bool
next_round base left k go_on = elim go_on [
  | true ↦ page_loop invalidate_page base left (suc k) (page_address base k)
  | false ↦ pure false
]

module _ (base : ℕ) where
  -- The rounds after one that trapped its page.
  after-trapped :
      (left k : ℕ) (s s₁ : Ept)
      → ((pa : ℕ) → page pa ≡ page (visit_address base k) → IsTrapped pa s₁)
      → ((pa : ℕ) → page pa ≢ page (visit_address base k) → translation pa s₁ ≡ translation pa s)
      → Took s.pool s₁.pool
      → s₁.preallocated_entries_count ≤ s.preallocated_entries_count + 3
      → {r : Run Bool} → Swept base s₁ left (suc k) r
      → Swept base s (suc left) k r
  after-trapped left k s s₁ at other took few (complete {s'} h' inv hit stay same took' few') =
      complete h' inv
        (λ j from below. elim (Bool-cases (j == k)) [
          | inl first ↦
              rw (eq_of_test _ _ first)
                (stay (visit_address base k) (at (visit_address base k) refl))
          | inr later ↦ hit j (ground arith) (omega arith)
        ])
        (λ pa was. stay pa (kept pa was))
        (λ pa out.
          same pa (λ j from below. out j (omega arith) (omega arith))
          ∙ other pa (out k (omega arith) (omega arith)))
        (Took-Took took took') (omega arith)
    where
      kept : (pa : ℕ) → IsTrapped pa s → IsTrapped pa s₁
      kept pa was = elim (Bool-cases (page pa == page (visit_address base k))) [
        | inl hit' ↦ at pa (eq_of_test _ _ hit')
        | inr miss ↦ IsTrapped-kept s s₁ pa (other pa (ne_of_test _ _ miss)) was
      ]
  after-trapped left k s s₁ at other took few (broken {s'} h' inv stay same refused few') =
      broken h' inv (λ pa was. stay pa (kept pa was))
        (λ pa out.
          same pa (λ j from below. out j (omega arith) (omega arith))
          ∙ other pa (out k (omega arith) (omega arith)))
        (Took-Refused took refused) (omega arith)
    where
      kept : (pa : ℕ) → IsTrapped pa s → IsTrapped pa s₁
      kept pa was = elim (Bool-cases (page pa == page (visit_address base k))) [
        | inl hit' ↦ at pa (eq_of_test _ _ hit')
        | inr miss ↦ IsTrapped-kept s s₁ pa (other pa (ne_of_test _ _ miss)) was
      ]

  after-Visited :
      (left k : ℕ) (s : Ept)
      → ((s₁ : Ept) (h₁ : Shape)
          → Inv s₁ h₁
          → s₁.preallocated_entries_count ≤ s.preallocated_entries_count + 3
          → Swept base s₁ left
              (suc k)
              (page_loop invalidate_page base left (suc k) (page_address base k) s₁))
      → {r : Run Bool} → Visited s (visit_address base k) r
      → Swept base s (suc left) k (◌>>=◌ (λ _. r) (next_round base left k) s)
  unfolding next_round
  after-Visited left k s ih (trapped {s' = s₁} h₁ inv at other took few) =
      after-trapped left k s s₁ at other took few (ih s₁ h₁ inv few)
  after-Visited left k s ih (stopped {s' = s₁} h₁ inv same refused few) =
      broken h₁ inv (λ pa was. IsTrapped-kept s s₁ pa (same pa) was) (λ pa out. same pa) refused
        (omega arith)

  page_loop-Swept :
      (left k : ℕ) (s : Ept) (h : Shape)
      → Inv s h
      → s.preallocated_entries_count + 3 * left < 2 ^ 31
      → Swept base s left k (page_loop invalidate_page base left k (visit_address base k) s)
  unfolding page_loop next_round
  page_loop-Swept zero k s h inv room =
      complete h inv (λ j from below. absurd (omega arith)) (λ pa was. was) (λ pa out. refl) nothing
        (omega arith)
  page_loop-Swept (suc left) k s h inv room =
      after-Visited left k s
        (λ s₁ h₁ inv₁ few. page_loop-Swept left (suc k) s₁ h₁ inv₁ (omega arith))
        (invalidate_page-Visited (visit_address base k) s h inv (omega arith))

-- The outcome for a range of `n` pages from `base` on, all below 4 GB.
pub data Invalidated (base n : ℕ) (s : Ept) : Run Bool → Type 0 where
  complete :
      {s' : Ept} (h' : Shape)
      → Inv s' h'
      → ((j : ℕ) → j + 1 < n → IsTrapped (base + 4096 * j) s')
      → translation (base + 4096 * (n - 1)) s' ≡ translation (base + 4096 * (n - 1)) s
      → Invalidated base n s (ok true s')
  broken :
      {s' : Ept} (h' : Shape)
      → Inv s' h'
      → translation (base + 4096 * (n - 1)) s' ≡ translation (base + 4096 * (n - 1)) s
      → Refused s.pool s'.pool
      → Invalidated base n s (ok false s')

range-Invalidated :
    (base n : ℕ) (s : Ept) {r : Run Bool}
    → base % 4096 ≡ 0
    → 2 ≤ n
    → base + 4096 * n ≤ 2 ^ 32
    → Swept base s n 0 r
    → Invalidated base n s r
range-Invalidated base n s aligned two small (complete {s'} h' inv hit stay same took few) =
    complete h' inv
      (λ j below.
        rw (visits-cover base n j small below).1 at (hit (suc j) (omega arith) (omega arith)))
      (same (base + 4096 * (n - 1))
        (λ j from below. last-not-visited base n j aligned two small (omega arith)))
range-Invalidated base n s aligned two small (broken {s'} h' inv stay same refused few) =
    broken h' inv
      (same (base + 4096 * (n - 1))
        (λ j from below. last-not-visited base n j aligned two small (omega arith)))
      refused

pub invalidate_ept_pages-Swept :
    (base size : ℕ) (s : Ept) (h : Shape)
    → Inv s h
    → s.preallocated_entries_count + 3 * span_pages size < 2 ^ 31
    → Swept base s (span_pages size) 0 (invalidate_ept_pages base size s)
unfolding invalidate_ept_pages
invalidate_ept_pages-Swept base size s h inv room =
    page_loop-Swept base (span_pages size) 0 s h inv room

-- For an aligned range of at least two pages below 4 GB, in a well-formed state where the counter
-- of preallocated tables, with 3 added for each page, is below 2^31, `InvalidateEptPages` ends
-- without a fault in a well-formed state. It makes all rounds, and then all pages but the last
-- are trapped, or it breaks off where the pool has just refused a page or is empty. The last page
-- is translated as before in any case.
pub invalidate_ept_pages-Invalidated :
    (base size : ℕ) (s : Ept) (h : Shape)
    → base % 4096 ≡ 0
    → 2 ≤ span_pages size
    → base + 4096 * span_pages size ≤ 2 ^ 32
    → Inv s h
    → s.preallocated_entries_count + 3 * span_pages size < 2 ^ 31
    → Invalidated base (span_pages size) s (invalidate_ept_pages base size s)
invalidate_ept_pages-Invalidated base size s h aligned two small inv room =
    range-Invalidated base (span_pages size) s aligned two small
      (invalidate_ept_pages-Swept base size s h inv room)
