-- ===== src/Monitor/Pages/Trap.antt =====
-- What `InvalidateEptPages` does to the translation.
use device_mon.Prelude.{
  ◌+◌, ◌≤◌, ◌^◌, ℕ, ◌<◌, ◌≡◌, refl, ◌∙◌, ◌⊎◌, inl, inr, ◌≢◌, arith, Bool, true, false, Option, none,
  some, ◌==◌, Bool-cases,
}
use device_mon.Ept.Entry.{EptCommonEntry, all}
use device_mon.Ept.Tables.{Pointer, Ept, Run, ok, ◌>>=◌, ept_get_ept_pt_entry, map_gpa_to_hpa}
use device_mon.Ept.Tables.Walk.{page, locate, deref, translation}
use device_mon.Ept.Tables.Inv.{Shape, Inv}
use device_mon.Ept.Tables.Lookup.{
  get_pt_entry-locate, Mapped, unmapped, mapped, construct_tables-Mapped,
}
use device_mon.Ept.Tables.Spends.{Took, nothing, Refused}
use device_mon.Ept.Tables.Update.{Updated, Found, pointer-Found}
use device_mon.Monitor.Pages.{
  is_present, with_access, set_access, find_or_map, trap_entry, invalidate_page,
}

-- Reads and writes of the guest exit, instruction fetches do not.
abbrev pub IsTrapped : ℕ → Ept → Type 0
IsTrapped pa s =
    (e : EptCommonEntry) × (translation pa s ≡ some e)
    × (e.read_access ≡ 0)
    × (e.write_access ≡ 0)
    × (e.execute_access ≡ 1)

-- The lookup of a page in a well-formed state.
module _ (s : Ept) (h : Shape) (pa : ℕ) (inv : Inv s h) where
  pub lookup-locate : ept_get_ept_pt_entry pa s ≡ ok (locate 4 s.ept_pml4 pa s.tables) s
  unfolding ept_get_ept_pt_entry
  lookup-locate = get_pt_entry-locate 3 s h s.ept_pml4 pa inv.links inv.root inv.whole (omega arith)

  -- A pointer that the lookup gave: either the page is translated by the entry behind it, or not at all.
  pub is_present-translation :
      (r : Option Pointer)
      → locate 4 s.ept_pml4 pa s.tables ≡ r
      → ((is_present r s ≡ ok false s) × (translation pa s ≡ none))
        ⊎ ((p : Pointer) × (e : EptCommonEntry) × (r ≡ some p)
            × (is_present r s ≡ ok true s)
            × (translation pa s ≡ some e)
            × Found s h pa p e)
  unfolding is_present translation deref
  is_present-translation none here = inl (refl, rw here)
  is_present-translation (some p) here =
      let (e, found) = pointer-Found s h pa p inv here in
      elim (Bool-cases (all e == 0)) [
        | inl void ↦
            inl (rw (found.reads, is_present, ◌>>=◌, void), rw here (found.derefs ∙ rw void))
        | inr busy ↦ inr (
          p,
          e,
          refl,
          rw (found.reads, is_present, ◌>>=◌, busy),
          rw here (found.derefs ∙ rw busy),
          found,
        )
      ]

  -- The three assignments through such a pointer.
  pub set_access-Updated :
      (r w x : ℕ) (p : Pointer) (e : EptCommonEntry)
      → Found s h pa p e
      → 0 < x
      → (s' : Ept) × (set_access r w x (some p) s ≡ ok tt s')
        × Updated s h pa (with_access r w x e) s'
  unfolding set_access
  set_access-Updated r w x p e found pos =
      let (s', run, up) = found.writes (with_access r w x e) (omega arith) in
      (s', rw (found.reads, set_access, ◌>>=◌) run, up)

-- A round for the page of `pa`: it is trapped, or nothing could be mapped. No other page is
-- translated otherwise.
pub data Visited (s : Ept) (pa : ℕ) : Run Bool → Type 0 where
  trapped :
      {s' : Ept} (h' : Shape)
      → Inv s' h'
      → ((pa' : ℕ) → page pa' ≡ page pa → IsTrapped pa' s')
      → ((pa' : ℕ) → page pa' ≢ page pa → translation pa' s' ≡ translation pa' s)
      → Took s.pool s'.pool
      → s'.preallocated_entries_count ≤ s.preallocated_entries_count + 3
      → Visited s pa (ok true s')
  stopped :
      {s' : Ept} (h' : Shape)
      → Inv s' h'
      → ((pa' : ℕ) → translation pa' s' ≡ translation pa' s)
      → Refused s.pool s'.pool
      → s'.preallocated_entries_count ≤ s.preallocated_entries_count + 3
      → Visited s pa (ok false s')

module _ (pa : ℕ) where
  trap_entry-Visited :
      (s₀ s : Ept) (h : Shape) (p : Pointer) (e : EptCommonEntry)
      → is_present (some p) s ≡ ok true s
      → Found s h pa p e
      → Inv s h
      → ((pa' : ℕ) → page pa' ≢ page pa → translation pa' s ≡ translation pa' s₀)
      → Took s₀.pool s.pool
      → s.preallocated_entries_count ≤ s₀.preallocated_entries_count + 3
      → Visited s₀ pa (trap_entry (some p) s)
  unfolding trap_entry
  trap_entry-Visited s₀ s h p e there found inv before took few =
      let (s', run, up) = set_access-Updated s h pa inv 0 0 1 p e found (omega arith) in
      rw (there, trap_entry, ◌>>=◌)
        (rw (run, ◌>>=◌)
          (trapped h up.inv (λ pa' same. (with_access 0 0 1 e, up.at pa' same, refl, refl, refl))
            (λ pa' ne. up.other pa' ne ∙ before pa' ne) (rw up.same_pool took)
            (rw up.same_count few)))

  trap_entry-Mapped :
      (s : Ept) {r : Run (Option Pointer)}
      → Mapped s pa r
      → Visited s pa (◌>>=◌ (λ _. r) trap_entry s)
  unfolding trap_entry is_present
  trap_entry-Mapped s (unmapped h' inv same refused few) = stopped h' inv same refused few
  trap_entry-Mapped s (mapped {s'} h' p old inv got at other took few) =
      let here : locate 4 s'.ept_pml4 pa s'.tables ≡ some p = cc (lookup-locate s' h' pa inv) in
      elim (is_present-translation s' h' pa inv (some p) here) [
        | inl (absent, void) ↦ let full = at pa refl in cc
        | inr (q, e, same, there, is, found) ↦
            let named : p ≡ q = cc in
            rw named (trap_entry-Visited s s' h' q e (rw named at there) found inv other took few)
      ]

  pub invalidate_page-Visited :
      (s : Ept) (h : Shape)
      → Inv s h
      → s.preallocated_entries_count + 3 < 2 ^ 31
      → Visited s pa (invalidate_page pa s)
  unfolding invalidate_page find_or_map map_gpa_to_hpa
  invalidate_page-Visited s h inv room =
      let r : Option Pointer = locate 4 s.ept_pml4 pa s.tables in
      elim (is_present-translation s h pa inv r refl) [
        | inl (absent, void) ↦
            rw (lookup-locate s h pa inv, invalidate_page, find_or_map, ◌>>=◌)
              (rw (absent, ◌>>=◌)
                (trap_entry-Mapped s (construct_tables-Mapped true s h pa inv room)))
        | inr (p, e, same, there, is, found) ↦
            rw (lookup-locate s h pa inv, invalidate_page, find_or_map, ◌>>=◌)
              (rw (there, ◌>>=◌)
                (rw same (
                  trap_entry-Visited s s h p e (rw same at there) found inv (λ pa' ne. refl) nothing
                    (omega arith))))
      ]
