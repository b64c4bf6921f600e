-- ===== src/Ept/Tables/Lookup.antt =====
-- `EptGetEptPtEntry` and `EptpMapGpaToHpa` against the translation.
use device_mon.Prelude.{
  ◌+◌, ◌≤◌, ◌^◌, ℕ, zero, suc, ◌<◌, ◌≡◌, refl, ◌∙◌, inl, inr, Bool-cases, eq_of_test, ne_of_test,
  ◌≢◌, Bool, Option, none, some, arith, ◌==◌,
}
use device_mon.Ept.Entry.{EptCommonEntry, all, init_table_entry}
use device_mon.Ept.Tables.{
  Pointer, Ept, Run, ok, ◌>>=◌, get_pt_entry, ept_get_ept_pt_entry, construct_tables,
}
use device_mon.Ept.Tables.Walk.{
  cover, page, slot, table_index-slot, locate, deref, translation, locate-page, locate-step,
  locate-stop,
}
use device_mon.Ept.Tables.Inv.{Shape, Links, Inv, linked-some, next-linked}
use device_mon.Ept.Tables.Leaf.{read-ok}
use device_mon.Ept.Tables.Spends.{Took, Refused, Spends, construct_tables-Spends}
use device_mon.Ept.Tables.Construct.{Constructed, short, done, construct_tables-Constructed}

-- The walk of the code reads linked tables only, and ends where the walk over the memory does.
pub get_pt_entry-locate :
    (l : ℕ) (s : Ept) (h : Shape) (f pa : ℕ)
    → Links s.tables h
    → h.level f ≡ suc l
    → h.prefix f ≡ cover (suc l) pa
    → l < 4
    → get_pt_entry (suc l) f pa s ≡ ok (locate (suc l) f pa s.tables) s
unfolding get_pt_entry locate
get_pt_entry-locate zero s h f pa links level prefix low =
    rw (table_index-slot 0 pa low, get_pt_entry)
get_pt_entry-locate (suc l) s h f pa links level prefix low =
    let (t, found) = linked-some f links (omega arith) in
    rw (table_index-slot (suc l) pa low, get_pt_entry)
      (rw (read-ok s f (slot (suc l) pa) t found, ◌>>=◌)
        (elim (Bool-cases (all (t (slot (suc l) pa)) == 0)) [
          | inl void ↦ rw (void, locate-stop l f pa s.tables t found (eq_of_test _ _ void))
          | inr busy ↦
              let go = next-linked l f pa t links level prefix low found (ne_of_test _ _ busy) in
              rw (busy, locate-step l f pa s.tables t found (ne_of_test _ _ busy))
                (get_pt_entry-locate l s h (t (slot (suc l) pa)).physial_address pa links go.0 go.1
                  (omega arith))
        ]))

-- In a well-formed state `EptGetEptPtEntry` does not fault and changes nothing, and the entry that
-- it points to, if any and not empty, is the one that translates the address.
pub ept_get_ept_pt_entry-translation :
    (s : Ept) (h : Shape) (pa : ℕ)
    → Inv s h
    → (r : Option Pointer) × (ept_get_ept_pt_entry pa s ≡ ok r s)
      × (deref s.tables r ≡ translation pa s)
unfolding ept_get_ept_pt_entry translation
ept_get_ept_pt_entry-translation s h pa inv = (
  locate 4 s.ept_pml4 pa s.tables,
  get_pt_entry-locate 3 s h s.ept_pml4 pa inv.links inv.root inv.whole (omega arith),
  refl,
)

-- What a mapping did: nothing but allocations, or the entry of one page.
pub data Mapped (s : Ept) (pa : ℕ) : Run (Option Pointer) → Type 0 where
  unmapped :
      {s' : Ept} (h' : Shape)
      → Inv s' h'
      → ((pa' : ℕ) → translation pa' s' ≡ translation pa' s)
      → Refused s.pool s'.pool
      → s'.preallocated_entries_count ≤ s.preallocated_entries_count + 3
      → Mapped s pa (ok none s')
  mapped :
      {s' : Ept} (h' : Shape) (p : Pointer) (old : EptCommonEntry)
      → Inv s' h'
      → ept_get_ept_pt_entry pa s' ≡ ok (some p) s'
      → ((pa' : ℕ)
          → page pa' ≡ page pa
          → translation pa' s' ≡ some (init_table_entry s.mtrrs old 1 pa))
      → ((pa' : ℕ) → page pa' ≢ page pa → translation pa' s' ≡ translation pa' s)
      → Took s.pool s'.pool
      → s'.preallocated_entries_count ≤ s.preallocated_entries_count + 3
      → Mapped s pa (ok (some p) s')

root-Mapped :
    (s : Ept) (h : Shape) (pa : ℕ)
    → Inv s h
    → {r : Run (Option Pointer)} → Constructed s h 3 s.ept_pml4 pa r
    → Spends s 3 r
    → Mapped s pa r
unfolding translation ept_get_ept_pt_entry
root-Mapped s h pa inv (short h' x u) (Spends.short refused few) =
    unmapped h' x.inv
      (λ pa'. rw x.same_root (u 3 s.ept_pml4 pa' inv.root inv.whole (omega arith) tt)) refused few
root-Mapped s h pa inv (done {s'} h' p old x found value u) (Spends.spent took few) =
    mapped h' p old x.inv
      (get_pt_entry-locate 3 s' h' s'.ept_pml4 pa x.inv.links x.inv.root x.inv.whole (omega arith)
        ∙ rw x.same_root (rw found))
      (λ pa' same.
        rw (locate-page 4 s'.ept_pml4 pa' pa s'.tables (omega arith) same)
          (rw x.same_root (rw found value)))
      (λ pa' ne. rw x.same_root (u 3 s.ept_pml4 pa' inv.root inv.whole (omega arith) ne)) took few

-- In a well-formed state whose counter of preallocated tables is more than 3 below 2^31,
-- `EptpConstructTables` from the root, with or without `ept_data`, does not fault and leaves a
-- well-formed state; the counter grows by 3 at most. If it returns an entry, the pool has refused
-- no page, the lookup of the address returns that entry from then on, every address of the page
-- is translated to the frame with full access, and all other addresses as before. If it returns
-- none, the pool has just refused a page or is empty, and every address is translated as before.
-- An entry of the last level that was filled is set again, as in a release build, and past the
-- fifty preallocated tables the pool is asked.
pub construct_tables-Mapped :
    (given : Bool) (s : Ept) (h : Shape) (pa : ℕ)
    → Inv s h
    → s.preallocated_entries_count + 3 < 2 ^ 31
    → Mapped s pa (construct_tables given 4 s.ept_pml4 pa s)
construct_tables-Mapped given s h pa inv room =
    root-Mapped s h pa inv
      (construct_tables-Constructed given 3 s h s.ept_pml4 pa inv inv.root inv.whole (omega arith)
        room)
      (construct_tables-Spends given 3 s s.ept_pml4 pa (omega arith))
