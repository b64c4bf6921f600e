-- ===== src/Ept/Tables/Enter.antt =====
-- The step down of `EptpConstructTables`: the table below an entry, which is made where the entry is
-- empty.
use device_mon.Prelude.{
  ◌+◌, ℕ, ◌*◌, ◌^◌, ◌≤◌, ◌<◌, ◌≡◌, refl, ◌∙◌, inl, inr, Bool-cases, eq_of_test, ne_of_test, ◌≢◌,
  Bool, Option, none, some, arith, ◌==◌, update,
}
use device_mon.Ept.Entry.{EptCommonEntry, all, init_table_entry}
use device_mon.Ept.Mtrr.{MtrrTable}
use device_mon.Ept.Tables.{Table, Ept, Run, ok, fault, ◌>>=◌, enter_table, add_table, next_table}
use device_mon.Ept.Tables.Inv.{Shape, Inv}
use device_mon.Ept.Tables.Allocate.{Allocated, refused, got, allocate_ept_entry-Allocated}
use device_mon.Ept.Tables.Extends.{Owned-kept, Extends, Unchanged, Extends-refl}
use device_mon.Ept.Tables.Link.{link, link_shape, link-Extends, link-Unchanged}
use device_mon.Ept.Tables.Leaf.{read-ok, write-ok}

abbrev pub Always : ℕ → Type 0
Always pa = Unit {0}

-- The table below an entry was there, or was made, or could not be had.
pub data Entered (s : Ept) (h : Shape) (f i : ℕ) : Run (Option ℕ) → Type 0 where
  stuck : {s' : Ept} → Extends s h s' h → Unchanged Always s h s' → Entered s h f i (ok none s')
  entered :
      {s' : Ept} (h' : Shape) (g : ℕ) (t' : Table)
      → Extends s h s' h'
      → Unchanged Always s h s'
      → s'.tables f ≡ some t'
      → all (t' i) ≢ 0
      → (t' i).physial_address ≡ g
      → Entered s h f i (ok (some g) s')

pub init-leads :
    (mtrrs : MtrrTable) (e : EptCommonEntry) (level g : ℕ)
    → g < 2 ^ 36
    → (init_table_entry mtrrs e level (g * 4096)).physial_address ≡ g
unfolding init_table_entry
init-leads mtrrs e level g small = omega arith

pub init-full :
    (mtrrs : MtrrTable) (e : EptCommonEntry) (level pa : ℕ)
    → all (init_table_entry mtrrs e level pa) ≢ 0
unfolding init_table_entry
init-full mtrrs e level pa = omega arith

module _ (given : Bool) (level f i : ℕ) (t : Table) where
  after-Allocated :
      (s : Ept) (h : Shape)
      → Inv s h
      → s.tables f ≡ some t
      → 2 ≤ h.level f
      → i < 512
      → all (t i) ≡ 0
      → {r : Run (Option ℕ)} → Allocated s h r
      → Entered s h f i
          (elim r [ ok made s' ↦ enter_table level (f, i) (t i) made s' | fault ↦ fault ])
  unfolding enter_table
  after-Allocated s h inv found two inside empty (refused {s'} same root mtrrs spares inv') =
      stuck
        (record {
          inv = inv';
          levels = λ f' ne. (refl, refl);
          kept = λ f' j t' e two' full. (t', rw same e, refl);
          owned =
              Owned-kept s s' h h (λ f' ne. (refl, refl))
                (λ f' j t' e two' full. (t', rw same e, refl)) root;
          loose = λ x out. rw same refl;
          foreign = λ x t' there out spared. (out, spares x spared);
          same_root = root;
          same_mtrrs = mtrrs;
        })
        (λ l f' pa lv pre low p. rw same)
  after-Allocated s h inv found two inside empty (got {g} {s'} new) =
      let e = init_table_entry s'.mtrrs (t i) level (g * 4096) in
      let leads = init-leads s'.mtrrs (t i) level g new.small in
      let full = init-full s'.mtrrs (t i) level (g * 4096) in
      let there : s'.tables f ≡ some t = new.others f (λ same. ground (arith, new.loose)) ∙ found in
      let put : (link s' f t i e).tables f ≡ some (update t i e) = ground arith in
      let index : update t i e i ≡ e = ground arith in
      rw (write-ok s' f i t e there, enter_table, ◌>>=◌)
        (rw (read-ok (link s' f t i e) f i (update t i e) put, ◌>>=◌, index)
          (entered (link_shape h f i g) e.physial_address (update t i e)
            (link-Extends s s' h g new f i t e found two inside empty leads full)
            (link-Unchanged s s' h g new f i t e found two inside empty leads full inv.links) put
            (rw index full) (rw index)))

  pub next_table-Entered :
      (s : Ept) (h : Shape)
      → Inv s h
      → s.tables f ≡ some t
      → 2 ≤ h.level f
      → i < 512
      → s.preallocated_entries_count + 1 < 2 ^ 31
      → Entered s h f i (next_table given level (f, i) s)
  unfolding next_table add_table
  next_table-Entered s h inv found two inside low = elim (Bool-cases (all (t i) == 0)) [
    | inl empty ↦
        rw (read-ok s f i t found, next_table, ◌>>=◌)
          (rw empty (
            after-Allocated s h inv found two inside (eq_of_test _ _ empty)
              (allocate_ept_entry-Allocated given s h inv low)))
    | inr full ↦
        rw (read-ok s f i t found, next_table, ◌>>=◌)
          (rw full (
            entered h (t i).physial_address t (Extends-refl inv) (λ l f' pa lv pre low p. refl)
              found (ne_of_test _ _ full) refl))
  ]
