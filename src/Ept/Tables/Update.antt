-- ===== src/Ept/Tables/Update.antt =====
-- A change of the entry that the lookup of an address points to.
use device_mon.Prelude.{refl, ℕ, ◌≡◌, ◌∙◌, ◌≢◌, none, some, arith, ◌==◌, if◌then◌else◌}
use device_mon.Ept.Entry.{EptCommonEntry, all}
use device_mon.Ept.Tables.{Table, Pointer, Ept, ok, read, write}
use device_mon.Ept.Tables.Walk.{page, locate, deref, translation, locate-page}
use device_mon.Ept.Tables.Inv.{Shape, Inv, linked-some}
use device_mon.Ept.Tables.Link.{link}
use device_mon.Ept.Tables.Leaf.{
  read-ok, write-ok, locate_sound, leaf-Extends, leaf-locate, leaf-deref, leaf-Unchanged,
}

-- `s'` is `s` with the entry of the page of `pa` replaced by `e`.
pub record Updated (s : Ept) (h : Shape) (pa : ℕ) (e : EptCommonEntry) (s' : Ept) : Type 0 where
  pub inv : Inv s' h
  pub place : locate 4 s'.ept_pml4 pa s'.tables ≡ locate 4 s.ept_pml4 pa s.tables
  pub at : (pa' : ℕ) → page pa' ≡ page pa → translation pa' s' ≡ some e
  pub other : (pa' : ℕ) → page pa' ≢ page pa → translation pa' s' ≡ translation pa' s
  pub same_pool : s'.pool ≡ s.pool
  pub same_count : s'.preallocated_entries_count ≡ s.preallocated_entries_count

-- What a pointer found by the walk points to can be read, and written with the effect above.
pub record Found (s : Ept) (h : Shape) (pa : ℕ) (p : Pointer) (e : EptCommonEntry) : Type 0 where
  pub reads : read p s ≡ ok e s
  pub derefs : deref s.tables (some p) ≡ (if all e == 0 then none else some e)
  pub writes :
      (e' : EptCommonEntry)
      → all e' ≢ 0
      → (s' : Ept) × (write p e' s ≡ ok tt s') × Updated s h pa e' s'

module _ (s : Ept) (h : Shape) (pa : ℕ) (p : Pointer) (inv : Inv s h)
    (here : locate 4 s.ept_pml4 pa s.tables ≡ some p) where
  update-Updated :
      (t : Table) (e : EptCommonEntry)
      → s.tables p.0 ≡ some t
      → all e ≢ 0
      → Updated s h pa e (link s p.0 t p.1 e)
  unfolding translation
  update-Updated t e found full =
      let sound = locate_sound 3 s.ept_pml4 pa p inv.links inv.root inv.whole (omega arith) here in
      let same =
        leaf-locate s h p.0 p.1 t e inv found sound.0 3 s.ept_pml4 pa inv.root inv.whole
          (omega arith) in
      record {
        inv = (leaf-Extends s h p.0 p.1 t e inv found sound.0).inv;
        place = same;
        at = λ pa' e'.
            rw (locate-page 4 s.ept_pml4 pa' pa (link s p.0 t p.1 e).tables (omega arith) e')
              (rw (same ∙ here) (leaf-deref s h p.0 p.1 t e inv found sound.0 full));
        other = λ pa' ne.
            leaf-Unchanged s h p.0 p.1 t e inv found sound.0 pa sound.1 sound.2 3 s.ept_pml4 pa'
              inv.root inv.whole (omega arith) ne;
        same_pool = refl;
        same_count = refl;
      }

  pub pointer-Found : (e : EptCommonEntry) × Found s h pa p e
  unfolding deref
  pointer-Found =
      let sound = locate_sound 3 s.ept_pml4 pa p inv.links inv.root inv.whole (omega arith) here in
      let (t, found) = linked-some p.0 inv.links (omega arith) in
      (
        t p.1,
        record {
          reads = read-ok s p.0 p.1 t found;
          derefs = rw (found, deref);
          writes = λ e' full.
              (link s p.0 t p.1 e', write-ok s p.0 p.1 t e' found, update-Updated t e' found full);
        },
      )
