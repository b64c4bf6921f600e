-- ===== src/Ept/Tables/Leaf.antt =====
-- A write to an entry of a table of level 1: the tables stay well formed, the walks stay as they
-- are, and only the addresses of one page are translated otherwise.
use device_mon.Prelude.{
  ℕ, zero, suc, ◌<◌, ◌≡◌, refl, sym, ap, ◌∙◌, ◌⊎◌, inl, inr, Option-cases, Bool-cases, eq_of_test,
  ne_of_test, ◌≢◌, some, arith, ◌==◌, update,
}
use device_mon.Ept.Entry.{EptCommonEntry, all}
use device_mon.Ept.Tables.{Table, Pointer, Ept, ok, read, write}
use device_mon.Ept.Tables.Walk.{
  Memory, cover, page, slot, cover-slot, locate, deref, locate-step, locate-stop,
}
use device_mon.Ept.Tables.Inv.{
  Shape, Links, Inv, linked-some, next-linked, IsFresh-update, not-listed,
}
use device_mon.Ept.Tables.Extends.{Owned-kept, Extends, Unchanged}
use device_mon.Ept.Tables.Link.{link}

pub read-ok : (s : Ept) (f i : ℕ) (t : Table) → s.tables f ≡ some t → read (f, i) s ≡ ok (t i) s
unfolding read
read-ok s f i t found = rw (found, read)

pub write-ok :
    (s : Ept) (f i : ℕ) (t : Table) (e : EptCommonEntry)
    → s.tables f ≡ some t
    → write (f, i) e s ≡ ok tt (link s f t i e)
unfolding write
write-ok s f i t e found = rw (found, write)

-- What the walk finds is an entry of a table of level 1 that covers the address.
pub locate_sound :
    {m : Memory} {h : Shape} (l f pa : ℕ) (p : Pointer)
    → Links m h
    → h.level f ≡ suc l
    → h.prefix f ≡ cover (suc l) pa
    → l < 4
    → locate (suc l) f pa m ≡ some p
    → (h.level p.0 ≡ 1) × (h.prefix p.0 ≡ cover 1 pa) × (p.1 ≡ slot 0 pa)
unfolding locate
locate_sound zero f pa p links level prefix low found = ground arith
locate_sound {m} (suc l) f pa p links level prefix low found =
    let (t, at) = linked-some f links (omega arith) in
    elim (Bool-cases (all (t (slot (suc l) pa)) == 0)) [
      | inl void ↦ let lost = locate-stop l f pa m t at (eq_of_test _ _ void) in cc
      | inr busy ↦
          let go = next-linked l f pa t links level prefix low at (ne_of_test _ _ busy) in
          let step = locate-step l f pa m t at (ne_of_test _ _ busy) in
          locate_sound l (t (slot (suc l) pa)).physial_address pa p links go.0 go.1 (omega arith)
            (sym step ∙ found)
    ]

module _ (s : Ept) (h : Shape) (f i : ℕ) (t : Table) (e : EptCommonEntry) (inv : Inv s h)
    (found : s.tables f ≡ some t) (leaf : h.level f ≡ 1) where
  leaf-Links : Links (link s f t i e).tables h
  leaf-Links = record {
    present = λ f' lost. ground (arith, inv.links.present f');
    below = λ f' j t' e' two' inside' full'. ground (arith, inv.links.below f' j t');
  }

  leaf-Inv : Inv (link s f t i e) h
  leaf-Inv = record {
    root = inv.root;
    whole = inv.whole;
    links = leaf-Links;
    pool =
        IsFresh-update s.tables f (some (update t i e)) s.pool
          (not-listed s.tables f t s.pool inv.pool found) inv.pool;
    reserve = record {
      spare = λ j from below. ground (arith, inv.reserve.spare j from below);
      apart = inv.reserve.apart;
    };
  }

  pub leaf-Extends : Extends s h (link s f t i e) h
  leaf-Extends = record {
    inv = leaf-Inv;
    levels = λ f' ne. (refl, refl);
    kept = λ f' j t' e' two' full'. (t', ground arith, refl);
    owned =
        Owned-kept s (link s f t i e) h h (λ f' ne. (refl, refl))
          (λ f' j t' e' two' full'. (t', ground arith, refl)) refl;
    loose = λ x out. ground arith;
    foreign = λ x t' there out spared. (out, spared);
    same_root = refl;
    same_mtrrs = refl;
  }

  pub leaf-locate :
      (l f' pa : ℕ)
      → h.level f' ≡ suc l
      → h.prefix f' ≡ cover (suc l) pa
      → l < 4
      → locate (suc l) f' pa (link s f t i e).tables ≡ locate (suc l) f' pa s.tables
  unfolding locate
  leaf-locate zero f' pa level prefix low = refl
  leaf-locate (suc l) f' pa level prefix low =
      let (t', at) = linked-some f' inv.links (omega arith) in
      let at' : (link s f t i e).tables f' ≡ some t' = ground arith in
      elim (Bool-cases (all (t' (slot (suc l) pa)) == 0)) [
        | inl void ↦ rw (
          locate-stop l f' pa s.tables t' at (eq_of_test _ _ void),
          locate-stop l f' pa (link s f t i e).tables t' at' (eq_of_test _ _ void),
        )
        | inr busy ↦
            let go = next-linked l f' pa t' inv.links level prefix low at (ne_of_test _ _ busy) in
            rw
              (
                locate-step l f' pa s.tables t' at (ne_of_test _ _ busy),
                locate-step l f' pa (link s f t i e).tables t' at' (ne_of_test _ _ busy),
              )
              (leaf-locate l (t' (slot (suc l) pa)).physial_address pa go.0 go.1 (omega arith))
      ]

  deref-other :
      (p : Pointer)
      → ((p.0 ≢ f) ⊎ (p.1 ≢ i))
      → deref (link s f t i e).tables (some p) ≡ deref s.tables (some p)
  unfolding deref
  deref-other p apart = ground arith

  pub leaf-deref : all e ≢ 0 → deref (link s f t i e).tables (some (f, i)) ≡ some e
  unfolding deref
  leaf-deref full = ground arith

  other-pointer :
      (pa pa' : ℕ) (p : Pointer)
      → h.prefix f ≡ cover 1 pa
      → i ≡ slot 0 pa
      → (h.level p.0 ≡ 1) × (h.prefix p.0 ≡ cover 1 pa') × (p.1 ≡ slot 0 pa')
      → page pa' ≢ page pa
      → (p.0 ≢ f) ⊎ (p.1 ≢ i)
  other-pointer pa pa' p above here sound ne = elim (Bool-cases (p.0 == f)) [
    | inr away ↦ inl (ne_of_test _ _ away)
    | inl same ↦
        let part : cover 1 pa' ≡ cover 1 pa =
          sym sound.1 ∙ ap h.prefix (eq_of_test _ _ same) ∙ above in
        inr λ index. ne (omega (arith, cover-slot 0 pa, cover-slot 0 pa'))
  ]

  -- `pa` is an address of the page that the entry maps.
  pub leaf-Unchanged :
      (pa : ℕ)
      → h.prefix f ≡ cover 1 pa
      → i ≡ slot 0 pa
      → Unchanged (λ pa'. page pa' ≢ page pa) s h (link s f t i e)
  unfolding deref
  leaf-Unchanged pa above here l f' pa' level prefix low ne =
      rw (leaf-locate l f' pa' level prefix low)
        (elim (Option-cases (locate (suc l) f' pa' s.tables)) [
          | inl lost ↦ rw lost
          | inr (p, got) ↦
              let sound = locate_sound l f' pa' p inv.links level prefix low got in
              rw got (deref-other p (other-pointer pa pa' p above here sound ne))
        ])
