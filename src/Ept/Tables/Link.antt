-- ===== src/Ept/Tables/Link.antt =====
-- An empty entry above level 1 is made to lead to a new table: the tables stay well formed, and no
-- address is translated otherwise.
use device_mon.Prelude.{
  ℕ, zero, suc, ◌+◌, ◌-◌, ◌*◌, ◌≤◌, ◌<◌, ◌≡◌, refl, sym, ap, ◌∙◌, inl, inr, Bool-cases, eq_of_test,
  ne_of_test, ◌≢◌, none, some, arith, ◌==◌, update,
}
use device_mon.Ept.Entry.{EptCommonEntry, all}
use device_mon.Ept.Tables.{Table, Ept}
use device_mon.Ept.Tables.Walk.{slot, locate, deref, locate-step, locate-stop}
use device_mon.Ept.Tables.Inv.{
  Shape, Links, Reserve, Inv, linked-some, next-linked, IsFresh-update, not-listed,
}
use device_mon.Ept.Tables.Allocate.{Got}
use device_mon.Ept.Tables.Extends.{SameLevels, KeepsEntries, Owned, Owned-kept, Extends, Unchanged}

abbrev pub link : Ept → ℕ → Table → ℕ → EptCommonEntry → Ept
link s f t i e = record s { tables = update s.tables f (some (update t i e)) }

abbrev pub link_shape : Shape → ℕ → ℕ → ℕ → Shape
link_shape h f i g = record {
  level = update h.level g (h.level f - 1);
  prefix = update h.prefix g (h.prefix f * 512 + i);
}

module _ (s s' : Ept) (h : Shape) (g : ℕ) (new : Got s h g s') (f i : ℕ) (t : Table)
    (e : EptCommonEntry) (found : s.tables f ≡ some t) (two : 2 ≤ h.level f) (inside : i < 512)
    (empty : all (t i) ≡ 0) (leads : e.physial_address ≡ g) (full : all e ≢ 0) where
  apart : f ≢ g
  apart same = let loose : h.level f ≡ 0 = rw same new.loose in omega arith

  linked_other : (f' : ℕ) → f' ≢ f → f' ≢ g → (link s' f t i e).tables f' ≡ s.tables f'
  linked_other f' a b = ground (arith, new.others f' b)

  link-Links : Links (link s' f t i e).tables (link_shape h f i g)
  link-Links = record {
    present = λ f' lost. ground (arith, new.inv.links.present f', new.empty);
    below = λ f' j t' e' two' inside' full'. ground (
      arith,
      new.empty,
      new.loose,
      new.others f,
      new.inv.links.below f' j t',
      new.inv.links.below f' j t,
    );
  }

  link-Reserve :
      Reserve
        (link s' f t i e).tables
        (link_shape h f i g)
        s'.preallocated_entries
        s'.preallocated_entries_count
  link-Reserve = record {
    spare = λ j from below.
        ground (arith, new.unspared j from below, new.inv.reserve.spare j from below);
    apart = new.inv.reserve.apart;
  }

  link-Inv : Inv (link s' f t i e) (link_shape h f i g)
  link-Inv = record {
    root = ground (arith, new.inv.root, new.loose);
    whole = ground (arith, new.inv.root, new.inv.whole, new.loose);
    links = link-Links;
    pool =
        IsFresh-update s'.tables f (some (update t i e)) s'.pool
          (not-listed s'.tables f t s'.pool new.inv.pool (new.others f apart ∙ found)) new.inv.pool;
    reserve = link-Reserve;
  }

  link-levels : SameLevels h (link_shape h f i g)
  link-levels f' ne = ground (arith, new.loose)

  link-kept : KeepsEntries s h (link s' f t i e)
  link-kept f' j t' e' two' full' = elim (Bool-cases (f' == f)) [
    | inl here ↦ (update t i e, rw here, ground arith)
    | inr away ↦ (t', ground (arith, new.loose, new.others f'), refl)
  ]

  link-Owned : Owned s h → Owned (link s' f t i e) (link_shape h f i g)
  link-Owned owned x linked = elim (Bool-cases (x == g)) [
    | inl made ↦
        let here : x ≡ g = eq_of_test _ _ made in
        let bound : h.level f ≤ 4 = elim (owned f (omega arith)) [
          | inl root ↦
              let top : h.level f ≡ 4 = ap h.level (root ∙ sym new.same_root) ∙ new.inv.root in
              omega arith
          | inr (parent, low, positive) ↦ omega arith
        ] in
        inr (
          (
            f,
            i,
            update t i e,
            ground arith,
            inside,
            ground (arith, apart),
            ground arith,
            ground arith,
          ),
          ground arith,
          ground (arith, new.pos),
        )
    | inr old ↦
        Owned-kept s (link s' f t i e) h (link_shape h f i g) link-levels link-kept new.same_root
          owned x (ground arith)
  ]

  pub link-Extends : Extends s h (link s' f t i e) (link_shape h f i g)
  link-Extends = record {
    inv = link-Inv;
    levels = link-levels;
    kept = link-kept;
    owned = link-Owned;
    loose = λ x out. linked_other x (λ same. ground (arith, apart)) (λ same. ground arith);
    foreign = λ x t' there out spared.
        let ne = new.unused x t' there spared in (ground arith, new.spares x spared);
    same_root = new.same_root;
    same_mtrrs = new.same_mtrrs;
  }

  -- From the new table nothing is found.
  link-void :
      (l pa : ℕ)
      → deref (link s' f t i e).tables (locate (suc l) g pa (link s' f t i e).tables) ≡ none
  unfolding deref locate
  link-void zero pa = ground (arith, new.empty, apart)
  link-void (suc l) pa = ground (arith, new.empty, apart)

  -- Through an entry that was empty nothing is found.
  link-none :
      (l f' pa : ℕ) (t' : Table)
      → s.tables f' ≡ some t'
      → h.level f' ≡ suc (suc l)
      → all (t' (slot (suc l) pa)) ≡ 0
      → deref (link s' f t i e).tables (locate (suc (suc l)) f' pa (link s' f t i e).tables) ≡ none
  unfolding deref locate
  link-none l f' pa t' at level void = ground (arith, new.loose, new.others f', link-void l pa)

  -- The table `f'` after the change: at an index that was not empty it is as before.
  link-entry :
      (f' j : ℕ) (t' : Table)
      → s.tables f' ≡ some t'
      → h.level f' ≢ 0
      → all (t' j) ≢ 0
      → (t'' : Table) × ((link s' f t i e).tables f' ≡ some t'') × (t'' j ≡ t' j)
  link-entry f' j t' e' linked full' = elim (Bool-cases (f' == f)) [
    | inl here ↦ (update t i e, rw here, ground arith)
    | inr away ↦ (t', ground (arith, new.loose, new.others f'), refl)
  ]

  pub link-Unchanged : Links s.tables h → Unchanged (λ _. Unit {0}) s h (link s' f t i e)
  unfolding deref locate
  link-Unchanged links zero f' pa level prefix low p = ground (arith, new.loose, new.others f')
  link-Unchanged links (suc l) f' pa level prefix low p =
      let (t₀, at) = linked-some f' links (omega arith) in
      let j : ℕ = slot (suc l) pa in
      elim (Bool-cases (all (t₀ j) == 0)) [
        | inl void ↦
            rw (locate-stop l f' pa s.tables t₀ at (eq_of_test _ _ void))
              (link-none l f' pa t₀ at level (eq_of_test _ _ void))
        | inr busy ↦
            let go = next-linked l f' pa t₀ links level prefix low at (ne_of_test _ _ busy) in
            let (t₁, at₁, same) = link-entry f' j t₀ at (omega arith) (ne_of_test _ _ busy) in
            rw
              (
                locate-step l f' pa s.tables t₀ at (ne_of_test _ _ busy),
                locate-step l f' pa (link s' f t i e).tables t₁ at₁ (rw same (ne_of_test _ _ busy)),
                same,
              )
              (link-Unchanged links l (t₀ j).physial_address pa go.0 go.1 (omega arith) p)
      ]
