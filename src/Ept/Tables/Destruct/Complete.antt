-- ===== src/Ept/Tables/Destruct/Complete.antt =====
-- The walk of `EptpDestructTables` comes to every linked table (DeviceMon/ept.cpp).
use device_mon.Prelude.{
  ℕ, zero, suc, ◌+◌, ◌-◌, ◌≤◌, ◌<◌, ◌≡◌, refl, sym, ap, ◌∙◌, inl, inr, ◌≢◌, some, arith,
}
use device_mon.Ept.Tables.{Table, Ept}
use device_mon.Ept.Tables.Walk.{Memory}
use device_mon.Ept.Tables.Inv.{Shape, Links}
use device_mon.Ept.Tables.Extends.{Owned}
use device_mon.Ept.Tables.Destruct.Subtree.{Reaches}

Reaches-self : (m : Memory) (l x : ℕ) → Reaches m l x x
unfolding Reaches
Reaches-self m zero x = refl
Reaches-self m (suc zero) x = refl
Reaches-self m (suc (suc l)) x = inl refl

-- One more entry at the end of the way.
Reaches-step :
    (m : Memory) (h : Shape) (l f₀ f i x : ℕ) (t : Table)
    → Links m h
    → h.level f₀ ≡ suc l
    → m f ≡ some t
    → i < 512
    → 2 ≤ h.level f
    → (t i).physial_address ≡ x
    → 0 < x
    → Reaches m (suc l) f₀ f
    → Reaches m (suc l) f₀ x
unfolding Reaches
Reaches-step m h zero f₀ f i x t links level found inside two leads positive same =
    let one : h.level f ≡ 1 = ap h.level same ∙ level in absurd (omega arith)
Reaches-step m h (suc l) f₀ f i x t links level found inside two leads positive (inl same) =
    inr (t, i, ap m (sym same) ∙ found, inside, omega arith, rw leads (Reaches-self m (suc l) x))
Reaches-step m h (suc l) f₀ f i x t links level found inside two leads positive
      (inr (t', j, found', inside', leads', reached)) =
    let next = links.below f₀ j t' found' (omega arith) inside' (omega arith) in
    inr (
      t',
      j,
      found',
      inside',
      leads',
      Reaches-step m h l (t' j).physial_address f i x t links (omega (arith, next.0)) found inside
          two leads positive reached,
    )

Owned-Reaches-up :
    (s : Ept) (h : Shape)
    → Links s.tables h
    → h.level s.ept_pml4 ≡ 4
    → Owned s h
    → (d x : ℕ) → h.level x ≢ 0
    → h.level x + d ≡ 4
    → Reaches s.tables 4 s.ept_pml4 x
Owned-Reaches-up s h links root owned zero x linked top = elim (owned x linked) [
  | inl same ↦ rw same (Reaches-self s.tables 4 s.ept_pml4)
  | inr (parent, low, positive) ↦ absurd (omega arith)
]
Owned-Reaches-up s h links root owned (suc d) x linked top = elim (owned x linked) [
  | inl same ↦ rw same (Reaches-self s.tables 4 s.ept_pml4)
  | inr ((f, i, t, found, inside, two, full, leads), low, positive) ↦
      let next = links.below f i t found two inside full in
      let up : suc (h.level x) ≡ h.level f = ap (λ y. suc (h.level y)) (sym leads) ∙ next.0 in
      Reaches-step s.tables h 3 s.ept_pml4 f i x t links root found inside two leads positive
        (Owned-Reaches-up s h links root owned d f (omega arith) (omega arith))
]

pub Owned-Reaches :
    (s : Ept) (h : Shape)
    → Links s.tables h
    → h.level s.ept_pml4 ≡ 4
    → Owned s h
    → (x : ℕ) → h.level x ≢ 0
    → Reaches s.tables 4 s.ept_pml4 x
Owned-Reaches s h links root owned x linked = elim (owned x linked) [
  | inl same ↦ rw same (Reaches-self s.tables 4 s.ept_pml4)
  | inr (parent, low, positive) ↦
      Owned-Reaches-up s h links root owned (4 - h.level x) x linked (omega arith)
]
