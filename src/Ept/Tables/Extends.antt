-- ===== src/Ept/Tables/Extends.antt =====
-- How a well-formed state may change: what was linked stays linked, in the same place.
use device_mon.Prelude.{
  ℕ, suc, ◌≤◌, ◌<◌, ◌≡◌, refl, sym, ◌∙◌, ◌≢◌, ◌⊎◌, inl, inr, some, arith, Bool-cases, eq_of_test,
  ne_of_test, ◌==◌,
}
use device_mon.Ept.Entry.{all}
use device_mon.Ept.Tables.{Table, Ept}
use device_mon.Ept.Tables.Walk.{Memory, cover, locate, deref}
use device_mon.Ept.Tables.Inv.{Shape, Inv}
use device_mon.Ept.Tables.Allocate.{Unspared}

-- An entry above level 1 leads to the table.
abbrev pub Parent : Memory → Shape → ℕ → Type 0
Parent m h x =
    (f : ℕ) × (i : ℕ) × (t : Table) × (m f ≡ some t)
    × (i < 512)
    × (2 ≤ h.level f)
    × (all (t i) ≢ 0)
    × ((t i).physial_address ≡ x)

-- An entry leads to every linked table but the root.
abbrev pub Owned : Ept → Shape → Type 0
Owned s h =
    (x : ℕ) → h.level x ≢ 0 → (x ≡ s.ept_pml4) ⊎ (Parent s.tables h x × (h.level x < 4) × (0 < x))

abbrev pub SameLevels : Shape → Shape → Type 0
SameLevels h h' = (f : ℕ) → h.level f ≢ 0 → (h'.level f ≡ h.level f) × (h'.prefix f ≡ h.prefix f)

abbrev pub KeepsEntries : Ept → Shape → Ept → Type 0
KeepsEntries s h s' =
    (f i : ℕ) (t : Table)
    → s.tables f ≡ some t
    → 2 ≤ h.level f
    → all (t i) ≢ 0
    → (t' : Table) × (s'.tables f ≡ some t') × (t' i ≡ t i)

-- What led to a table that was linked still does.
pub Owned-kept :
    (s s' : Ept) (h h' : Shape)
    → SameLevels h h'
    → KeepsEntries s h s'
    → s'.ept_pml4 ≡ s.ept_pml4
    → Owned s h
    → (x : ℕ) → h.level x ≢ 0
    → (x ≡ s'.ept_pml4) ⊎ (Parent s'.tables h' x × (h'.level x < 4) × (0 < x))
Owned-kept s s' h h' levels kept root owned x linked = elim (owned x linked) [
  | inl same ↦ inl (same ∙ sym root)
  | inr ((f, i, t, found, inside, two, full, leads), low, positive) ↦
      let (t', found', same) = kept f i t found two full in
      inr (
        (
          f,
          i,
          t',
          found',
          inside,
          omega (arith, (levels f (omega arith)).0),
          rw same full,
          rw same leads,
        ),
        omega (arith, (levels x linked).0),
        positive,
      )
]

-- What is not linked is as it was.
abbrev pub KeepsLoose : Ept → Ept → Shape → Type 0
KeepsLoose s s' h' = (x : ℕ) → h'.level x ≡ 0 → s'.tables x ≡ s.tables x

-- A table that was there, and neither linked nor preallocated, does not get linked.
abbrev pub KeepsForeign : Ept → Shape → Ept → Shape → Type 0
KeepsForeign s h s' h' =
    (x : ℕ) (t : Table)
    → s.tables x ≡ some t
    → h.level x ≡ 0
    → Unspared s x
    → (h'.level x ≡ 0) × Unspared s' x

pub record Extends (s : Ept) (h : Shape) (s' : Ept) (h' : Shape) : Type 0 where
  pub inv : Inv s' h'
  pub levels : SameLevels h h'
  pub kept : KeepsEntries s h s'
  pub owned : Owned s h → Owned s' h'
  pub loose : KeepsLoose s s' h'
  pub foreign : KeepsForeign s h s' h'
  pub same_root : s'.ept_pml4 ≡ s.ept_pml4
  pub same_mtrrs : s'.mtrrs ≡ s.mtrrs

-- From every linked table on, the addresses that satisfy `P` are translated as before.
abbrev pub Unchanged : (ℕ → Type 0) → Ept → Shape → Ept → Type 0
Unchanged P s h s' =
    (l f pa : ℕ)
    → h.level f ≡ suc l
    → h.prefix f ≡ cover (suc l) pa
    → l < 4
    → P pa
    → deref s'.tables (locate (suc l) f pa s'.tables)
      ≡ deref s.tables (locate (suc l) f pa s.tables)

pub Extends-refl : {s : Ept} {h : Shape} → Inv s h → Extends s h s h
Extends-refl inv = record {
  inv = inv;
  levels = λ f ne. (refl, refl);
  kept = λ f i t e two full. (t, e, refl);
  owned = λ owned. owned;
  loose = λ x out. refl;
  foreign = λ x t there out spared. (out, spared);
  same_root = refl;
  same_mtrrs = refl;
}

pub was_loose :
    {s s' : Ept} {h h' : Shape} → Extends s h s' h' → (x : ℕ) → h'.level x ≡ 0 → h.level x ≡ 0
was_loose {h = h} x f out = elim (Bool-cases (h.level f == 0)) [
  | inl here ↦ eq_of_test _ _ here
  | inr linked ↦
      let ne : h.level f ≢ 0 = ne_of_test _ _ linked in absurd (ne (sym (x.levels f ne).0 ∙ out))
]

pub Extends-trans :
    {s₁ s₂ s₃ : Ept} {h₁ h₂ h₃ : Shape}
    → Extends s₁ h₁ s₂ h₂
    → Extends s₂ h₂ s₃ h₃
    → Extends s₁ h₁ s₃ h₃
Extends-trans a b = record {
  inv = b.inv;
  levels = λ f ne. ground (arith, a.levels f ne, b.levels f);
  kept = λ f i t e two full.
      let (t₂, e₂, same₂) = a.kept f i t e two full in
      let (t₃, e₃, same₃) = b.kept f i t₂ e₂ (ground (arith, a.levels f)) (rw same₂ full) in
      (t₃, e₃, same₃ ∙ same₂);
  owned = λ owned. b.owned (a.owned owned);
  loose = λ x out. b.loose x out ∙ a.loose x (was_loose b x out);
  foreign = λ x t there out spared.
      let first = a.foreign x t there out spared in
      b.foreign x t (a.loose x first.0 ∙ there) first.0 first.1;
  same_root = b.same_root ∙ a.same_root;
  same_mtrrs = b.same_mtrrs ∙ a.same_mtrrs;
}

pub Unchanged-trans :
    (P : ℕ → Type 0) {s₁ s₂ : Ept} (s₃ : Ept) {h₁ h₂ : Shape}
    → Extends s₁ h₁ s₂ h₂
    → Unchanged P s₁ h₁ s₂
    → Unchanged P s₂ h₂ s₃
    → Unchanged P s₁ h₁ s₃
Unchanged-trans P s₃ x a b l f pa level prefix low p =
    let same = x.levels f (omega arith) in
    b l f pa (same.0 ∙ level) (same.1 ∙ prefix) low p ∙ a l f pa level prefix low p
