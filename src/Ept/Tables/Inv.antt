-- ===== src/Ept/Tables/Inv.antt =====
-- When the tables are well formed. Every linked table has a level from 4 to 1 and covers a part of
-- the address space, and every entry above level 1 that is not empty leads to the table of the
-- level below that covers its part. So no table is reached in two ways.
use device_mon.Prelude.{
  ℕ, suc, ◌+◌, ◌*◌, ◌^◌, ◌≤◌, ◌<◌, ◌≡◌, refl, sym, ap, ◌∙◌, inl, inr, Option-cases, ◌≢◌, Bool, true,
  false, Option, none, some, List, [], ◌∷◌, arith, ◌==◌, if◌then◌else◌, update,
}
use device_mon.Ept.Entry.{all}
use device_mon.Ept.Tables.{Table, Ept, zero_table, preallocated_limit}
use device_mon.Ept.Tables.Walk.{Memory, cover, slot, slot-lt, cover-slot}

-- The level of each table, 0 for one that is not linked, and the part that it covers.
pub record Shape : Type 0 where
  pub level : ℕ → ℕ
  pub prefix : ℕ → ℕ

pub record Links (m : Memory) (h : Shape) : Type 0 where
  pub present : (f : ℕ) → m f ≡ none → h.level f ≡ 0
  pub below :
      (f i : ℕ) (t : Table)
      → m f ≡ some t
      → 2 ≤ h.level f
      → i < 512
      → all (t i) ≢ 0
      → (suc (h.level (t i).physial_address) ≡ h.level f)
        × (h.prefix (t i).physial_address ≡ h.prefix f * 512 + i)

-- The pool hands out pages that are in use nowhere, each of them once.
abbrev pub listed : ℕ → List (Option ℕ) → Bool
listed f [] = false
listed f (none ∷ pool) = listed f pool
listed f (some g ∷ pool) = if f == g then true else listed f pool

abbrev pub IsFresh : Memory → List (Option ℕ) → Type 0
IsFresh m [] = Unit {0}
IsFresh m (none ∷ pool) = IsFresh m pool
IsFresh m (some g ∷ pool) =
    (m g ≡ none) × (0 < g) × (g < 2 ^ 36) × (listed g pool ≡ false) × IsFresh m pool

-- The preallocated tables that are left are empty, not linked and different from one another.
pub record Reserve (m : Memory) (h : Shape) (entries : ℕ → ℕ) (count : ℕ) : Type 0 where
  pub spare :
      (j : ℕ)
      → count ≤ j
      → j < preallocated_limit
      → (m (entries j) ≡ some zero_table)
        × (h.level (entries j) ≡ 0)
        × (0 < entries j)
        × (entries j < 2 ^ 36)
  pub apart : (j k : ℕ) → count ≤ j → j < k → k < preallocated_limit → entries j ≢ entries k

pub record Inv (s : Ept) (h : Shape) : Type 0 where
  pub root : h.level s.ept_pml4 ≡ 4
  pub whole : h.prefix s.ept_pml4 ≡ 0
  pub links : Links s.tables h
  pub pool : IsFresh s.tables s.pool
  pub reserve : Reserve s.tables h s.preallocated_entries s.preallocated_entries_count

pub linked-some :
    {m : Memory} {h : Shape} (f : ℕ) → Links m h → h.level f ≢ 0 → (t : Table) × (m f ≡ some t)
linked-some {m} f l ne = elim (Option-cases (m f)) [
  | inl lost ↦ absurd (ne (l.present f lost))
  | inr found ↦ found
]

module _ (m : Memory) where
  pub not-listed :
      (f : ℕ) (t : Table) (pool : List (Option ℕ))
      → IsFresh m pool
      → m f ≡ some t
      → listed f pool ≡ false
  not-listed f t [] fresh e = refl
  not-listed f t (none ∷ pool) fresh e = not-listed f t pool fresh e
  not-listed f t (some g ∷ pool) fresh e = ground (arith, not-listed f t pool fresh.4 e)

  pub IsFresh-update :
      (f : ℕ) (c : Option Table) (pool : List (Option ℕ))
      → listed f pool ≡ false
      → IsFresh m pool
      → IsFresh (update m f c) pool
  IsFresh-update f c [] out fresh = tt
  IsFresh-update f c (none ∷ pool) out fresh = IsFresh-update f c pool out fresh
  IsFresh-update f c (some g ∷ pool) out fresh =
      (ground arith, fresh.1, fresh.2, fresh.3, IsFresh-update f c pool (ground arith) fresh.4)

-- Where the walk goes on to, the next table has the next level and covers the next part.
pub next-linked :
    {m : Memory} {h : Shape} (l f pa : ℕ) (t : Table)
    → Links m h
    → h.level f ≡ suc (suc l)
    → h.prefix f ≡ cover (suc (suc l)) pa
    → suc l < 4
    → m f ≡ some t
    → all (t (slot (suc l) pa)) ≢ 0
    → (h.level (t (slot (suc l) pa)).physial_address ≡ suc l)
      × (h.prefix (t (slot (suc l) pa)).physial_address ≡ cover (suc l) pa)
next-linked l f pa t links level prefix low found full =
    let next = links.below f (slot (suc l) pa) t found (omega arith) (slot-lt (suc l) pa) full in
    (
      ground arith,
      next.1 ∙ ap (λ p. p * 512 + slot (suc l) pa) prefix ∙ sym (cover-slot (suc l) pa low),
    )
