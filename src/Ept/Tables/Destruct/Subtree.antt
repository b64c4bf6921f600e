-- ===== src/Ept/Tables/Destruct/Subtree.antt =====
-- The part of the tables below a table, told by the level and the part of the address space that
-- each covers, and the tables that its entries lead to.
use device_mon.Prelude.{
  ℕ, zero, suc, ◌+◌, ◌*◌, ◌/◌, ◌<◌, ◌≡◌, refl, sym, ap, ◌∙◌, ◌⊎◌, inl, inr, ◌≢◌, some, arith,
}
use device_mon.Ept.Tables.{Table}
use device_mon.Ept.Tables.Walk.{Memory}
use device_mon.Ept.Tables.Inv.{Shape, Links}

-- The part that the table `d` levels up covers.
unfoldable pub above : ℕ → ℕ → ℕ
above zero prefix = prefix
above (suc d) prefix = above d prefix / 512

-- The table `x` is below the table of level `l` that covers the part `p`, or that table.
abbrev pub IsBelow : Shape → (l p x : ℕ) → Type 0
IsBelow h l p x = (d : ℕ) × (h.level x ≢ 0) × (h.level x + d ≡ l) × (above d (h.prefix x) ≡ p)

-- The entries of the tables of the levels from `l` to 2 lead from `f` to `x`.
unfoldable pub Reaches : Memory → (l f x : ℕ) → Type 0
Reaches m zero f x = x ≡ f
Reaches m (suc zero) f x = x ≡ f
Reaches m (suc (suc l)) f x =
    (x ≡ f)
    ⊎ ((t : Table) × (i : ℕ) × (m f ≡ some t)
        × (i < 512)
        × ((t i).physial_address ≢ 0)
        × Reaches m (suc l) (t i).physial_address x)

module _ (h : Shape) where
  pub IsBelow-self : (l f : ℕ) → h.level f ≡ suc l → IsBelow h (suc l) (h.prefix f) f
  unfolding above
  IsBelow-self l f level = (0, ground arith, ground arith, refl)

  pub IsBelow-up : (l p i x : ℕ) → i < 512 → IsBelow h l (p * 512 + i) x → IsBelow h (suc l) p x
  unfolding above
  IsBelow-up l p i x inside (d, linked, level, part) =
      (suc d, linked, omega arith, rw part (omega arith))

  pub IsBelow-level : (l p f : ℕ) → h.level f ≡ suc l → ¬ IsBelow h l p f
  IsBelow-level l p f level (d, linked, level', part) = omega arith

  pub IsBelow-apart : (l p p' x : ℕ) → IsBelow h l p x → p ≢ p' → ¬ IsBelow h l p' x
  IsBelow-apart l p p' x (d, linked, level, part) ne (d', linked', level', part') =
      let same : d ≡ d' = omega arith in ne (sym part ∙ ap (λ d. above d (h.prefix x)) same ∙ part')

  pub Reaches-IsBelow :
      {m : Memory} (l f x : ℕ)
      → Links m h
      → h.level f ≡ suc l
      → Reaches m (suc l) f x
      → IsBelow h (suc l) (h.prefix f) x
  unfolding Reaches
  Reaches-IsBelow zero f x links level same = rw same (IsBelow-self zero f level)
  Reaches-IsBelow (suc l) f x links level (inl same) = rw same (IsBelow-self (suc l) f level)
  Reaches-IsBelow (suc l) f x links level (inr (t, i, found, inside, leads, reached)) =
      let next = links.below f i t found (omega arith) inside (omega arith) in
      let step = Reaches-IsBelow l (t i).physial_address x links (ground arith) reached in
      IsBelow-up (suc l) (h.prefix f) i x inside (rw (sym next.1) step)
