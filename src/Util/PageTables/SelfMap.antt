-- ===== src/Util/PageTables/SelfMap.antt =====
-- The entries of the entries of page tables that map themselves (DeviceMon/util.cpp).
use device_mon.Prelude.{
  ℕ, ◌+◌, ◌*◌, ◌/◌, ◌%◌, ◌^◌, ◌≤◌, ◌<◌, ◌≡◌, refl, sym, ap, ◌∙◌, inl, inr, Bool-cases, ltb, ◌||◌,
  some, true, arith, bits_or, bits_or-add,
}
use device_mon.Util.PageTables.{
  PageBases, fixed_bases, initialize_page_table_variables, relocated_bases, address_to_pxe,
  address_to_ppe, address_to_pde, address_to_pte, is_canonical_form_address,
}

-- The entry `index` of the highest table, in the upper half of the addresses, leads to that table.
abbrev pub IsSelfMap : (index pte_base : ℕ) → Type 0
IsSelfMap index pte_base =
    (256 ≤ index) × (index < 512) × (pte_base ≡ (0xFFFF * 2 ^ 9 + index) * 2 ^ 39)

-- The number of the page that an entry lies in, for the entry of the page `q`.
page_of_entry :
    (index q : ℕ)
    → index < 512
    → q < 2 ^ 36
    → ((0xFFFF * 2 ^ 9 + index) * 2 ^ 39 + q * 8) % 2 ^ 64 / 2 ^ 12 % 2 ^ 36
      ≡ index * 2 ^ 27 + q / 512
page_of_entry index q low small =
    let kept : ((0xFFFF * 2 ^ 9 + index) * 2 ^ 39 + q * 8) % 2 ^ 64
        ≡ (0xFFFF * 2 ^ 9 + index) * 2 ^ 39 + q * 8 =
      omega arith in
    let page : ((0xFFFF * 2 ^ 9 + index) * 2 ^ 39 + q * 8) / 2 ^ 12
        ≡ (0xFFFF * 2 ^ 9 + index) * 2 ^ 27 + q / 512 =
      omega arith in
    rw (kept, page) (omega arith)

pages_2m : (a : ℕ) → a / 2 ^ 12 % 2 ^ 36 / 512 ≡ a / 2 ^ 21 % 2 ^ 27
pages_2m a = omega arith

pages_1g : (a : ℕ) → a / 2 ^ 21 % 2 ^ 27 / 512 ≡ a / 2 ^ 30 % 2 ^ 18
pages_1g a = omega arith

pages_512g : (a : ℕ) → a / 2 ^ 30 % 2 ^ 18 / 512 ≡ a / 2 ^ 39 % 2 ^ 9
pages_512g a = omega arith

module _ (index pte_base : ℕ) (map : IsSelfMap index pte_base) where
  relocated_index : pte_base / 2 ^ 39 % 2 ^ 9 ≡ index
  relocated_index = omega (arith, map.2)

  -- A base is the one below it with one more digit, of weight 2^k.
  join :
      (k high low : ℕ)
      → low < 2 ^ k
      → high * 2 ^ k < 2 ^ 64
      → low < 2 ^ 64
      → (base : ℕ) → base ≡ high * 2 ^ k
      → bits_or 64 base (low % 2 ^ 64) ≡ base + low
  join k high low small fits below base is =
      let whole : low % 2 ^ 64 ≡ low = omega arith in
      rw (whole, is) (bits_or-add 64 k high low small fits below)

  join_pde : bits_or 64 pte_base (index * 2 ^ 30 % 2 ^ 64) ≡ pte_base + index * 2 ^ 30
  join_pde =
      join 39 (0xFFFF * 2 ^ 9 + index) (index * 2 ^ 30) (omega (arith, map.1))
        (omega (arith, map.1)) (omega (arith, map.1)) pte_base map.2

  join_ppe :
      bits_or 64 (pte_base + index * 2 ^ 30) (index * 2 ^ 21 % 2 ^ 64)
      ≡ pte_base + index * 2 ^ 30 + index * 2 ^ 21
  join_ppe =
      join 30 ((0xFFFF * 2 ^ 9 + index) * 2 ^ 9 + index) (index * 2 ^ 21) (omega (arith, map.1))
        (omega (arith, map.1)) (omega (arith, map.1)) (pte_base + index * 2 ^ 30)
        (omega (arith, map.2))

  join_pxe :
      bits_or 64 (pte_base + index * 2 ^ 30 + index * 2 ^ 21) (index * 2 ^ 12 % 2 ^ 64)
      ≡ pte_base + index * 2 ^ 30 + index * 2 ^ 21 + index * 2 ^ 12
  join_pxe =
      join 21 (((0xFFFF * 2 ^ 9 + index) * 2 ^ 9 + index) * 2 ^ 9 + index) (index * 2 ^ 12)
        (omega (arith, map.1)) (omega (arith, map.1)) (omega (arith, map.1))
        (pte_base + index * 2 ^ 30 + index * 2 ^ 21) (omega (arith, map.2))

  relocated_pte : (relocated_bases pte_base).pte_base ≡ pte_base
  unfolding relocated_bases
  relocated_pte = refl

  relocated_pde : (relocated_bases pte_base).pde_base ≡ pte_base + index * 2 ^ 30
  unfolding relocated_bases
  relocated_pde = rw relocated_index join_pde

  relocated_ppe : (relocated_bases pte_base).ppe_base ≡ pte_base + index * 2 ^ 30 + index * 2 ^ 21
  unfolding relocated_bases
  relocated_ppe = rw (relocated_index, join_pde) join_ppe

  relocated_pxe :
      (relocated_bases pte_base).pxe_base
      ≡ pte_base + index * 2 ^ 30 + index * 2 ^ 21 + index * 2 ^ 12
  unfolding relocated_bases
  relocated_pxe = rw (relocated_index, join_pde, join_ppe) join_pxe

  -- The entry of the entry of the page `q`, whose address is `e`.
  entry_of_entry :
      (q e : ℕ)
      → q < 2 ^ 36
      → e ≡ pte_base + q * 8
      → (pte_base + e % 2 ^ 64 / 2 ^ 12 % 2 ^ 36 * 8) % 2 ^ 64
        ≡ (pte_base + index * 2 ^ 30 + q / 512 * 8) % 2 ^ 64
  entry_of_entry q e small is =
      let page : e % 2 ^ 64 / 2 ^ 12 % 2 ^ 36 ≡ index * 2 ^ 27 + q / 512 =
        rw (is, map.2) (page_of_entry index q map.1 small) in
      ap (λ p. (pte_base + p * 8) % 2 ^ 64) page ∙ ap (λ x. x % 2 ^ 64) (omega arith)

  address_to_pte-address_to_pte :
      (a : ℕ)
      → (let bases = relocated_bases pte_base in
          (address_to_pte bases (address_to_pte bases a) ≡ address_to_pde bases a)
          × (address_to_pte bases (address_to_pde bases a) ≡ address_to_ppe bases a)
          × (address_to_pte bases (address_to_ppe bases a) ≡ address_to_pxe bases a))
  unfolding address_to_pte address_to_pde address_to_ppe address_to_pxe
  address_to_pte-address_to_pte a =
      let q₁ = a / 2 ^ 12 % 2 ^ 36 in
      let q₂ = a / 2 ^ 21 % 2 ^ 27 in
      let q₃ = a / 2 ^ 30 % 2 ^ 18 in
      (
        rw (relocated_pte, relocated_pde, sym (pages_2m a))
            (entry_of_entry q₁ (pte_base + q₁ * 8) (omega arith) refl),
        rw (relocated_pte, relocated_pde, relocated_ppe, sym (pages_1g a))
            (entry_of_entry (index * 2 ^ 27 + q₂) (pte_base + index * 2 ^ 30 + q₂ * 8)
                (omega (arith, map.1)) (omega arith)
              ∙ ap (λ x. x % 2 ^ 64) (omega arith)),
        rw (relocated_pte, relocated_ppe, relocated_pxe, sym (pages_512g a))
            (entry_of_entry (index * 2 ^ 27 + index * 2 ^ 18 + q₃)
                (pte_base + index * 2 ^ 30 + index * 2 ^ 21 + q₃ * 8) (omega (arith, map.1))
                (omega arith)
              ∙ ap (λ x. x % 2 ^ 64) (omega arith)),
      )

abbrev pub IsSelfMapped : PageBases → Type 0
IsSelfMapped bases =
    (a : ℕ)
    → (address_to_pte bases (address_to_pte bases a) ≡ address_to_pde bases a)
      × (address_to_pte bases (address_to_pde bases a) ≡ address_to_ppe bases a)
      × (address_to_pte bases (address_to_ppe bases a) ≡ address_to_pxe bases a)

fixed_index : IsSelfMap 0x1ed fixed_bases.pte_base
fixed_index = (omega arith, omega arith, omega arith)

fixed-relocated : relocated_bases fixed_bases.pte_base ≡ fixed_bases
unfolding relocated_bases bits_or
fixed-relocated = refl

-- If the base that is found in `MmGetVirtualForPhysical` is that of page tables that map
-- themselves by an entry of the upper half, then on every version of Windows the bases are set,
-- and the address that `UtilpAddressToPte` gives for the PTE, PDE or PPE of an address is that of
-- the PDE, PPE or PXE of the address.
pub initialize_page_table_variables-IsSelfMapped :
    (major_version build_number index pte_base : ℕ)
    → IsSelfMap index pte_base
    → (bases : PageBases) × (initialize_page_table_variables major_version build_number
          (some pte_base)
        ≡ some bases)
      × IsSelfMapped bases
unfolding initialize_page_table_variables
initialize_page_table_variables-IsSelfMapped major_version build_number index pte_base map =
    elim (Bool-cases (ltb major_version 10 || ltb build_number 14316)) [
      | inl old ↦ (
        fixed_bases,
        rw old refl,
        rw (sym fixed-relocated)
            (address_to_pte-address_to_pte 0x1ed fixed_bases.pte_base fixed_index),
      )
      | inr new ↦
          (relocated_bases pte_base, rw new refl, address_to_pte-address_to_pte index pte_base map)
    ]

pub is_canonical_form_address-true : (address : ℕ) → is_canonical_form_address address ≡ true
unfolding is_canonical_form_address
is_canonical_form_address-true address = ground arith
