-- ===== src/Ept/Mtrr/Order.antt =====
-- What `EptpGetMemoryType` makes of entries that overlap.
use device_mon.Prelude.{ℕ, ◌≡◌, true, false, List, [], ◌∷◌, ◌++◌, arith}
use device_mon.Ept.Mtrr.{
  MtrrData, uncacheable, write_through, write_back, max_uchar, in_bounds, next_type, scan_entries,
  get_memory_type,
}

-- An entry of a variable range that describes the address.
pub record Covers (pa : ℕ) (m : MtrrData) : Type 0 where
  pub on : m.enabled ≡ true
  pub variable : m.fixed_mtrr ≡ false
  pub inside : in_bounds pa m.range_base m.range_end ≡ true

-- Enabled entries of variable ranges only.
abbrev pub AllVariable : List MtrrData → Type 0
AllVariable [] = Unit {0}
AllVariable (m ∷ ms) = (m.enabled ≡ true) × (m.fixed_mtrr ≡ false) × AllVariable ms

scan_entries-uncacheable :
    (pa : ℕ) (ms ns : List MtrrData) (u : MtrrData) (result : ℕ)
    → AllVariable ms
    → Covers pa u
    → u.type ≡ uncacheable
    → scan_entries pa (ms ++ u ∷ ns) result ≡ uncacheable
unfolding scan_entries
scan_entries-uncacheable pa [] ns u result all c e = ground arith
scan_entries-uncacheable pa (m ∷ ms) ns u result all c e = ground (
  arith,
  scan_entries-uncacheable pa ms ns u result all.2 c e,
  scan_entries-uncacheable pa ms ns u (next_type result m.type) all.2 c e,
)

-- A variable range of type UC that contains the address has the highest priority, wherever it stands
-- among enabled variable ranges.
get_memory_type-uncacheable :
    (pa default : ℕ) (ms ns : List MtrrData) (u : MtrrData)
    → AllVariable ms
    → Covers pa u
    → u.type ≡ uncacheable
    → get_memory_type (record { entries = ms ++ u ∷ ns; default_type = default }) pa ≡ uncacheable
unfolding get_memory_type
get_memory_type-uncacheable pa default ms ns u all c e =
    rw (scan_entries-uncacheable pa ms ns u max_uchar all c e)

-- Of two variable ranges that contain the address, of the types WB and WT, the code takes WT if WT comes second, and WB if WB does.
get_memory_type-order :
    (pa default : ℕ) (wb wt : MtrrData)
    → Covers pa wb
    → Covers pa wt
    → wb.type ≡ write_back
    → wt.type ≡ write_through
    → (get_memory_type (record { entries = wb ∷ wt ∷ []; default_type = default }) pa
        ≡ write_through)
      × (get_memory_type (record { entries = wt ∷ wb ∷ []; default_type = default }) pa
          ≡ write_back)
unfolding get_memory_type
get_memory_type-order pa default wb wt cb ct eb et = ground arith
