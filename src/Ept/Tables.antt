-- ===== src/Ept/Tables.antt =====
-- The four-level tables in physical memory and the walks over them (DeviceMon/ept.cpp).
-- A table is a page of pool memory, and stands for its page frame number: `UtilPaFromVa` followed
-- by `UtilPfnFromPa` gives the number, and `UtilVaFromPfn` finds the table by it.
pub mod Walk
pub mod Inv
pub mod Allocate
pub mod Extends
pub mod Link
pub mod Leaf
pub mod Enter
pub mod Spends
pub mod Construct
pub mod Lookup
pub mod Update
pub mod Destruct
pub mod Init
use device_mon.Prelude.{
  ℕ, zero, suc, ◌+◌, ◌-◌, ◌%◌, ◌^◌, ◌||◌, leb, ◌*◌, Bool, true, false, Option, none, some, List, [],
  ◌∷◌, ◌==◌, ltb, if◌then◌else◌, update,
}
use device_mon.Ept.Mtrr.{MtrrTable}
use device_mon.Ept.Entry.{EptCommonEntry, all, zero_entry, init_table_entry, table_index}

abbrev pub Table : Type 0
Table = ℕ → EptCommonEntry

abbrev pub zero_table : Table
zero_table i = zero_entry

-- `kEptpNumberOfPreallocatedEntries`.
abbrev pub preallocated_limit : ℕ
preallocated_limit = 50

-- Memory and the fields of `EptData`. `tables` holds what is allocated. `pool` is what the calls of
-- `ExAllocatePoolWithTag` will return, in order: the frame of a page, or `none` for a failure.
pub record Ept : Type 0 where
  pub tables : ℕ → Option Table
  pub pool : List (Option ℕ)
  pub ept_pml4 : ℕ
  pub preallocated_entries : ℕ → ℕ
  pub preallocated_entries_count : ℕ
  pub mtrrs : MtrrTable

-- `fault` is an access to memory that holds no table.
pub data Run (A : Type 0) : Type 0 where
  ok : A → Ept → Run A
  fault : Run A

infixl 5 ◌>>=◌
abbrev pub ◌>>=◌ : {A B : Type 0} → (Ept → Run A) → (A → Ept → Run B) → Ept → Run B
◌>>=◌ m k s = elim (m s) [ ok a s' ↦ k a s' | fault ↦ fault ]

abbrev pub pure : {A : Type 0} → A → Ept → Run A
pure a s = ok a s

-- A pointer to an entry: the table and the index.
abbrev pub Pointer : Type 0
Pointer = ℕ × ℕ

unfoldable pub read : Pointer → Ept → Run EptCommonEntry
read (f, i) s = elim (s.tables f) [ none ↦ fault | some t ↦ ok (t i) s ]

unfoldable pub write : Pointer → EptCommonEntry → Ept → Run (Unit {0})
write (f, i) e s = elim (s.tables f) [
  | none ↦ fault
  | some t ↦ ok tt (record s { tables = update s.tables f (some (update t i e)) })
]

-- `EptpAllocateEptEntryFromPool`: a zeroed page, or `nullptr`.
unfoldable pub allocate_from_pool : Ept → Run (Option ℕ)
allocate_from_pool s = elim s.pool [
  | [] ↦ ok none s
  | answer ∷ rest ↦ elim answer [
    | none ↦ ok none (record s { pool = rest })
    | some f ↦ ok (some f) (record s { pool = rest; tables = update s.tables f (some zero_table) })
  ]
]

-- `EptpAllocateEptEntryFromPreAllocated`: past the fifty tables, the pool is asked. The counter is a
-- `LONG`, kept here by its 32 bits; where it is not positive the code reads in front of the array.
unfoldable pub allocate_from_preallocated : Ept → Run (Option ℕ)
unfolding allocate_from_pool
allocate_from_preallocated s =
    let count = (s.preallocated_entries_count + 1) % 2 ^ 32 in
    let s' = record s { preallocated_entries_count = count } in
    if count == 0 || leb (2 ^ 31) count
    then fault
    else (if ltb preallocated_limit count
        then allocate_from_pool s'
        else ok (some (s.preallocated_entries (count - 1))) s')

-- `EptpAllocateEptEntry`; the flag says whether `ept_data` is given.
unfoldable pub allocate_ept_entry : Bool → Ept → Run (Option ℕ)
unfolding allocate_from_preallocated allocate_from_pool
allocate_ept_entry true = allocate_from_preallocated
allocate_ept_entry false = allocate_from_pool

-- The memory type table, a global variable.
abbrev pub mtrr_table : Ept → Run MtrrTable
mtrr_table s = ok s.mtrrs s

-- The entry is made to lead to the new table, if there is one, and is read again.
unfoldable pub enter_table : ℕ → Pointer → EptCommonEntry → Option ℕ → Ept → Run (Option ℕ)
enter_table level p e none = pure none
enter_table level p e (some g) = do
  mtrrs ← mtrr_table
  _ ← write p (init_table_entry mtrrs e level (g * 4096))
  e' ← read p
  pure (some e'.physial_address)

-- Where the entry is empty: a table is allocated.
unfoldable pub add_table : Bool → ℕ → Pointer → EptCommonEntry → Ept → Run (Option ℕ)
add_table given level p e = do made ← allocate_ept_entry given; enter_table level p e made

-- The part that the cases 4, 3 and 2 of `EptpConstructTables` share: the table that the entry
-- leads to, made if the entry is empty; `none` if no table could be had.
unfoldable pub next_table : Bool → ℕ → Pointer → Ept → Run (Option ℕ)
next_table given level p = do
  e ← read p
  if all e == 0 then add_table given level p e else pure (some e.physial_address)

-- The part of case 1: the entry is set, whatever it was; the assertion that it was empty does nothing in
-- a release build.
unfoldable pub set_leaf : ℕ → Pointer → Ept → Run (Option Pointer)
set_leaf pa p = do
  e ← read p
  mtrrs ← mtrr_table
  _ ← write p (init_table_entry mtrrs e 1 pa)
  pure (some p)

-- `EptpConstructTables`.
unfoldable pub construct_tables : Bool → (level table : ℕ) → ℕ → Ept → Run (Option Pointer)
construct_tables given zero table pa = pure none
construct_tables given (suc zero) table pa = elim (table_index 1 pa) [
  | none ↦ pure none
  | some i ↦ set_leaf pa (table, i)
]
construct_tables given (suc (suc level)) table pa = elim (table_index (suc (suc level)) pa) [
  | none ↦ pure none
  | some i ↦ do
    next ← next_table given (suc (suc level)) (table, i)
    elim next [ none ↦ pure none | some g ↦ construct_tables given (suc level) g pa ]
]

-- `EptpGetEptPtEntry`. A table is never the null pointer here.
unfoldable pub get_pt_entry : (level table : ℕ) → ℕ → Ept → Run (Option Pointer)
get_pt_entry zero table pa = pure none
get_pt_entry (suc zero) table pa = elim (table_index 1 pa) [
  | none ↦ pure none
  | some i ↦ pure (some (table, i))
]
get_pt_entry (suc (suc level)) table pa = elim (table_index (suc (suc level)) pa) [
  | none ↦ pure none
  | some i ↦ do
    e ← read (table, i)
    elim (all e == 0) [ true ↦ pure none | false ↦ get_pt_entry (suc level) e.physial_address pa ]
]

-- `EptGetEptPtEntry`.
unfoldable pub ept_get_ept_pt_entry : ℕ → Ept → Run (Option Pointer)
ept_get_ept_pt_entry pa s = get_pt_entry 4 s.ept_pml4 pa s

-- `EptpMapGpaToHpa`.
unfoldable pub map_gpa_to_hpa : ℕ → Ept → Run (Option Pointer)
map_gpa_to_hpa pa s = construct_tables true 4 s.ept_pml4 pa s
