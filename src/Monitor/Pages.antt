-- ===== src/Monitor/Pages.antt =====
-- `InvalidateEptPages` and `ValidateEptPages` of DeviceMon/DevMon.cpp, over the page tables.
-- `UtilInveptGlobal` only flushes the processor's copies of the entries.
pub mod Visits
pub mod Trap
pub mod Sweep
pub mod Reopen
use device_mon.Prelude.{
  ℕ, zero, suc, ◌+◌, ◌*◌, ◌/◌, ◌%◌, ◌^◌, Bool, true, false, not, Option, none, some, ◌==◌,
  if◌then◌else◌,
}
use device_mon.Ept.Entry.{EptCommonEntry, all}
use device_mon.Ept.Tables.{
  Pointer, Ept, Run, ok, fault, ◌>>=◌, pure, read, write, ept_get_ept_pt_entry, map_gpa_to_hpa,
}

-- `Entry && Entry->all`.
unfoldable pub is_present : Option Pointer → Ept → Run Bool
is_present none = pure false
is_present (some p) = do e ← read p; pure (not (all e == 0))

abbrev pub with_access : ℕ → ℕ → ℕ → EptCommonEntry → EptCommonEntry
with_access r w x e = record e { read_access = r; write_access = w; execute_access = x }

-- The three assignments to the fields; the pointer has been tested.
unfoldable pub set_access : ℕ → ℕ → ℕ → Option Pointer → Ept → Run (Unit {0})
set_access r w x none = pure tt
set_access r w x (some p) = do e ← read p; write p (with_access r w x e)

-- `ADDRESS_AND_SIZE_TO_SPAN_PAGES(0, Size)`.
abbrev pub span_pages : ℕ → ℕ
span_pages size = (size + 4095) / 4096

-- `PciBarSpacePa = (ULONG)GuestPhysAddr + PAGE_SIZE * k`, in 32 bits.
abbrev pub page_address : ℕ → ℕ → ℕ
page_address base k = (base % 2 ^ 32 + 4096 * k) % 2 ^ 32

-- The lookup, and the mapping of a page that is not mapped yet.
unfoldable pub find_or_map : ℕ → Ept → Run (Option Pointer)
find_or_map pa = do
  entry ← ept_get_ept_pt_entry pa
  present ← is_present entry
  if present then pure entry else map_gpa_to_hpa pa

-- The test after the mapping, and the assignments.
unfoldable pub trap_entry : Option Pointer → Ept → Run Bool
trap_entry entry = do
  present ← is_present entry
  if present then (do _ ← set_access 0 0 1 entry; pure true) else pure false

-- A round of `InvalidateEptPages`; `false` is its `break`.
unfoldable pub invalidate_page : ℕ → Ept → Run Bool
invalidate_page pa = do entry ← find_or_map pa; trap_entry entry

-- A round of `ValidateEptPages`; a page that is not mapped is passed over.
unfoldable pub validate_page : ℕ → Ept → Run Bool
validate_page pa = do
  entry ← ept_get_ept_pt_entry pa
  present ← is_present entry
  if present then (do _ ← set_access 1 1 1 entry; pure true) else pure true

-- The `for` loop of both: `left` rounds are left, `k` is the counter, `pa` is `PciBarSpacePa`. The
-- result says whether all rounds were made.
unfoldable pub page_loop : (ℕ → Ept → Run Bool) → ℕ → ℕ → ℕ → ℕ → Ept → Run Bool
page_loop round base zero k pa = pure true
page_loop round base (suc left) k pa = do
  go_on ← round pa
  elim go_on [ true ↦ page_loop round base left (suc k) (page_address base k) | false ↦ pure false ]

unfoldable pub invalidate_ept_pages : ℕ → ℕ → Ept → Run Bool
invalidate_ept_pages base size = page_loop invalidate_page base (span_pages size) 0 (base % 2 ^ 32)

unfoldable pub validate_ept_pages : ℕ → ℕ → Ept → Run Bool
validate_ept_pages base size = page_loop validate_page base (span_pages size) 0 (base % 2 ^ 32)
