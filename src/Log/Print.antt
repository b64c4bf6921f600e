-- ===== src/Log/Print.antt =====
-- `LogpPrint`, `LogpMakePrefix`, `LogpFindBaseFunctionName` and `LogpPut` of DeviceMon/log.cpp.
pub mod Logged
use device_mon.Prelude.{
  ℕ, zero, suc, Bool, true, false, ◌&&◌, not, Option, none, some, List, [], ◌∷◌, ◌++◌, ltb, ◌==◌,
  if◌then◌else◌, field, Bytes, bits_and, ◌*◌,
}
use device_mon.Log.Text.{length}
use device_mon.Log.Buffer.{
  LogBufferInfo, Output, StringCopy, ◌>>=◌, buffer_message, set_printed_bit, do_dbg_print,
  flush_log_buffer,
}

-- `g_logp_debug_flag` and what `LogBufferInfo` says of the file: `enabled` that `log_buffer1` is not
-- null, `activated` is `buffer_flush_thread_should_be_alive`.
pub record LogState : Type 0 where
  pub debug_flag : ℕ
  pub enabled : Bool
  pub activated : Bool
  pub info : LogBufferInfo
  pub out : Output

-- Where the message comes from, and whether `ZwFlushBuffersFile` succeeds.
pub record Caller : Type 0 where
  pub irql : ℕ
  pub apcs_disabled : Bool
  pub flushes : Bool

-- `CLOCK_LEVEL` on x64.
abbrev pub clock_level : ℕ
clock_level = 13

-- `LogpIsLogNeeded`.
abbrev pub is_log_needed : (debug_flag level : ℕ) → Bool
is_log_needed debug_flag level = not (bits_and 32 debug_flag level == 0)

-- `LogpIsDbgPrintNeeded`: 0x800 is `kLogOptDisableDbgPrint`.
abbrev pub is_dbg_print_needed : (debug_flag : ℕ) → Bool
is_dbg_print_needed debug_flag = field 11 1 debug_flag == 0

-- `LogpSetPrintedBit` on a message, which is not empty.
abbrev pub set_message_bit : Bool → List ℕ → List ℕ
set_message_bit on [] = []
set_message_bit on (c ∷ s) = set_printed_bit on c ∷ s

-- The array that the message stands in.
abbrev pub memory_of : List ℕ → Bytes
memory_of [] a = 0
memory_of (c ∷ s) zero = c
memory_of (c ∷ s) (suc a) = memory_of s a

-- What the part of `LogpPut` before the debugger leaves: the status, the message and the state.
abbrev pub Entered : Type 0
Entered = Bool × List ℕ × LogState

-- The file can be written now.
unfoldable pub write_through : Caller → List ℕ → LogState → Option Entered
write_through c message l = do
  done ← flush_log_buffer (is_dbg_print_needed l.debug_flag) l.out l.info
  some (
    c.flushes,
    message,
    record l { info = done.1; out = record done.0 { file = done.0.file ++ (message ∷ []) } },
  )

-- The file cannot be written now.
unfoldable pub put_aside : StringCopy → (prints : Bool) → List ℕ → LogState → Option Entered
put_aside copy prints message l =
    let marked = if prints then set_message_bit true message else message in
    let done = buffer_message copy marked l.info in
    some (done.0, set_message_bit false marked, record l { info = done.1 })

-- The part of `LogpPut` under `LogpIsLogFileEnabled`.
unfoldable pub log_entry :
    StringCopy → Caller → (plain prints : Bool) → List ℕ → LogState → Option Entered
log_entry copy c plain prints message l =
    if plain && (c.irql == 0 && l.activated)
    then (if c.apcs_disabled then some (true, message, l) else write_through c message l)
    else put_aside copy prints message l

unfoldable pub print_message : (prints : Bool) → Entered → Option (Bool × LogState)
print_message prints (status, message, l) =
    if prints
    then (do
      done ←
          do_dbg_print (is_dbg_print_needed l.debug_flag) (length message) 0 l.out
            (memory_of message)
      some (status, record l { out = done.0 }))
    else some (status, l)

-- The part of `LogpPut` before the debugger.
unfoldable pub enter :
    StringCopy → Caller → (plain prints : Bool) → List ℕ → LogState → Option Entered
enter copy c plain prints message l =
    if l.enabled then log_entry copy c plain prints message l else some (true, message, l)

-- `LogpPut`: the bit 0 of the attribute is `kLogpLevelOptSafe`.
unfoldable pub put :
    StringCopy → Caller → (attribute : ℕ) → List ℕ → LogState → Option (Bool × LogState)
put copy c attribute message l =
    let plain = field 0 1 attribute == 0 in
    let prints = plain && ltb c.irql clock_level in
    do entered ← enter copy c plain prints message l; print_message prints entered

-- `LogpFindBaseFunctionName`: the loop, with the text from `ptr` on and that from `name` on.
unfoldable pub base_from : (ptr name : List ℕ) → List ℕ
base_from [] name = name
base_from (c ∷ []) name = name
base_from (c ∷ d ∷ ptr) name = base_from (d ∷ ptr) (if d == b':' then ptr else name)

unfoldable pub find_base_function_name : Option (List ℕ) → Option (List ℕ)
unfolding base_from
find_base_function_name none = none
find_base_function_name (some function_name) = some (base_from function_name function_name)

-- The calls of `RtlStringCchPrintfA` and its kin: `none` is a failure.
pub record Printf : Type 0 where
  pub message : Option (List ℕ)
  pub time : Option (List ℕ)
  pub name : Option (List ℕ) → Option (List ℕ)
  pub processor : Option (List ℕ)
  pub line : (time level processor name message : List ℕ) → Option (List ℕ)

-- The switch of `LogpMakePrefix`.
unfoldable pub level_string : ℕ → Option (List ℕ)
level_string level =
    if level == 0x10
    then some (b'D' ∷ b'B' ∷ b'G' ∷ 9 ∷ [])
    else (if level == 0x20
        then some (b'I' ∷ b'N' ∷ b'F' ∷ 9 ∷ [])
        else (if level == 0x40
            then some (b'W' ∷ b'R' ∷ b'N' ∷ 9 ∷ [])
            else (if level == 0x80 then some (b'E' ∷ b'R' ∷ b'R' ∷ 9 ∷ []) else none)))

-- `LogpMakePrefix`: 0x100, 0x200 and 0x400 are the options that leave a part out.
unfoldable pub make_prefix :
    Printf → (debug_flag level : ℕ) → Option (List ℕ) → List ℕ → Option (List ℕ)
unfolding level_string find_base_function_name
make_prefix f debug_flag level function_name log_message = do
  level_text ← level_string level
  time ← (if field 8 1 debug_flag == 0 then f.time else some [])
  name ←
      (if field 9 1 debug_flag == 0
        then f.name (find_base_function_name function_name)
        else some [])
  processor ← (if field 10 1 debug_flag == 0 then f.processor else some [])
  f.line time level_text processor name log_message

-- `LogpPrint`: whether it succeeds.
unfoldable pub log_print :
    StringCopy
    → Caller
    → Printf
    → (level : ℕ) → Option (List ℕ)
    → LogState
    → Option (Bool × LogState)
unfolding make_prefix put
log_print copy c f level function_name l =
    if is_log_needed l.debug_flag level
    then elim f.message [
      | none ↦ some (false, l)
      | some log_message ↦ elim log_message [
        | [] ↦ some (false, l)
        | first ∷ rest ↦
            elim (make_prefix f l.debug_flag (field 4 4 level * 16) function_name (first ∷ rest)) [
              | none ↦ some (false, l)
              | some message ↦ put copy c (field 0 4 level) message l
            ]
      ]
    ]
    else some (true, l)
