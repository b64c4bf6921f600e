-- ===== src/Log/Buffer.antt =====
-- `LogBufferInfo` and `LogpBufferMessage`, `LogpFlushLogBuffer`, `LogpDoDbgPrint`, `LogpSetPrintedBit`
-- and `LogpIsPrinted` of DeviceMon/log.cpp. Pointers into a buffer are offsets from its start.
use device_mon.Prelude.{
  ℕ, zero, suc, ◌+◌, ◌-◌, ◌%◌, ◌^◌, Bool, true, false, not, Option, none, some, List, [], ◌∷◌, ◌++◌,
  ltb, ◌==◌, if◌then◌else◌, update, field, Bytes,
}
use device_mon.Log.Text.{length, strlen, text_at}

-- `kLogpBufferSize`, 16 pages, and `kLogpBufferUsableSize`.
abbrev pub buffer_size : ℕ
buffer_size = 0x10000

abbrev pub buffer_usable_size : ℕ
buffer_usable_size = 0xffff

-- `in_second` says that `log_buffer_head` is `log_buffer2`; the tail is an offset from the head.
pub record LogBufferInfo : Type 0 where
  pub in_second : Bool
  pub log_buffer_tail : ℕ
  pub log_buffer1 : Bytes
  pub log_buffer2 : Bytes
  pub log_max_usage : ℕ

-- What is handed to `ZwWriteFile` and to `DbgPrintEx`, in order.
pub record Output : Type 0 where
  pub file : List (List ℕ)
  pub debugger : List (List ℕ)

-- `RtlStringCchCopyA` into the memory at an offset, with the size given for it: whether it succeeds.
abbrev pub StringCopy : Type 0
StringCopy = (size : ℕ) → List ℕ → (at : ℕ) → Bytes → Bool × Bytes

abbrev pub head_buffer : LogBufferInfo → Bytes
head_buffer info = if info.in_second then info.log_buffer2 else info.log_buffer1

-- The buffer that `log_buffer_head` does not point to.
abbrev pub other_buffer : LogBufferInfo → Bytes
other_buffer info = if info.in_second then info.log_buffer1 else info.log_buffer2

abbrev pub set_head_buffer : Bytes → LogBufferInfo → LogBufferInfo
set_head_buffer m info = record info {
  log_buffer1 = if info.in_second then info.log_buffer1 else m;
  log_buffer2 = if info.in_second then m else info.log_buffer2;
}

abbrev pub set_other_buffer : Bytes → LogBufferInfo → LogBufferInfo
set_other_buffer m info = record info {
  log_buffer1 = if info.in_second then m else info.log_buffer1;
  log_buffer2 = if info.in_second then info.log_buffer2 else m;
}

-- A buffer as `LogpInitializeBufferInfo` fills it, and the buffers in the end.
unfoldable pub new_buffer : Bytes
new_buffer = update (update (λ a. 0xff) 0 0) (buffer_size - 1) 0

unfoldable pub new_buffers : LogBufferInfo
unfolding new_buffer
new_buffers = record {
  in_second = false;
  log_buffer_tail = 0;
  log_buffer1 = new_buffer;
  log_buffer2 = new_buffer;
  log_max_usage = 0;
}

-- The part of `LogpBufferMessage` after the copy of `n` bytes: `m` is the buffer then.
unfoldable pub end_message : (copied : Bool) → Bytes → (n : ℕ) → LogBufferInfo → LogBufferInfo
end_message copied m n info =
    let tail = if copied then info.log_buffer_tail + (n + 1) else info.log_buffer_tail in
    let usage =
      if copied
      then (if ltb info.log_max_usage tail then tail else info.log_max_usage)
      else buffer_size in
    set_head_buffer (update m tail 0)
      (record info { log_buffer_tail = tail; log_max_usage = usage })

-- `LogpBufferMessage`: whether the message is copied. The subtraction is that of `SIZE_T`.
unfoldable pub buffer_message : StringCopy → List ℕ → LogBufferInfo → Bool × LogBufferInfo
buffer_message copy message info =
    let size = (buffer_usable_size + 2 ^ 64 - info.log_buffer_tail) % 2 ^ 64 in
    let copied = copy size message info.log_buffer_tail (head_buffer info) in
    (copied.0, end_message copied.0 copied.1 (length message) info)

-- The part of `LogpFlushLogBuffer` under the spin lock.
unfoldable pub switch_buffer : LogBufferInfo → LogBufferInfo
switch_buffer info =
    let switched = record info { in_second = not info.in_second; log_buffer_tail = 0 } in
    set_head_buffer (update (head_buffer switched) 0 0) switched

-- `LogpSetPrintedBit` and `LogpIsPrinted` on the first byte of a message.
abbrev pub set_printed_bit : Bool → ℕ → ℕ
set_printed_bit true c = c % 128 + 128
set_printed_bit false c = c % 128

abbrev pub is_printed : ℕ → Bool
is_printed c = field 7 1 c == 1

-- `LogpDoDbgPrint` of the message at `a` with `n` bytes: its last two bytes become the end of the
-- line and of the text. `none` is a write in front of the memory.
unfoldable pub do_dbg_print : (needed : Bool) → (n a : ℕ) → Output → Bytes → Option (Output × Bytes)
do_dbg_print needed n a out m =
    if needed
    then (if ltb (a + n) 2
        then none
        else some (
            let m' = update (update m (a + n - 2) b'\n') (a + n - 1) 0 in
            (record out { debugger = out.debugger ++ (text_at (n - 1) a m' ∷ []) }, m')))
    else some (out, m)

abbrev pub ◌>>=◌ : {A B : Type 0} → Option A → (A → Option B) → Option B
◌>>=◌ none k = none
◌>>=◌ (some a) k = k a

infixl 5 ◌>>=◌
-- The body of the loop of `LogpFlushLogBuffer` for the message at `a`: where the next one stands,
-- and what the body leaves. `needed` is what `LogpIsDbgPrintNeeded` answers.
unfoldable pub write_entry :
    (needed : Bool) → (a : ℕ) → Output → Bytes → Option (ℕ × Output × Bytes)
unfolding do_dbg_print
write_entry needed a out m =
    let printed_out = is_printed (m a) in
    let m₁ = update m a (set_printed_bit false (m a)) in
    do
      n ← strlen (buffer_size - a) a m₁
      let written = record out { file = out.file ++ (text_at n a m₁ ∷ []) }
      done ← (if printed_out then some (written, m₁) else do_dbg_print needed n a written m₁)
      some (a + (n + 1), done.0, done.1)

-- The loop from `a` on, with at most `fuel` turns; `none` is also the end of the fuel.
unfoldable pub write_entries :
    (fuel : ℕ) → Bool → (a : ℕ) → Output → Bytes → Option (Output × Bytes)
unfolding write_entry
write_entries zero needed a out m = none
write_entries (suc fuel) needed a out m = elim (m a == 0) [
  | true ↦ some (out, m)
  | false ↦ (do done ← write_entry needed a out m; write_entries fuel needed done.0 done.1 done.2)
]

-- `LogpFlushLogBuffer` after the spin lock, with at most `fuel` turns of the loop.
unfoldable pub save_old_buffer :
    (fuel : ℕ) → Bool → Output → LogBufferInfo → Option (Output × LogBufferInfo)
save_old_buffer fuel needed out switched = do
  done ← write_entries fuel needed 0 out (other_buffer switched)
  some (done.0, set_other_buffer (update done.1 0 0) switched)

-- `LogpFlushLogBuffer`; each turn of the loop goes on by one byte at least.
unfoldable pub flush_log_buffer : Bool → Output → LogBufferInfo → Option (Output × LogBufferInfo)
flush_log_buffer needed out info = save_old_buffer buffer_size needed out (switch_buffer info)
