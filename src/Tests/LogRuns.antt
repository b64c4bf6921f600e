-- ===== src/Tests/LogRuns.antt =====
-- A message that goes through the log, with a copy of strings that cuts what is too long.
use device_mon.Prelude.{
  ℕ, zero, suc, ◌+◌, ◌-◌, ◌≤◌, ◌<◌, ◌^◌, ◌≡◌, refl, ap, ◌∙◌, ◌⊎◌, inl, inr, Bool, true, false, none,
  some, List, [], ◌∷◌, arith, ltb, ◌==◌, if◌then◌else◌, Bytes, update, Bool-cases,
}
use device_mon.Log.Text.{length, Stands, strlen, text_at}
use device_mon.Log.Buffer.{
  LogBufferInfo, Output, StringCopy, other_buffer, new_buffer, new_buffers, buffer_message,
  flush_log_buffer, write_entry, switch_buffer, set_other_buffer, head_buffer, set_printed_bit,
  end_message, do_dbg_print,
}
use device_mon.Log.Entries.{IsMessage, stored}
use device_mon.Log.Whole.{texts, all_written, Holds, flush_log_buffer-written}
use device_mon.Log.Added.{IsCopy, Buffered, buffer_message-Buffered}
use device_mon.Log.Print.{LogState, Caller, memory_of, put}
use device_mon.Log.Print.Logged.{Logged, put-Logged}
use device_mon.Log.Steps.{Log, new_log, Reach, here, more_steps, buffer, switch, write, finish}
use device_mon.Log.Steps.Order.{IsOrdered, log-InOrder, log-drained, log-goes_on}

abbrev place : List ℕ → (at : ℕ) → Bytes → Bytes
place s a m x =
    if ltb x a then m x else (if ltb (length s) (x - a) then m x else memory_of s (x - a))

abbrev cut : ℕ → List ℕ → List ℕ
cut zero s = []
cut (suc n) [] = []
cut (suc n) (c ∷ s) = c ∷ cut n s

abbrev copied : StringCopy
copied zero s a m = (false, m)
copied (suc n) s a m =
    if ltb n (length s) then (false, place (cut n s) a m) else (true, place s a m)

length-cut : (n : ℕ) (s : List ℕ) → length (cut n s) ≤ n
length-cut zero s = omega arith
length-cut (suc n) [] = omega arith
length-cut (suc n) (c ∷ s) = omega (arith, length-cut n s)

memory_of-length : (s : List ℕ) → memory_of s (length s) ≡ 0
memory_of-length [] = refl
memory_of-length (c ∷ s) = memory_of-length s

Stands-memory :
    (s : List ℕ) (a : ℕ) (m : Bytes)
    → ((i : ℕ) → i < length s → m (a + i) ≡ memory_of s i)
    → Stands s a m
Stands-memory [] a m at = tt
Stands-memory (c ∷ s) a m at = (
  ap m (omega arith) ∙ at 0 (omega arith),
  Stands-memory s (a + 1) m (λ i below. ap m (omega arith) ∙ at (suc i) (omega arith)),
)

place-inside :
    (s : List ℕ) (a : ℕ) (m : Bytes) (i : ℕ) → i ≤ length s → place s a m (a + i) ≡ memory_of s i
place-inside s a m i inside = let back : a + i - a ≡ i = omega arith in rw back (ground arith)

place-outside :
    (s : List ℕ) (a : ℕ) (m : Bytes) (x : ℕ) → (x < a) ⊎ (a + length s < x) → place s a m x ≡ m x
place-outside s a m x out = ground arith

copied-IsCopy : IsCopy copied
copied-IsCopy = record { fits = fits; long = long; outside = outside }
  where
    fits :
        (size : ℕ) (s : List ℕ) (a : ℕ) (m : Bytes)
        → size < 2 ^ 31
        → length s < size
        → ((copied size s a m).0 ≡ true)
          × Stands s a (copied size s a m).1
          × ((copied size s a m).1 (a + length s) ≡ 0)
    fits zero s a m small less = absurd (omega arith)
    fits (suc n) s a m small less =
        let room : ltb n (length s) ≡ false = ground arith in
        rw room (
          refl,
          Stands-memory s a (place s a m) (λ i below. place-inside s a m i (omega arith)),
          place-inside s a m (length s) (omega arith) ∙ memory_of-length s,
        )

    long :
        (size : ℕ) (s : List ℕ) (a : ℕ) (m : Bytes)
        → size < 2 ^ 31
        → size ≤ length s
        → (copied size s a m).0 ≡ false
    long zero s a m small more = refl
    long (suc n) s a m small more =
        let full : ltb n (length s) ≡ true = ground arith in rw full refl

    outside :
        (size : ℕ) (s : List ℕ) (a : ℕ) (m : Bytes) (x : ℕ)
        → (x < a) ⊎ (a + size ≤ x)
        → (copied size s a m).1 x ≡ m x
    outside zero s a m x out = refl
    outside (suc n) s a m x out = elim (Bool-cases (ltb n (length s))) [
      | inl full ↦ rw full (
          place-outside (cut n s) a m x
            (elim out [ inl l ↦ inl l | inr r ↦ inr (omega (arith, length-cut n s)) ]))
      | inr room ↦
          rw room (place-outside s a m x (elim out [ inl l ↦ inl l | inr r ↦ inr (ground arith) ]))
    ]

-- The letter I, a carriage return and a line feed.
abbrev message : List ℕ
message = 73 ∷ 13 ∷ 10 ∷ []

message-IsMessage : IsMessage message
message-IsMessage = (
  omega arith,
  omega arith,
  (omega arith, omega arith, (omega arith, omega arith, tt)),
  omega arith,
)

-- Buffers with the message, which was printed.
abbrev one_message : LogBufferInfo
one_message = record {
  in_second = false;
  log_buffer_tail = 4;
  log_buffer1 = memory_of (stored true message);
  log_buffer2 = λ a. 0;
  log_max_usage = 4;
}

one_message-Holds : Holds one_message ((true, message) ∷ [])
one_message-Holds = record {
  entries = (message-IsMessage, (refl, (refl, (refl, tt))), refl, (refl, refl));
  room = omega arith;
}

abbrev silent : Output
silent = record { file = []; debugger = [] }

buffer_message-Buffered_example :
    Buffered one_message
      ((true, message) ∷ [])
      false
      message
      (buffer_message copied message one_message)
buffer_message-Buffered_example =
    buffer_message-Buffered copied copied-IsCopy one_message ((true, message) ∷ []) false message
      one_message-Holds message-IsMessage

flush_log_buffer-written_example :
    (info' : LogBufferInfo) × (flush_log_buffer true silent one_message
      ≡ some (all_written true ((true, message) ∷ []) silent, info'))
    × Holds info' []
    × (other_buffer info' 0 ≡ 0)
flush_log_buffer-written_example =
    flush_log_buffer-written true silent one_message ((true, message) ∷ []) one_message-Holds

abbrev passive : Caller
passive = record { irql = 0; apcs_disabled = false; flushes = true }

abbrev active : LogState
active = record {
  debug_flag = 0xf0;
  enabled = true;
  activated = true;
  info = one_message;
  out = silent;
}

put-Logged_example :
    (r : Bool × LogState) × (put copied passive 0x20 message active ≡ some r)
    × Logged passive 0x20 message ((true, message) ∷ []) active r
put-Logged_example =
    put-Logged copied copied-IsCopy passive 0x20 message message-IsMessage active
      ((true, message) ∷ []) refl one_message-Holds

-- The states while the message is buffered, the buffers are switched and it is written.
abbrev one_buffered : Log
one_buffered = record new_log {
  info = (buffer_message copied (stored true message) new_log.info).1;
}

abbrev one_switched : Log
one_switched = record one_buffered { info = switch_buffer one_buffered.info; position = some 0 }

abbrev unmarked : Bytes
unmarked = let m = other_buffer one_switched.info in update m 0 (set_printed_bit false (m 0))

abbrev one_written : Log
one_written = record {
  info = set_other_buffer unmarked one_switched.info;
  out = record { file = message ∷ []; debugger = [] };
  position = some 4;
}

abbrev one_finished : Log
one_finished = record one_written {
  info = set_other_buffer (update (other_buffer one_written.info) 0 0) one_written.info;
  position = none;
}

one_buffered-Reach : Reach copied true new_log one_buffered ((true, message) ∷ [])
unfolding new_log new_buffers new_buffer buffer_message end_message
one_buffered-Reach = more_steps here (buffer true message message-IsMessage refl refl) refl

one_switched-Reach : Reach copied true new_log one_switched ((true, message) ∷ [])
unfolding new_log new_buffers new_buffer buffer_message end_message
one_switched-Reach = more_steps one_buffered-Reach (switch refl refl refl) refl

one_written-Reach : Reach copied true new_log one_written ((true, message) ∷ [])
unfolding new_log new_buffers new_buffer buffer_message end_message write_entry switch_buffer strlen
    text_at do_dbg_print
one_written-Reach =
    more_steps one_switched-Reach (write 0 4 one_written.out unmarked refl refl refl refl refl) refl

one_finished-Reach : Reach copied true new_log one_finished ((true, message) ∷ [])
unfolding new_log new_buffers new_buffer buffer_message end_message switch_buffer
one_finished-Reach = more_steps one_written-Reach (finish 4 refl refl refl refl) refl

finished_empty : head_buffer one_finished.info 0 ≡ 0
unfolding new_log new_buffers new_buffer buffer_message end_message switch_buffer
finished_empty = refl

log-InOrder_example : IsOrdered one_written ((true, message) ∷ [])
log-InOrder_example = log-InOrder copied copied-IsCopy true one_written-Reach

log-goes_on_example :
    ((other_buffer one_switched.info 0 == 0) ≡ true)
    ⊎ ((r : ℕ × Output × Bytes) × (write_entry true 0 one_switched.out
            (other_buffer one_switched.info)
          ≡ some r))
log-goes_on_example = log-goes_on copied copied-IsCopy true 0 one_switched-Reach refl

log-drained_example : one_finished.out.file ≡ texts ((true, message) ∷ [])
log-drained_example = log-drained copied copied-IsCopy true one_finished-Reach refl finished_empty
