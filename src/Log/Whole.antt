-- ===== src/Log/Whole.antt =====
-- `LogpBufferMessage` and `LogpFlushLogBuffer` on the messages that the buffer holds
-- (DeviceMon/log.cpp).
use device_mon.Prelude.{
  ℕ, zero, suc, ◌+◌, ◌≤◌, ◌<◌, ◌≡◌, refl, sym, ap, ◌∙◌, Bool, true, false, some, List, [], ◌∷◌,
  ◌++◌, arith, ◌==◌, update, Bytes, test_of_eq, test_of_ne, Bool-cases, inl, inr,
}
use mathlib.Core.List.{append_assoc, append-nil}
use device_mon.Log.Text.{length, Stands}
use device_mon.Log.Buffer.{
  buffer_size, buffer_usable_size, LogBufferInfo, Output, ◌>>=◌, head_buffer, other_buffer,
  set_head_buffer, set_other_buffer, switch_buffer, write_entries, save_old_buffer,
  flush_log_buffer,
}
use device_mon.Log.Entries.{IsMessage, Entry, stored, Entries, Entries-le, Entries-same, written}
use device_mon.Log.Flush.{update_self, write_entry-WritesEntry}

-- The messages alone.
abbrev pub texts : List Entry → List (List ℕ)
texts [] = []
texts ((b, s) ∷ xs) = s ∷ texts xs

abbrev pub all_written : Bool → List Entry → Output → Output
all_written needed [] out = out
all_written needed ((b, s) ∷ xs) out = all_written needed xs (written needed b s out)

pub all_written-file :
    (needed : Bool) (xs : List Entry) (out : Output)
    → (all_written needed xs out).file ≡ out.file ++ texts xs
all_written-file needed [] out = sym (append-nil out.file)
all_written-file needed ((b, s) ∷ xs) out =
    all_written-file needed xs (written needed b s out) ∙ append_assoc out.file (s ∷ []) (texts xs)

Entries-length : (xs : List Entry) (a e : ℕ) (m : Bytes) → Entries xs a e m → a + length xs ≤ e
Entries-length [] a e m h = omega (arith, h.0)
Entries-length ((b, s) ∷ xs) a e m h = omega (arith, Entries-length xs (a + (length s + 1)) e m h.3)

pub entry-nonzero :
    (b : Bool) (s : List ℕ) (a : ℕ) (m : Bytes)
    → IsMessage s
    → Stands (stored b s) a m
    → (m a == 0) ≡ false
entry-nonzero b [] a m message at = absurd message
entry-nonzero true (c ∷ s) a m message at = test_of_ne (m a) 0 (omega (arith, at.0))
entry-nonzero false (c ∷ s) a m message at = test_of_ne (m a) 0 (omega (arith, at.0, message.0))

pub write_entries-written :
    (needed : Bool) (xs : List Entry) (fuel a e : ℕ) (out : Output) (m : Bytes)
    → Entries xs a e m
    → e < buffer_size
    → length xs < fuel
    → (m' : Bytes) × (write_entries fuel needed a out m ≡ some (all_written needed xs out, m'))
unfolding write_entries
write_entries-written needed xs zero a e out m h inside enough = absurd (omega arith)
write_entries-written needed [] (suc fuel) a e out m h inside enough =
    (m, rw (test_of_eq (m a) 0 h.1, write_entries) refl)
write_entries-written needed ((b, s) ∷ xs) (suc fuel) a e out m h inside enough =
    let low = Entries-le xs (a + (length s + 1)) e m h.3 in
    let (m₁, run, kept) = write_entry-WritesEntry needed b s a out m h.0 h.1 h.2 (omega arith) in
    let behind =
      Entries-same xs (a + (length s + 1)) e m m₁ (λ x from below. kept x (omega arith)) h.3 in
    let (m', rest) =
      write_entries-written needed xs fuel (a + (length s + 1)) e (written needed b s out) m₁ behind
        inside (omega arith) in
    (m', rw (entry-nonzero b s a m h.0 h.1, write_entries) (rw (run, ◌>>=◌) rest))

-- The buffer in use holds the entries, and its tail is where they end.
pub record Holds (info : LogBufferInfo) (xs : List Entry) : Type 0 where
  pub entries : Entries xs 0 info.log_buffer_tail (head_buffer info)
  pub room : info.log_buffer_tail ≤ buffer_usable_size

pub other-switched : (info : LogBufferInfo) → other_buffer (switch_buffer info) ≡ head_buffer info
unfolding switch_buffer
other-switched info = elim (Bool-cases info.in_second) [ inl e ↦ rw e refl | inr e ↦ rw e refl ]

pub switched-Holds : (info : LogBufferInfo) → Holds (switch_buffer info) []
unfolding switch_buffer
switched-Holds info = elim (Bool-cases info.in_second) [
  | inl e ↦ record { entries = (refl, rw e (update_self info.log_buffer1 0 0)); room = omega arith }
  | inr e ↦ record { entries = (refl, rw e (update_self info.log_buffer2 0 0)); room = omega arith }
]

pub head-set_other :
    (m : Bytes) (info : LogBufferInfo) → head_buffer (set_other_buffer m info) ≡ head_buffer info
head-set_other m info = elim (Bool-cases info.in_second) [ inl e ↦ rw e refl | inr e ↦ rw e refl ]

pub other-set_other :
    (m : Bytes) (info : LogBufferInfo) → other_buffer (set_other_buffer m info) ≡ m
other-set_other m info = elim (Bool-cases info.in_second) [ inl e ↦ rw e refl | inr e ↦ rw e refl ]

pub head-set_head : (m : Bytes) (info : LogBufferInfo) → head_buffer (set_head_buffer m info) ≡ m
head-set_head m info = elim (Bool-cases info.in_second) [ inl e ↦ rw e refl | inr e ↦ rw e refl ]

pub other-set_head :
    (m : Bytes) (info : LogBufferInfo) → other_buffer (set_head_buffer m info) ≡ other_buffer info
other-set_head m info = elim (Bool-cases info.in_second) [ inl e ↦ rw e refl | inr e ↦ rw e refl ]

pub Holds-set_other :
    (m : Bytes) (info : LogBufferInfo) (xs : List Entry)
    → Holds info xs
    → Holds (set_other_buffer m info) xs
Holds-set_other m info xs h = record {
  entries = rw (head-set_other m info) h.entries;
  room = h.room;
}

save_old_buffer-written :
    (fuel : ℕ) (needed : Bool) (out : Output) (info : LogBufferInfo) (xs : List Entry)
    → Holds info xs
    → length xs < fuel
    → (info' : LogBufferInfo) × (save_old_buffer fuel needed out (switch_buffer info)
        ≡ some (all_written needed xs out, info'))
      × Holds info' []
      × (other_buffer info' 0 ≡ 0)
unfolding save_old_buffer
save_old_buffer-written fuel needed out info xs h enough =
    let (m', run) =
      write_entries-written needed xs fuel 0 info.log_buffer_tail out (head_buffer info) h.entries
        (omega (arith, h.room)) enough in
    (
      set_other_buffer (update m' 0 0) (switch_buffer info),
      rw (other-switched info, run, ◌>>=◌) refl,
      Holds-set_other (update m' 0 0) (switch_buffer info) [] (switched-Holds info),
      ap (λ (m : Bytes). m 0) (other-set_other (update m' 0 0) (switch_buffer info))
          ∙ update_self m' 0 0,
    )

-- A flush of a buffer that holds entries ends: it hands all of them to the file in order, each
-- once and as it was put, and to the debugger those that were not printed before if printing is
-- on, and it leaves both buffers empty.
pub flush_log_buffer-written :
    (needed : Bool) (out : Output) (info : LogBufferInfo) (xs : List Entry)
    → Holds info xs
    → (info' : LogBufferInfo) × (flush_log_buffer needed out info
        ≡ some (all_written needed xs out, info'))
      × Holds info' []
      × (other_buffer info' 0 ≡ 0)
unfolding flush_log_buffer
flush_log_buffer-written needed out info xs h =
    save_old_buffer-written buffer_size needed out info xs h
      (omega (arith, h.room, Entries-length xs 0 info.log_buffer_tail (head_buffer info) h.entries))
