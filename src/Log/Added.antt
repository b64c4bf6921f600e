-- ===== src/Log/Added.antt =====
-- `LogpBufferMessage` on the messages that the buffer holds (DeviceMon/log.cpp).
use device_mon.Prelude.{
  ℕ, ◌+◌, ◌-◌, ◌%◌, ◌^◌, ◌≤◌, ◌<◌, ◌≡◌, refl, sym, ap, ◌∙◌, ◌⊎◌, Bool, true, false, List, [], ◌∷◌,
  ◌++◌, arith, ltb, if◌then◌else◌, update, Bytes, Bool-cases, inl, inr,
}
use device_mon.Log.Text.{length, Stands, Stands-same}
use device_mon.Log.Buffer.{
  buffer_size, buffer_usable_size, LogBufferInfo, StringCopy, head_buffer, other_buffer,
  set_head_buffer, end_message, buffer_message,
}
use device_mon.Log.Entries.{IsMessage, Entry, stored, length-stored, Entries-cut, Entries-snoc}
use device_mon.Log.Flush.{update_self, update-other, update-behind}
use device_mon.Log.Whole.{Holds, head-set_head, other-set_head}

-- What `RtlStringCchCopyA` promises: a text that is shorter than the size is copied with its end, a
-- longer one is refused, and nothing outside of the size is written.
pub record IsCopy (copy : StringCopy) : Type 0 where
  pub fits :
      (size : ℕ) (s : List ℕ) (a : ℕ) (m : Bytes)
      → size < 2 ^ 31
      → length s < size
      → ((copy size s a m).0 ≡ true)
        × Stands s a (copy size s a m).1
        × ((copy size s a m).1 (a + length s) ≡ 0)
  pub long :
      (size : ℕ) (s : List ℕ) (a : ℕ) (m : Bytes)
      → size < 2 ^ 31
      → size ≤ length s
      → (copy size s a m).0 ≡ false
  pub outside :
      (size : ℕ) (s : List ℕ) (a : ℕ) (m : Bytes) (x : ℕ)
      → (x < a) ⊎ (a + size ≤ x)
      → (copy size s a m).1 x ≡ m x

-- The bytes before the tail and behind the buffer stay as they were, and so does the other buffer.
pub record IsWithin (info info' : LogBufferInfo) : Type 0 where
  pub before : (x : ℕ) → x < info.log_buffer_tail → head_buffer info' x ≡ head_buffer info x
  pub behind : (x : ℕ) → buffer_size ≤ x → head_buffer info' x ≡ head_buffer info x
  pub other : other_buffer info' ≡ other_buffer info
  pub same_head : info'.in_second ≡ info.in_second

pub data Buffered (info : LogBufferInfo) (xs : List Entry) (b : Bool) (s : List ℕ)
    : Bool × LogBufferInfo → Type 0 where
  added :
      {info' : LogBufferInfo}
      → info.log_buffer_tail + length s < buffer_usable_size
      → Holds info' (xs ++ ((b, s) ∷ []))
      → IsWithin info info'
      → Buffered info xs b s (true, info')
  full :
      {info' : LogBufferInfo}
      → buffer_usable_size ≤ info.log_buffer_tail + length s
      → Holds info' xs
      → IsWithin info info'
      → Buffered info xs b s (false, info')

-- The state for the memory, the tail and the usage that the copy leads to.
abbrev with_tail : Bytes → (tail usage : ℕ) → LogBufferInfo → LogBufferInfo
with_tail m tail usage info =
    set_head_buffer (update m tail 0)
      (record info { log_buffer_tail = tail; log_max_usage = usage })

with_tail-IsWithin :
    (m : Bytes) (tail usage : ℕ) (info : LogBufferInfo)
    → info.log_buffer_tail ≤ tail
    → tail ≤ buffer_usable_size
    → ((x : ℕ) → (x < info.log_buffer_tail) ⊎ (buffer_usable_size ≤ x) → m x ≡ head_buffer info x)
    → IsWithin info (with_tail m tail usage info)
with_tail-IsWithin m tail usage info from room same =
    let moved = record info { log_buffer_tail = tail; log_max_usage = usage } in
    let head = head-set_head (update m tail 0) moved in
    record {
      before = λ x below.
          ap (λ (n : Bytes). n x) head
          ∙ (update-other m tail 0 x (omega arith) ∙ same x (inl below));
      behind = λ x above.
          ap (λ (n : Bytes). n x) head
          ∙ (update-behind m tail 0 x (omega arith) ∙ same x (inr (omega arith)));
      other = other-set_head (update m tail 0) moved;
      same_head = refl;
    }

added_message :
    (info : LogBufferInfo) (xs : List Entry) (b : Bool) (s : List ℕ) (m : Bytes)
    → Holds info xs
    → IsMessage s
    → info.log_buffer_tail + length s < buffer_usable_size
    → Stands (stored b s) info.log_buffer_tail m
    → m (info.log_buffer_tail + length s) ≡ 0
    → ((x : ℕ) → (x < info.log_buffer_tail) ⊎ (buffer_usable_size ≤ x) → m x ≡ head_buffer info x)
    → Buffered info xs b s (true, end_message true m (length s) info)
unfolding end_message
added_message info xs b s m h message short at end same =
    let old : ℕ = info.log_buffer_tail in
    let tail : ℕ = old + (length s + 1) in
    let usage : ℕ = if ltb info.log_max_usage tail then tail else info.log_max_usage in
    let moved = record info { log_buffer_tail = tail; log_max_usage = usage } in
    let below = λ (x : ℕ) (under : x < tail). update-other m tail 0 x under in
    added short
      (record {
        entries = rw (head-set_head (update m tail 0) moved) (
            Entries-snoc xs b s 0 old (head_buffer info) (update m tail 0) h.entries
              (λ x from under. below x (omega arith) ∙ same x (inl under)) message
              (Stands-same (stored b s) old m (update m tail 0)
                (λ x from under. below x (omega (arith, length-stored b s))) at)
              (below (old + length s) (omega arith) ∙ end) (update_self m tail 0));
        room = omega arith;
      })
      (with_tail-IsWithin m tail usage info (omega arith) (omega arith) same)

refused_message :
    (info : LogBufferInfo) (xs : List Entry) (b : Bool) (s : List ℕ) (m : Bytes) (n : ℕ)
    → Holds info xs
    → buffer_usable_size ≤ info.log_buffer_tail + length s
    → ((x : ℕ) → (x < info.log_buffer_tail) ⊎ (buffer_usable_size ≤ x) → m x ≡ head_buffer info x)
    → Buffered info xs b s (false, end_message false m n info)
unfolding end_message
refused_message info xs b s m n h long same =
    let old : ℕ = info.log_buffer_tail in
    let moved = record info { log_max_usage = buffer_size } in
    full long
      (record {
        entries = rw (head-set_head (update m old 0) moved) (
            Entries-cut xs 0 old (head_buffer info) (update m old 0) h.entries
              (λ x from under. update-other m old 0 x under ∙ same x (inl under))
              (update_self m old 0));
        room = h.room;
      })
      (with_tail-IsWithin m old buffer_size info (omega arith) h.room same)

module _ (copy : StringCopy) (promised : IsCopy copy) where
  -- Assume that `RtlStringCchCopyA` copies a text that is shorter than the size with its end,
  -- refuses a longer one and writes nothing outside of the size, and that a message has two bytes
  -- or more, none of them zero and the first below 0x80. To a buffer that holds entries
  -- `LogpBufferMessage` adds the message as the last one exactly if its tail plus the length of
  -- the message is below the usable size; else it fails and the entries stay. In both cases it
  -- writes nothing before the tail, nothing behind the buffer and nothing into the other buffer.
  pub buffer_message-Buffered :
      (info : LogBufferInfo) (xs : List Entry) (b : Bool) (s : List ℕ)
      → Holds info xs
      → IsMessage s
      → Buffered info xs b s (buffer_message copy (stored b s) info)
  unfolding buffer_message
  buffer_message-Buffered info xs b s h message =
      let old : ℕ = info.log_buffer_tail in
      let size : ℕ = buffer_usable_size - old in
      let m : Bytes = head_buffer info in
      let room : old ≤ buffer_usable_size = h.room in
      let whole : (buffer_usable_size + 2 ^ 64 - old) % 2 ^ 64 ≡ size = omega arith in
      let same = λ (x : ℕ) (out : (x < old) ⊎ (buffer_usable_size ≤ x)).
        promised.outside size (stored b s) old m x
          (elim out [ inl l ↦ inl l | inr r ↦ inr (omega arith) ]) in
      let long = length-stored b s in
      elim (Bool-cases (ltb (length s) size)) [
        | inl short ↦
            let fits = promised.fits size (stored b s) old m (omega arith) (ground arith) in
            rw (whole, fits.0, long)
              (added_message info xs b s (copy size (stored b s) old m).1 h message (ground arith)
                fits.1 (ap (λ n. (copy size (stored b s) old m).1 (old + n)) (sym long) ∙ fits.2)
                same)
        | inr past ↦
            let refuses = promised.long size (stored b s) old m (omega arith) (ground arith) in
            rw (whole, refuses, long)
              (refused_message info xs b s (copy size (stored b s) old m).1 (length s) h
                (ground arith) same)
      ]
