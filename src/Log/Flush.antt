-- ===== src/Log/Flush.antt =====
-- A flush of a buffer of the log, message by message (DeviceMon/log.cpp).
use device_mon.Prelude.{
  ℕ, ◌+◌, ◌-◌, ◌≤◌, ◌<◌, ◌≡◌, refl, ap, ◌∙◌, Bool, true, false, ◌&&◌, not, some, List, [], ◌∷◌,
  ◌++◌, arith, ltb, if◌then◌else◌, update, Bytes, test_of_eq, test_of_ne, Bool-cases, inl, inr,
}
use device_mon.Log.Text.{length, Stands, text_at, strlen-Stands, text_at-Stands, Stands-same}
use device_mon.Log.Buffer.{
  buffer_size, Output, set_printed_bit, is_printed, do_dbg_print, ◌>>=◌, write_entry,
}
use device_mon.Log.Entries.{IsMessage, stored, print_text, print_text-Stands, written}

pub update_self : (m : Bytes) (a x : ℕ) → update m a x a ≡ x
update_self m a x = rw (test_of_eq a a refl) refl

pub update-other : (m : Bytes) (a x b : ℕ) → b < a → update m a x b ≡ m b
update-other m a x b below = rw (test_of_ne b a (omega arith)) refl

pub update-behind : (m : Bytes) (a x b : ℕ) → a < b → update m a x b ≡ m b
update-behind m a x b above = rw (test_of_ne b a (omega arith)) refl

-- The memory after the line is printed.
abbrev after_print : (n a : ℕ) → Bytes → Bytes
after_print n a m = update (update m (a + n - 2) b'\n') (a + n - 1) 0

pub do_dbg_print-printed :
    (c d : ℕ) (s : List ℕ) (a : ℕ) (out : Output) (m : Bytes)
    → Stands (c ∷ d ∷ s) a m
    → do_dbg_print true (length (c ∷ d ∷ s)) a out m
      ≡ some (
        record out { debugger = out.debugger ++ (print_text (c ∷ d ∷ s) ∷ []) },
        after_print (length (c ∷ d ∷ s)) a m,
      )
unfolding do_dbg_print
do_dbg_print-printed c d s a out m at =
    let n : ℕ = length (c ∷ d ∷ s) in
    let enough : ltb (a + n) 2 ≡ false = ground arith in
    let line : text_at (n - 1) a (after_print n a m) ≡ print_text (c ∷ d ∷ s) =
      ap (λ k. text_at k a (after_print n a m)) (omega arith)
      ∙ print_text-Stands c d s a m (after_print n a m) at
          (λ x from below.
            update-other (update m (a + n - 2) b'\n') (a + n - 1) 0 x (omega arith)
            ∙ update-other m (a + n - 2) b'\n' x (omega arith))
          (update-other (update m (a + n - 2) b'\n') (a + n - 1) 0 (a + length s) (omega arith)
            ∙ ap (update m (a + n - 2) b'\n') (omega arith)
            ∙ update_self m (a + n - 2) b'\n') in
    rw (enough, line) refl

print_if_needed :
    (needed b : Bool) (c d : ℕ) (s : List ℕ) (a : ℕ) (out : Output) (m : Bytes)
    → Stands (c ∷ d ∷ s) a m
    → (if b then some (out, m) else do_dbg_print needed (length (c ∷ d ∷ s)) a out m)
      ≡ some (
        record out {
          debugger =
              if needed && not b
              then out.debugger ++ (print_text (c ∷ d ∷ s) ∷ [])
              else out.debugger;
        },
        if needed && not b then after_print (length (c ∷ d ∷ s)) a m else m,
      )
unfolding do_dbg_print
print_if_needed true true c d s a out m at = refl
print_if_needed false true c d s a out m at = refl
print_if_needed true false c d s a out m at = do_dbg_print-printed c d s a out m at
print_if_needed false false c d s a out m at = refl

after_print-behind : (n a x : ℕ) (m : Bytes) → a + n ≤ x → 0 < n → after_print n a m x ≡ m x
after_print-behind n a x m behind some_byte =
    update-behind (update m (a + n - 2) b'\n') (a + n - 1) 0 x (omega arith)
    ∙ update-behind m (a + n - 2) b'\n' x (omega arith)

-- The memory after the printed bit of the first byte `c` is cleared.
Stands-cleared :
    (c : ℕ) (s : List ℕ) (a : ℕ) (m : Bytes) → Stands s (a + 1) m → Stands (c ∷ s) a (update m a c)
Stands-cleared c s a m at = (
  update_self m a c,
  Stands-same s (a + 1) m (update m a c) (λ x from below. update-behind m a c x (omega arith)) at,
)

-- The body of the loop at a message: the memory that it leaves is that behind the message.
abbrev WritesEntry : Bool → Bool → List ℕ → (a : ℕ) → Output → Bytes → Type 0
WritesEntry needed b s a out m =
    (m' : Bytes) × (write_entry needed a out m
      ≡ some (a + (length s + 1), written needed b s out, m'))
    × ((x : ℕ) → a + length s ≤ x → m' x ≡ m x)

first_byte :
    (b : Bool) (c : ℕ) (s : List ℕ) (a : ℕ) (m : Bytes)
    → c < 128
    → Stands (stored b (c ∷ s)) a m
    → (set_printed_bit false (m a) ≡ c) × (is_printed (m a) ≡ b) × Stands s (a + 1) m
first_byte true c s a m low at = (omega (arith, at.0), ground (arith, at.0), at.1)
first_byte false c s a m low at = (omega (arith, at.0), ground (arith, at.0), at.1)

pub write_entry-WritesEntry :
    (needed b : Bool) (s : List ℕ) (a : ℕ) (out : Output) (m : Bytes)
    → IsMessage s
    → Stands (stored b s) a m
    → m (a + length s) ≡ 0
    → a + length s < buffer_size
    → WritesEntry needed b s a out m
unfolding write_entry
write_entry-WritesEntry needed b [] a out m message at end inside = absurd message
write_entry-WritesEntry needed b (c ∷ []) a out m message at end inside = absurd (omega arith)
write_entry-WritesEntry needed b (c ∷ d ∷ s) a out m message at end inside =
    let n : ℕ = length (c ∷ d ∷ s) in
    let m₁ = update m a c in
    let out₁ = record out { file = out.file ++ ((c ∷ d ∷ s) ∷ []) } in
    let (clear, printed, rest) = first_byte b c (d ∷ s) a m message.1 at in
    let standing = Stands-cleared c (d ∷ s) a m rest in
    let ended : m₁ (a + n) ≡ 0 = update-behind m a c (a + n) (omega arith) ∙ end in
    let long =
      strlen-Stands (c ∷ d ∷ s) (buffer_size - a) a m₁ (message.0, omega arith, message.2) standing
        ended (omega arith) in
    let text = text_at-Stands (c ∷ d ∷ s) a m₁ standing in
    let done = print_if_needed needed b c d s a out₁ m₁ standing in
    (
      if needed && not b then after_print n a m₁ else m₁,
      rw (clear, printed, long, ◌>>=◌) (rw (text, done, ◌>>=◌) refl),
      λ x behind. elim (Bool-cases (needed && not b)) [
        | inl prints ↦
            rw prints (
              after_print-behind n a x m₁ behind (omega arith)
              ∙ update-behind m a c x (omega arith))
        | inr silent ↦ rw silent (update-behind m a c x (omega arith))
      ],
    )
