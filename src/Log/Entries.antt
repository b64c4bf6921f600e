-- ===== src/Log/Entries.antt =====
-- The messages that a buffer of the log holds (DeviceMon/log.cpp).
use device_mon.Prelude.{
  ℕ, suc, ◌+◌, ◌≤◌, ◌<◌, ◌≡◌, refl, sym, ap, ◌∙◌, Bool, true, false, ◌&&◌, not, List, [], ◌∷◌, ◌++◌,
  arith, ltb, if◌then◌else◌, Bytes, Bool-cases, inl, inr,
}
use device_mon.Log.Text.{length, IsText, Stands, text_at, Stands-same}
use device_mon.Log.Buffer.{Output, set_printed_bit}

-- A text of two bytes or more whose first byte has no high bit.
abbrev pub IsMessage : List ℕ → Type 0
IsMessage [] = ⊥
IsMessage (c ∷ s) = (0 < c) × (c < 128) × IsText s × (0 < length s)

-- Whether it was printed when it was buffered, and the message.
abbrev pub Entry : Type 0
Entry = Bool × List ℕ

abbrev pub stored : Bool → List ℕ → List ℕ
stored b [] = []
stored true (c ∷ s) = set_printed_bit true c ∷ s
stored false (c ∷ s) = c ∷ s

-- The entries stand one behind the other from `a` on, and an empty text at `e` ends them.
abbrev pub Entries : List Entry → (a e : ℕ) → Bytes → Type 0
Entries [] a e m = (a ≡ e) × (m a ≡ 0)
Entries ((b, s) ∷ xs) a e m =
    IsMessage s
    × Stands (stored b s) a m
    × (m (a + length s) ≡ 0)
    × Entries xs (a + (length s + 1)) e m

pub length-stored : (b : Bool) (s : List ℕ) → length (stored b s) ≡ length s
length-stored b [] = refl
length-stored true (c ∷ s) = refl
length-stored false (c ∷ s) = refl

pub Entries-le : (xs : List Entry) (a e : ℕ) (m : Bytes) → Entries xs a e m → a ≤ e
Entries-le [] a e m h = omega (arith, h.0)
Entries-le ((b, s) ∷ xs) a e m h = omega (arith, Entries-le xs (a + (length s + 1)) e m h.3)

Entries-end : (xs : List Entry) (a e : ℕ) (m : Bytes) → Entries xs a e m → m e ≡ 0
Entries-end [] a e m h = ap m (sym h.0) ∙ h.1
Entries-end ((b, s) ∷ xs) a e m h = Entries-end xs (a + (length s + 1)) e m h.3

pub Entries-same :
    (xs : List Entry) (a e : ℕ) (m m' : Bytes)
    → ((x : ℕ) → a ≤ x → x ≤ e → m' x ≡ m x)
    → Entries xs a e m
    → Entries xs a e m'
Entries-same [] a e m m' same h = (h.0, same a (omega arith) (omega (arith, h.0)) ∙ h.1)
Entries-same ((b, s) ∷ xs) a e m m' same h =
    let low = Entries-le xs (a + (length s + 1)) e m h.3 in
    (
      h.0,
      Stands-same (stored b s) a m m'
          (λ x from below. same x from (omega (arith, length-stored b s))) h.1,
      same (a + length s) (omega arith) (omega arith) ∙ h.2,
      Entries-same xs (a + (length s + 1)) e m m' (λ x from below. same x (omega arith) below) h.3,
    )

-- The same entries where the end is written again.
pub Entries-cut :
    (xs : List Entry) (a e : ℕ) (m m' : Bytes)
    → Entries xs a e m
    → ((x : ℕ) → a ≤ x → x < e → m' x ≡ m x)
    → m' e ≡ 0
    → Entries xs a e m'
Entries-cut xs a e m m' h same end =
    Entries-same xs a e m m'
      (λ x from below. elim (Bool-cases (ltb x e)) [
        | inl under ↦ same x from (ground arith)
        | inr last ↦ let at : x ≡ e = ground arith in rw at (end ∙ sym (Entries-end xs a e m h))
      ])
      h

-- One more entry where the last one ends.
pub Entries-snoc :
    (xs : List Entry) (b : Bool) (s : List ℕ) (a e : ℕ) (m m' : Bytes)
    → Entries xs a e m
    → ((x : ℕ) → a ≤ x → x < e → m' x ≡ m x)
    → IsMessage s
    → Stands (stored b s) e m'
    → m' (e + length s) ≡ 0
    → m' (e + (length s + 1)) ≡ 0
    → Entries (xs ++ ((b, s) ∷ [])) a (e + (length s + 1)) m'
Entries-snoc [] b s a e m m' h same message at end next = rw h.0 (message, at, end, (refl, next))
Entries-snoc ((b', s') ∷ xs) b s a e m m' h same message at end next =
    let low = Entries-le xs (a + (length s' + 1)) e m h.3 in
    (
      h.0,
      Stands-same (stored b' s') a m m'
          (λ x from below. same x from (omega (arith, length-stored b' s'))) h.1,
      same (a + length s') (omega arith) (omega arith) ∙ h.2,
      Entries-snoc xs b s (a + (length s' + 1)) e m m' h.3
          (λ x from below. same x (omega arith) below) message at end next,
    )

-- What the debugger is given: the line with a plain end.
abbrev pub print_text : List ℕ → List ℕ
print_text [] = []
print_text (c ∷ []) = []
print_text (c ∷ d ∷ []) = b'\n' ∷ []
print_text (c ∷ d ∷ e ∷ s) = c ∷ print_text (d ∷ e ∷ s)

pub print_text-Stands :
    (c d : ℕ) (s : List ℕ) (a : ℕ) (m m' : Bytes)
    → Stands (c ∷ d ∷ s) a m
    → ((x : ℕ) → a ≤ x → x < a + length s → m' x ≡ m x)
    → m' (a + length s) ≡ b'\n'
    → text_at (suc (length s)) a m' ≡ print_text (c ∷ d ∷ s)
unfolding text_at
print_text-Stands c d [] a m m' at same end =
    let here : m' a ≡ 10 = ap m' (omega arith) ∙ end in rw here refl
print_text-Stands c d (e ∷ s) a m m' at same end =
    let first = same a (omega arith) (omega arith) ∙ at.0 in
    let rest =
      print_text-Stands d e s (a + 1) m m' at.1 (λ x from below. same x (omega arith) (omega arith))
        (ap m' (omega arith) ∙ end) in
    rw (first, rest) refl

-- What the output has after the message is written, and printed unless it was before.
abbrev pub written : Bool → Bool → List ℕ → Output → Output
written needed b s out = record {
  file = out.file ++ (s ∷ []);
  debugger = if needed && not b then out.debugger ++ (print_text s ∷ []) else out.debugger;
}
