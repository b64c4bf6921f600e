-- ===== src/Log/Text.antt =====
-- Texts of C as lists of bytes, without the zero at the end, and as they stand in memory.
use device_mon.Prelude.{
  ℕ, zero, suc, ◌+◌, ◌-◌, ◌≤◌, ◌<◌, ◌≡◌, refl, ap, ◌∙◌, Option, none, some, List, [], ◌∷◌, arith,
  Bytes,
}

abbrev pub length {ℓ} : {A : Type ℓ} → List A → ℕ
length [] = 0
length (_ ∷ xs) = suc (length xs)

-- Bytes other than the zero.
abbrev pub IsText : List ℕ → Type 0
IsText [] = Unit {0}
IsText (c ∷ s) = (0 < c) × (c < 256) × IsText s

-- `strlen` of the text at `a`, in memory with `left` bytes from there; `none` is a read behind it.
unfoldable pub strlen : (left a : ℕ) → Bytes → Option ℕ
strlen zero a m = none
strlen (suc left) a m = elim (m a) [
  | zero ↦ some 0
  | suc c ↦ elim (strlen left (a + 1) m) [ none ↦ none | some n ↦ some (suc n) ]
]

unfoldable pub text_at : (n a : ℕ) → Bytes → List ℕ
text_at zero a m = []
text_at (suc n) a m = m a ∷ text_at n (a + 1) m

-- The bytes of the text stand from `a` on.
abbrev pub Stands : List ℕ → ℕ → Bytes → Type 0
Stands [] a m = Unit {0}
Stands (c ∷ s) a m = (m a ≡ c) × Stands s (a + 1) m

pub strlen-Stands :
    (s : List ℕ) (left a : ℕ) (m : Bytes)
    → IsText s
    → Stands s a m
    → m (a + length s) ≡ 0
    → length s < left
    → strlen left a m ≡ some (length s)
unfolding strlen
strlen-Stands s zero a m text at end short = absurd (omega arith)
strlen-Stands [] (suc left) a m text at end short =
    let here : m a ≡ 0 = ap m (omega arith) ∙ end in rw (here, strlen) refl
strlen-Stands (c ∷ s) (suc left) a m text at end short =
    let rest =
      strlen-Stands s left (a + 1) m text.2 at.1 (ap m (omega arith) ∙ end) (omega arith) in
    let here : m a ≡ suc (c - 1) = at.0 ∙ omega (arith, text.0) in rw (here, strlen) (rw rest refl)

pub text_at-Stands : (s : List ℕ) (a : ℕ) (m : Bytes) → Stands s a m → text_at (length s) a m ≡ s
unfolding text_at
text_at-Stands [] a m at = refl
text_at-Stands (c ∷ s) a m at = cc (at.0, text_at-Stands s (a + 1) m at.1)

pub Stands-same :
    (s : List ℕ) (a : ℕ) (m m' : Bytes)
    → ((b : ℕ) → a ≤ b → b < a + length s → m' b ≡ m b)
    → Stands s a m
    → Stands s a m'
Stands-same [] a m m' same at = tt
Stands-same (c ∷ s) a m m' same at = (
  same a (omega arith) (omega arith) ∙ at.0,
  Stands-same s (a + 1) m m' (λ b from below. same b (omega arith) (omega arith)) at.1,
)
