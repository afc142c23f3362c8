-- ===== src/Text/Numbers.antt =====
-- How Rust prints an unsigned number: `{n}`, `{n:02x}`, `{n:04x}`.
use native.Mathlib.Nat.{pow-suc}
use lastpass_ssh_agent.Prelude.{
  length-replicate, ℕ, zero, suc, ◌+◌, ◌-◌, ◌*◌, ◌/◌, ◌%◌, ◌^◌, ◌≤◌, ◌<◌, ◌≡◌, refl, sym, ap, ◌∙◌,
  inl, inr, [], ◌∷◌, ◌++◌, arith, ltb, ◌==◌, if◌then◌else◌, Bool-cases, length, replicate,
  length-append, All, Text,
}

-- A digit in lower case.
digit : ℕ → ℕ
digit d = if ltb d 10 then b'0' + d else b'a' + (d - 10)

-- The digits of `n` in front of `out`, `width` of them at least. The fuel `n + 1` is enough, since
-- a round divides by a base of two or more.
emit : (base fuel : ℕ) → ℕ → Text → Text
emit base zero n out = out
emit base (suc fuel) n out =
    let more = emit base fuel (n / base) (digit (n % base) ∷ out) in if n == 0 then out else more

pad : ℕ → Text → Text
pad width s = replicate (width - length s) b'0' ++ s

unfoldable pub digits : (base width : ℕ) → ℕ → Text
unfolding emit digit pad
digits base width n = pad width (emit base (suc n) n [])

unfoldable pub decimal : ℕ → Text
decimal = digits 10 1

-- The number that decimal digits stand for, behind those read so far.
value : ℕ → Text → ℕ
value acc [] = acc
value acc (c ∷ s) = value (acc * 10 + (c - b'0')) s

value-emit : (fuel n : ℕ) (out : Text) → n < fuel → value 0 (emit 10 fuel n out) ≡ value n out
unfolding emit value digit
value-emit zero n out h = absurd (omega arith)
value-emit (suc fuel) n out h = elim (Bool-cases (n == 0)) [
  | inl e ↦ rw e (ap (λ k. value k out) (ground arith))
  | inr e ↦ rw e (
      value-emit fuel (n / 10) (digit (n % 10) ∷ out) (ground arith)
      ∙ ap (λ k. value k out) (ground arith))
]

value-pad : (k : ℕ) (s : Text) → value 0 (replicate k b'0' ++ s) ≡ value 0 s
unfolding value
value-pad zero s = refl
value-pad (suc k) s = value-pad k s

value-decimal : (n : ℕ) → value 0 (decimal n) ≡ n
unfolding decimal digits value
value-decimal n =
    value-pad (1 - length (emit 10 (suc n) n [])) (emit 10 (suc n) n [])
    ∙ value-emit (suc n) n [] (omega arith)

pub decimal-injective : (m n : ℕ) → decimal m ≡ decimal n → m ≡ n
decimal-injective m n e = sym (value-decimal m) ∙ ap (value 0) e ∙ value-decimal n

-- Every character printed is a digit or a small letter.
abbrev pub IsDigit : ℕ → Type 0
IsDigit c = (b'0' ≤ c) × (c ≤ b'f')

emit-IsDigit :
    (base fuel n : ℕ) (out : Text)
    → 0 < base
    → base ≤ 16
    → All IsDigit out
    → All IsDigit (emit base fuel n out)
unfolding emit digit
emit-IsDigit base zero n out p q h = h
emit-IsDigit base (suc fuel) n out p q h = elim (Bool-cases (n == 0)) [
  | inl e ↦ rw e h
  | inr e ↦ rw e (emit-IsDigit base fuel (n / base) _ p q (digit-IsDigit, h))
]
  where
    small : n % base < 16
    small = grind arith

    digit-IsDigit : IsDigit (digit (n % base))
    digit-IsDigit = ground (arith, small)

replicate-IsDigit : (k : ℕ) (s : Text) → All IsDigit s → All IsDigit (replicate k b'0' ++ s)
replicate-IsDigit zero s h = h
replicate-IsDigit (suc k) s h = (omega arith, replicate-IsDigit k s h)

pub digits-IsDigit : (base width n : ℕ) → 0 < base → base ≤ 16 → All IsDigit (digits base width n)
unfolding digits
digits-IsDigit base width n p q = replicate-IsDigit _ _ (emit-IsDigit base (suc n) n [] p q tt)

-- A number below `10 ^ k` prints as `k` digits at most.
length-emit :
    (fuel k n : ℕ) (out : Text) → n < 10 ^ k → length (emit 10 fuel n out) ≤ k + length out
unfolding emit
length-emit zero k n out h = omega arith
length-emit (suc fuel) zero n out h = elim (Bool-cases (n == 0)) [
  | inl e ↦ rw e (omega arith)
  | inr e ↦ absurd (ground arith)
]
length-emit (suc fuel) (suc k) n out h = elim (Bool-cases (n == 0)) [
  | inl e ↦ rw e (omega arith)
  | inr e ↦ rw e (omega (arith, length-emit fuel k (n / 10) (digit (n % 10) ∷ out) tenth))
]
  where
    tenth : n / 10 < 10 ^ k
    tenth = omega (arith, pow-suc 10 k)

pub length-decimal : (k n : ℕ) → n < 10 ^ suc k → length (decimal n) ≤ suc k
unfolding decimal digits
length-decimal k n h = omega (
  arith,
  length-emit (suc n) (suc k) n [] h,
  length-append (replicate (1 - length (emit 10 (suc n) n [])) b'0') (emit 10 (suc n) n []),
  length-replicate {A = ℕ} (1 - length (emit 10 (suc n) n [])) b'0',
)
