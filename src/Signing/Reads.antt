-- ===== src/Signing/Reads.antt =====
-- src/signing.rs, `Wire`: what a read of a wire string or a byte returns, and what a chain of reads
-- that succeeded went through.
use lastpass_ssh_agent.Signing.Wire
use lastpass_ssh_agent.Signing.Format.{AreBytes, Fits, u32_be, wire_string}
use lastpass_ssh_agent.Prelude.{
  ℕ, zero, suc, ◌/◌, ◌%◌, ◌^◌, ◌≤◌, ◌<◌, ◌≡◌, refl, sym, ap, ◌∙◌, inl, inr, Bool, true, Option,
  some, [], ◌∷◌, ◌++◌, append_assoc, append-nil, arith, leb, Bool-cases, ◌>>=◌, ◌>>◌, guard, length,
  take, drop, is_empty, length-append, take-append, drop-append, take-append-drop, length-take,
  Bytes, >>=-eq-some, guard-eq-some, some_pair,
}

split_at :
    (v rest : Bytes)
    → length v ≤ length (v ++ rest)
      × (take (length v) (v ++ rest) ≡ v)
      × (drop (length v) (v ++ rest) ≡ rest)
split_at v rest = (omega (arith, length-append v rest), take-append v rest, drop-append v rest)

pub string-wire_string :
    (v rest : Bytes) → Fits v → Wire.string (wire_string v ++ rest) ≡ some (v, rest)
unfolding Wire.string wire_string u32_be
string-wire_string v rest h = rw e (ground (arith, split_at v rest))
  where
    e :
        Wire.be32
          (length v / 2 ^ 24)
          (length v / 2 ^ 16 % 256)
          (length v / 2 ^ 8 % 256)
          (length v % 256)
        ≡ length v
    e = omega arith

pub string-wire_string_end : (v : Bytes) → Fits v → Wire.string (wire_string v) ≡ some (v, [])
string-wire_string_end v h =
    ap Wire.string (sym (append-nil (wire_string v))) ∙ string-wire_string v [] h

All-drop : (n : ℕ) (s : Bytes) → AreBytes s → AreBytes (drop n s)
All-drop zero s h = h
All-drop (suc n) [] h = tt
All-drop (suc n) (x ∷ s) h = All-drop n s h.1

-- A length of four bytes, and as many bytes behind it.
abbrev count : ℕ × ℕ × ℕ × ℕ → ℕ
count (a, b, c, d) = Wire.be32 a b c d

header :
    (a b c d : ℕ) (s : Bytes)
    → (a < 256) × (b < 256) × (c < 256) × (d < 256)
    → a ∷ b ∷ c ∷ d ∷ s ≡ u32_be (Wire.be32 a b c d) ++ s
unfolding u32_be
header a b c d s h = ground arith

assemble :
    (n : ℕ) (s v rest : Bytes)
    → n ≤ length s
    → take n s ≡ v
    → drop n s ≡ rest
    → u32_be n ++ s ≡ wire_string v ++ rest
unfolding wire_string
assemble n s v rest room p q =
    rw (← p, ← q, append_assoc, take-append-drop)
      (ap (λ k. u32_be k ++ s) (omega (arith, length-take n s)))

-- What was read is what was written, and the rest is bytes again.
pub string-inv :
    (s v rest : Bytes)
    → AreBytes s
    → Wire.string s ≡ some (v, rest)
    → (s ≡ wire_string v ++ rest) × AreBytes rest
unfolding Wire.string
string-inv [] v rest b h = cc
string-inv (a ∷ []) v rest b h = cc
string-inv (a ∷ c ∷ []) v rest b h = cc
string-inv (a ∷ c ∷ d ∷ []) v rest b h = cc
string-inv (a ∷ c ∷ d ∷ e ∷ s) v rest b h = elim (Bool-cases (leb n (length s))) [
  | inr no_room ↦ cc (rw no_room at h)
  | inl room ↦
      let (p, q) = some_pair (rw room at h) in
      (
        header a c d e s (b.0, b.1.0, b.1.1.0, b.1.1.1.0) ∙ assemble n s v rest (ground arith) p q,
        rw (← q) (All-drop n s b.1.1.1.1),
      )
]
  where
    n : ℕ
    n = Wire.be32 a c d e

byte-inv :
    (s : Bytes) (b : ℕ) (rest : Bytes)
    → AreBytes s
    → Wire.byte s ≡ some (b, rest)
    → (s ≡ b ∷ rest) × AreBytes rest
unfolding Wire.byte
byte-inv [] b rest a h = cc
byte-inv (x ∷ s) b rest a h = let (p, q) = some_pair h in (cc (p, q), rw (← q) a.1)

-- A read at the head of a chain that succeeded, for the proof of what follows from the chain.
module _ {B C : Type 0} (s : Bytes) {b : B} (a : AreBytes s) where
  pub string_step :
      (f : Bytes × Bytes → Option B)
      → (Wire.string s >>= f) ≡ some b
      → ((v rest : Bytes) → s ≡ wire_string v ++ rest → AreBytes rest → f (v, rest) ≡ some b → C)
      → C
  string_step f h continue =
      let ((v, rest), e, k) = >>=-eq-some (Wire.string s) f h in
      let (p, q) = string-inv s v rest a e in continue v rest p q k

  pub byte_step :
      (f : ℕ × Bytes → Option B)
      → (Wire.byte s >>= f) ≡ some b
      → ((v : ℕ) (rest : Bytes) → s ≡ v ∷ rest → AreBytes rest → f (v, rest) ≡ some b → C)
      → C
  byte_step f h continue =
      let ((v, rest), e, k) = >>=-eq-some (Wire.byte s) f h in
      let (p, q) = byte-inv s v rest a e in continue v rest p q k

pub guard_step :
    {B C : Type 0} {b : B} (t : Bool) (k : Option B)
    → (guard t >> k) ≡ some b
    → (t ≡ true → k ≡ some b → C)
    → C
guard_step t k h continue = let (p, q) = guard-eq-some t k h in continue p q

pub empty-inv : (s : Bytes) → is_empty s ≡ true → s ≡ []
empty-inv [] h = refl
empty-inv (x ∷ s) h = cc
