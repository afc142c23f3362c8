-- ===== src/Signing/Wire.antt =====
-- src/signing.rs, `Wire`: a cursor over SSH wire encoding. The cursor is the bytes not yet read; a
-- read returns its value and what is left.
use lastpass_ssh_agent.Prelude.{
  ℕ, ◌+◌, ◌*◌, Option, none, some, [], ◌∷◌, leb, if◌then◌else◌, length, take, drop, Bytes,
}

unfoldable pub byte : Bytes → Option (ℕ × Bytes)
byte [] = none
byte (b ∷ rest) = some (b, rest)

-- `u32::from_be_bytes`.
abbrev pub be32 : ℕ → ℕ → ℕ → ℕ → ℕ
be32 a b c d = ((a * 256 + b) * 256 + c) * 256 + d

-- `4 + len` does not overflow a `usize` of 64 bits.
unfoldable pub string : Bytes → Option (Bytes × Bytes)
string (a ∷ b ∷ c ∷ d ∷ rest) =
    let len = be32 a b c d in
    if leb len (length rest) then some (take len rest, drop len rest) else none
string _ = none
