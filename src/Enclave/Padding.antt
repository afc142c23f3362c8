-- ===== src/Enclave/Padding.antt =====
-- The block of src/enclave.rs that a master password is padded to.
use lastpass_ssh_agent.Prelude.{
  ℕ, zero, suc, ◌+◌, ◌-◌, ◌/◌, ◌%◌, ◌≤◌, ◌<◌, ◌≡◌, refl, ap, ◌∙◌, inl, inr, true, false, [], ◌∷◌,
  ◌++◌, arith, ltb, ◌==◌, ltb→lt, lt→ltb, ==_iff, Bool-cases, length, drop, length-append,
  take-append, Bytes, ok, err,
}
use lastpass_ssh_agent.Enclave.{zeros, too_long, overwrite, pad, unpad, padded_len, be16, moved}
use lastpass_ssh_agent.Passphrase.{max_passphrase_bytes}

drop-zeros : (k n : ℕ) → drop k (zeros n) ≡ zeros (n - k)
unfolding zeros
drop-zeros zero n = let e : n ≡ n - 0 = omega arith in ap zeros e
drop-zeros (suc k) zero = let e : 0 ≡ 0 - suc k = omega arith in ap zeros e
drop-zeros (suc k) (suc n) =
    let e : n - k ≡ suc n - suc k = omega arith in drop-zeros k n ∙ ap zeros e

length-zeros : (n : ℕ) → length (zeros n) ≡ n
unfolding zeros
length-zeros zero = refl
length-zeros (suc n) = ap suc (length-zeros n)

-- A length in two bytes, the secret and as many zeros as are left.
abbrev block_of : (hi lo : ℕ) → Bytes → ℕ → Bytes
block_of hi lo secret n = hi ∷ lo ∷ (secret ++ zeros (n - length secret))

pad_block :
    (hi lo n m : ℕ) (secret : Bytes)
    → m ≡ 2 + n
    → overwrite 2 secret (overwrite 0 (hi ∷ lo ∷ []) (zeros m)) ≡ block_of hi lo secret n
unfolding overwrite zeros
pad_block hi lo n m secret h =
    let e : 2 + length secret ≡ suc (suc (length secret)) = omega arith in
    let f : m ≡ suc (suc n) = omega arith in rw (f, e, drop-zeros (length secret) n)

length-block_of :
    (hi lo n : ℕ) (secret : Bytes) → length secret ≤ n → length (block_of hi lo secret n) ≡ 2 + n
length-block_of hi lo n secret h =
    omega
      (arith, length-append secret (zeros (n - length secret)), length-zeros (n - length secret))

be16-block_of :
    (n : ℕ) (secret : Bytes)
    → be16 (block_of (length secret / 256) (length secret % 256) secret n) ≡ length secret
unfolding be16
be16-block_of n secret = omega arith

moved-block_of :
    (hi lo n : ℕ) (secret : Bytes) → moved (length secret) (block_of hi lo secret n) ≡ secret
unfolding moved overwrite
moved-block_of hi lo n secret =
    rw (take-append secret (zeros (n - length secret))) (take-append secret _)

pad-block_of :
    (secret : Bytes)
    → length secret ≤ max_passphrase_bytes
    → pad secret
      ≡ ok (block_of (length secret / 256) (length secret % 256) secret max_passphrase_bytes)
unfolding pad
pad-block_of secret h =
    let fits : ltb max_passphrase_bytes (length secret) ≡ false = ground arith in
    let e =
      pad_block (length secret / 256) (length secret % 256) max_passphrase_bytes padded_len secret
        refl in
    rw (fits, e)

pad_too_long : (secret : Bytes) → max_passphrase_bytes < length secret → pad secret ≡ err too_long
unfolding pad
pad_too_long secret h = rw (lt→ltb max_passphrase_bytes (length secret) h)

unpad-block_of :
    (hi lo : ℕ) (secret : Bytes)
    → length secret ≤ max_passphrase_bytes
    → be16 (block_of hi lo secret max_passphrase_bytes) ≡ length secret
    → unpad (block_of hi lo secret max_passphrase_bytes) ≡ ok secret
unfolding unpad
unpad-block_of hi lo secret h e =
    let size : (length (block_of hi lo secret max_passphrase_bytes) == padded_len) ≡ true =
      (==_iff _ _).1 (length-block_of hi lo max_passphrase_bytes secret h) in
    let fits : ltb max_passphrase_bytes (length secret) ≡ false = ground arith in
    rw (size, e, fits, moved-block_of hi lo max_passphrase_bytes secret)

-- A master password that is padded has at most the length that may be stored, its block has the
-- one length of all blocks, and the block unpads to it.
pub pad-eq-ok :
    (secret block : Bytes)
    → pad secret ≡ ok block
    → (length secret ≤ max_passphrase_bytes)
      × (length block ≡ padded_len)
      × (unpad block ≡ ok secret)
pad-eq-ok secret block h = elim (Bool-cases (ltb max_passphrase_bytes (length secret))) [
  | inl over ↦ absurd (cc (pad_too_long secret (ltb→lt max_passphrase_bytes (length secret) over)))
  | inr fits ↦
      let few : length secret ≤ max_passphrase_bytes = ground arith in
      let hi = length secret / 256 in
      let lo = length secret % 256 in
      let e : block_of hi lo secret max_passphrase_bytes ≡ block =
        ground (arith, pad-block_of secret few) in
      rw (← e) (
        few,
        length-block_of hi lo max_passphrase_bytes secret few,
        unpad-block_of hi lo secret few (be16-block_of max_passphrase_bytes secret),
      )
]
