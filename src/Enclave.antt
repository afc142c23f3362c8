-- ===== src/Enclave.antt =====
-- src/enclave.rs: what the answers of the Secure Enclave mean, the block that a master password is
-- padded to, and the file that the wrapped key and the ciphertext are kept in. The Enclave and the
-- file system are outside: what they return is a value.
pub mod Padding
pub mod Format
mod Tests
use lastpass_ssh_agent.Prelude.{
  zero, suc, ℕ, ◌+◌, ◌*◌, ◌/◌, ◌%◌, ◌^◌, Bool, false, not, ◌&&◌, ◌||◌, Option, none, some, List, [],
  ◌∷◌, ◌++◌, ltb, leb, ◌==◌, if◌then◌else◌, length, take, drop, any, is_empty, Bytes, Text, codes,
  Result, ok, err, and_then,
}
use lastpass_ssh_agent.Passphrase.{max_passphrase_bytes}
use lastpass_ssh_agent.Signing.Wire.{be32}
use lastpass_ssh_agent.Text.Search.{strip_prefix}

-- `i32`; `negsuc n` is -(n + 1).
pub data ℤ : Type 0 where
  pos : ℕ → ℤ
  negsuc : ℕ → ℤ

pub data Outcome : Type 0 where
  done unavailable refused reseed : Outcome
  failed : ℤ → Outcome

unfoldable pub int_eq : ℤ → ℤ → Bool
int_eq (pos m) (pos n) = m == n
int_eq (negsuc m) (negsuc n) = m == n
int_eq _ _ = false

-- -2, -3, -4, -9, -7, -8 and -1004.
abbrev not_authenticated : List ℤ
not_authenticated =
    negsuc 1 ∷ negsuc 2 ∷ negsuc 3 ∷ negsuc 8 ∷ negsuc 6 ∷ negsuc 7 ∷ negsuc 1003 ∷ []

is_not_authenticated : ℤ → Bool
unfolding int_eq
is_not_authenticated os_error = any (int_eq os_error) not_authenticated

abbrev stage_ok : ℤ
stage_ok = pos 0

abbrev stage_unavailable : ℤ
stage_unavailable = pos 2

abbrev stage_restore : ℤ
stage_restore = pos 5

abbrev stage_agreement : ℤ
stage_agreement = pos 6

abbrev stage_malformed : ℤ
stage_malformed = pos 8

abbrev stage_decrypt : ℤ
stage_decrypt = pos 9

unfoldable pub meaning : (stage os_error : ℤ) → Outcome
unfolding int_eq is_not_authenticated
meaning stage os_error =
    if int_eq stage stage_ok
    then done
    else if int_eq stage stage_unavailable
    then unavailable
    else if int_eq stage stage_restore || int_eq stage stage_malformed || int_eq stage stage_decrypt
    then reseed
    else if int_eq stage stage_agreement && is_not_authenticated os_error
    then refused
    else failed os_error

-- `Error::State` with what it says, and an I/O error.
pub data StoreError : Type 0 where
  too_long : StoreError
  malformed : (why : Text) → StoreError
  io : Text → StoreError

abbrev pub padded_len : ℕ
padded_len = 2 + max_passphrase_bytes

-- `block[offset..offset + part.len()].copy_from_slice(part)`.
pub overwrite : (offset : ℕ) (part block : Bytes) → Bytes
overwrite offset part block = take offset block ++ (part ++ drop (offset + length part) block)

-- `vec![0u8; n]`.
unfoldable pub zeros : ℕ → Bytes
zeros zero = []
zeros (suc n) = 0 ∷ zeros n

unfoldable pub pad : Bytes → Result StoreError Bytes
pad secret =
    if ltb max_passphrase_bytes (length secret)
    then err too_long
    else let header = (length secret / 256) ∷ (length secret % 256) ∷ [] in
      ok (overwrite 2 secret (overwrite 0 header (zeros padded_len)))

-- `u16::from_be_bytes` of the first two bytes.
pub be16 : Bytes → ℕ
be16 (a ∷ b ∷ rest) = a * 256 + b
be16 _ = 0

-- `copy_within(2..2 + len, 0)` and `truncate(len)`.
pub moved : (len : ℕ) → Bytes → Bytes
unfolding overwrite
moved len padded = take len (overwrite 0 (take len (drop 2 padded)) padded)

unfoldable pub unpad : Bytes → Result StoreError Bytes
unpad padded =
    if not (length padded == padded_len)
    then err (malformed (codes "not a block this wrote"))
    else if ltb max_passphrase_bytes (be16 padded)
    then err (malformed (codes "a length larger than anything this stores"))
    else ok (moved (be16 padded) padded)

-- `map_or_else(|_| past_saving(), Some)`.
saved_or_lost : Result StoreError Bytes → Option Bytes
saved_or_lost (ok secret) = some secret
saved_or_lost (err e) = none

-- An outcome is reported as what it says; `describe` turns it into text.
unfoldable pub unwrapped : Result Outcome Bytes → Result Outcome (Option Bytes)
unfolding unpad saved_or_lost
unwrapped (ok padded) = ok (saved_or_lost (unpad padded))
unwrapped (err reseed) = ok none
unwrapped (err other) = err other

abbrev pub max_blob : ℕ
max_blob = 4096

abbrev pub max_cipher : ℕ
max_cipher = 4096

abbrev pub magic : Bytes
magic = codes "lastpass-ssh-agent secure enclave v2\n"

pub record Stored : Type 0 where
  pub blob : Bytes
  pub cipher : Bytes

-- `to_be_bytes` of a `u32`.
pub to_be_bytes : ℕ → Bytes
to_be_bytes n = (n / 2 ^ 24) ∷ (n / 2 ^ 16 % 256) ∷ (n / 2 ^ 8 % 256) ∷ (n % 256) ∷ []

-- One round of the loop.
pub put_part : (part : Bytes) (max : ℕ) → Bytes → Result StoreError Bytes
unfolding to_be_bytes
put_part part max out =
    if ltb max (length part)
    then err (malformed (codes "a value larger than this format holds"))
    else ok (out ++ (to_be_bytes (length part) ++ part))

unfoldable pub encode : Stored → Result StoreError Bytes
unfolding put_part
encode stored =
    and_then (put_part stored.blob max_blob magic) λ out. put_part stored.cipher max_cipher out

-- `take`: a part, and what stands behind it.
pub take_part : Bytes → (max : ℕ) → Result StoreError (Bytes × Bytes)
take_part (a ∷ b ∷ c ∷ d ∷ rest) max =
    let len = be32 a b c d in
    if ltb max len
    then err (malformed (codes "a length larger than anything this writes"))
    else if leb len (length rest)
    then ok (take len rest, drop len rest)
    else err (malformed (codes "truncated value"))
take_part _ max = err (malformed (codes "truncated length"))

-- `ok_or_else`.
or_malformed : Text → Option Bytes → Result StoreError Bytes
or_malformed why none = err (malformed why)
or_malformed why (some rest) = ok rest

ended_with : Stored → Bytes → Result StoreError Stored
ended_with stored rest =
    if not (is_empty rest) then err (malformed (codes "trailing bytes")) else ok stored

unfoldable pub decode : Bytes → Result StoreError Stored
unfolding take_part or_malformed ended_with
decode bytes =
    and_then
      (or_malformed (codes "not this agent's Secure Enclave file") (strip_prefix magic bytes))
      λ rest. and_then (take_part rest max_blob) λ (blob, rest').
        and_then (take_part rest' max_cipher)
          λ (cipher, rest''). ended_with (record { blob = blob; cipher = cipher }) rest''

abbrev pub limit : ℕ
limit = length magic + 8 + max_blob + max_cipher + 1

-- Bytes that do not decode are no store; a read that fails is an error.
kept_or_none : Result StoreError Stored → Result StoreError (Option Stored)
kept_or_none (ok stored) = ok (some stored)
kept_or_none (err e) = ok none

read_in : Result Text Bytes → Result StoreError (Option Stored)
unfolding kept_or_none
read_in (err why) = err (io why)
read_in (ok bytes) = kept_or_none (decode (take limit bytes))

-- `load`, of what opening the file and reading it to its end comes to.
unfoldable pub load :
    Result StoreError (Option (Result Text Bytes)) → Result StoreError (Option Stored)
unfolding read_in
load (err e) = err e
load (ok none) = ok none
load (ok (some contents)) = read_in contents
