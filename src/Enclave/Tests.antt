-- ===== src/Enclave/Tests.antt =====
-- The theorems on src/enclave.rs at a short password and a small file.
use lastpass_ssh_agent.Prelude.{
  ◌≤◌, ◌≡◌, refl, ◌↔◌, some, [], ◌∷◌, ◌++◌, arith, length, Bytes, codes, ok,
}
use lastpass_ssh_agent.Enclave.{
  Stored, zeros, pad, unpad, overwrite, padded_len, load, encode, magic, meaning, reseed, refused,
  failed, pos, negsuc,
}
use lastpass_ssh_agent.Enclave.Padding.{pad-eq-ok}
use lastpass_ssh_agent.Enclave.Format.{load_iff}
use lastpass_ssh_agent.Passphrase.{max_passphrase_bytes}

abbrev block : Bytes
block = 0 ∷ 2 ∷ (codes "pw" ++ zeros 1022)

pad-eq-ok_example :
    (length (codes "pw") ≤ max_passphrase_bytes)
    × (length block ≡ padded_len)
    × (unpad block ≡ ok (codes "pw"))
unfolding pad zeros overwrite
pad-eq-ok_example = pad-eq-ok (codes "pw") block refl

abbrev stored : Stored
stored = record { blob = 1 ∷ 2 ∷ []; cipher = 255 ∷ [] }

abbrev store_file : Bytes
store_file = magic ++ (0 ∷ 0 ∷ 0 ∷ 2 ∷ 1 ∷ 2 ∷ 0 ∷ 0 ∷ 0 ∷ 1 ∷ 255 ∷ [])

load_iff_example :
    (load (ok (some (ok store_file))) ≡ ok (some stored)) ↔ (encode stored ≡ ok store_file)
load_iff_example = load_iff store_file stored (omega arith)

dismissed_is_refused : meaning (pos 6) (negsuc 1) ≡ refused
unfolding meaning
dismissed_is_refused = refl

lost_key_is_reseeded : meaning (pos 5) (pos 0) ≡ reseed
unfolding meaning
lost_key_is_reseeded = refl

other_agreement_fails : meaning (pos 6) (negsuc 0) ≡ failed (negsuc 0)
unfolding meaning
other_agreement_fails = refl
