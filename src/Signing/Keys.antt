-- ===== src/Signing/Keys.antt =====
-- src/signing.rs: which keys the agent signs with, the key behind a binding, and the signature.
use Prim.Native.Nat.{bit_and}
use lastpass_ssh_agent.Ssh.{
  SshLibrary, Algorithm, ed25519, rsa, ecdsa, nist_p256, nist_p384, Digest, sha256, sha512,
  RsaKeypair, KeypairData, rsa_key, ed25519_key, ecdsa_key, other_key,
}
use lastpass_ssh_agent.Signing.{SessionBindRequest}
use lastpass_ssh_agent.Signing.Wire
use lastpass_ssh_agent.Prelude.{
  ℕ, ◌-◌, Bool, true, false, not, ◌&&◌, Option, none, some, [], ◌∷◌, leb, ◌==◌, if◌then◌else◌,
  length, drop, is_empty, Bytes, Text, codes, bytes_eq, Result, ok, err, map_err, and_then,
}

pub data SignError : Type 0 where
  refused_sha1 : SignError
  unsupported_key_type : Text → SignError
  crypto : Text → SignError

unfoldable pub can_sign : Algorithm → Bool
can_sign ed25519 = true
can_sign rsa = true
can_sign (ecdsa nist_p256) = true
can_sign (ecdsa nist_p384) = true
can_sign _ = false

pub data BindError : Type 0 where
  host_key signature unverified : Text → BindError

-- `ends_with`.
unfoldable pub ends_with : Bytes → Bytes → Bool
ends_with suffix s =
    leb (length suffix) (length s) && bytes_eq (drop (length s - length suffix) s) suffix

-- Whether the algorithm id, the first string of the key, names a certificate.
unfoldable pub is_certificate : Bytes → Bool
unfolding ends_with
is_certificate key = elim (Wire.string key) [
  | none ↦ false
  | some (id, rest) ↦ ends_with (codes "-cert-v01@openssh.com") id
]

-- The bits of `ssh_agent_lib::proto::signature`.
abbrev pub rsa_sha2_256 : ℕ
rsa_sha2_256 = 2

abbrev pub rsa_sha2_512 : ℕ
rsa_sha2_512 = 4

module _ (ssh : SshLibrary) where
  open ssh use {
    KeyData, PrivateKey, Signature, Mpint, RsaPrivateKey, public_from_bytes, certificate_from_bytes,
    decode_signature, trailing_bytes, verify, new_signature, keypair, try_sign, to_biguint,
    from_components, sign_pkcs1v15,
  }

  -- `reader.finish(signature)`.
  unfoldable pub finish : Signature × Bytes → Result Text Signature
  finish (s, rest) = if is_empty rest then ok s else err (trailing_bytes rest)

  unfoldable pub bound_host_key : SessionBindRequest → Result BindError KeyData
  unfolding finish
  bound_host_key bind =
      let parsed =
        if is_certificate bind.host_key
        then certificate_from_bytes bind.host_key
        else public_from_bytes bind.host_key in
      and_then (map_err host_key parsed) λ key.
        and_then (map_err signature (decode_signature bind.signature)) λ decoded.
          and_then (map_err signature (finish decoded))
            λ sig. and_then (map_err unverified (verify key bind.session_id sig)) λ _. ok key

  convert : RsaKeypair Mpint → Result SignError RsaPrivateKey
  convert k = and_then (map_err crypto (to_biguint k.n)) λ n.
      and_then (map_err crypto (to_biguint k.e)) λ e.
        and_then (map_err crypto (to_biguint k.d)) λ d.
          and_then (map_err crypto (to_biguint k.p)) λ p.
            and_then (map_err crypto (to_biguint k.q))
              λ q. map_err crypto (from_components n e d (p ∷ q ∷ []))

  sign_rsa : Digest → RsaPrivateKey → Bytes → Result SignError Bytes
  sign_rsa digest key message = map_err crypto (sign_pkcs1v15 digest key message)

  -- The digest comes from the request's flags, and its name with it.
  choose : ℕ → Option (Text × Digest)
  choose flags =
      if not (bit_and flags rsa_sha2_512 == 0)
      then some (codes "rsa-sha2-512", sha512)
      else if not (bit_and flags rsa_sha2_256 == 0)
      then some (codes "rsa-sha2-256", sha256)
      else none

  label : RsaPrivateKey → Bytes → Option (Text × Digest) → Result SignError Signature
  unfolding sign_rsa
  label key message none = err refused_sha1
  label key message (some (name, digest)) =
      and_then (sign_rsa digest key message) λ s. map_err crypto (new_signature name s)

  unfoldable pub sign_with : PrivateKey → KeypairData Mpint → Bytes → ℕ → Result SignError Signature
  unfolding convert choose label
  sign_with key (rsa_key k) message flags =
      and_then (convert k) λ private. label private message (choose flags)
  sign_with key ed25519_key message flags = map_err crypto (try_sign key message)
  sign_with key ecdsa_key message flags = map_err crypto (try_sign key message)
  sign_with key (other_key name) message flags = err (unsupported_key_type name)

  unfoldable pub sign_with_key : PrivateKey → Bytes → ℕ → Result SignError Signature
  unfolding sign_with
  sign_with_key key message flags = sign_with key (keypair key) message flags
