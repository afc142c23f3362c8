-- ===== src/Ssh.antt =====
-- The ssh-key and rsa crates, which are not part of this repository, as src/signing.rs,
-- src/keystore.rs, src/agent.rs and src/passphrase.rs call them. Every operation is a parameter. An
-- error is the text that the crate prints for it.
pub mod Sample
use lastpass_ssh_agent.Prelude.{◌≡◌, ◌↔◌, Bool, true, Option, List, Bytes, Text, Result}

-- `ssh_key::EcdsaCurve` and `ssh_key::Algorithm`; the last stands for every other algorithm.
pub data EcdsaCurve : Type 0 where
  nist_p256 nist_p384 nist_p521 : EcdsaCurve

pub data Algorithm : Type 0 where
  ed25519 : Algorithm
  rsa : Algorithm
  ecdsa : EcdsaCurve → Algorithm
  other : Text → Algorithm

-- The digests an RSA signature is made over.
pub data Digest : Type 0 where
  sha256 sha512 : Digest

-- `rsa_keypair.public.n`, `public.e`, `private.d`, `private.p`, `private.q`.
pub record RsaKeypair (Mpint : Type 0) : Type 0 where
  pub n : Mpint
  pub e : Mpint
  pub d : Mpint
  pub p : Mpint
  pub q : Mpint

-- `ssh_key::private::KeypairData`; the last stands for every type the source does not name.
pub data KeypairData (Mpint : Type 0) : Type 0 where
  rsa_key : RsaKeypair Mpint → KeypairData Mpint
  ed25519_key : KeypairData Mpint
  ecdsa_key : KeypairData Mpint
  other_key : Text → KeypairData Mpint

pub record SshLibrary : Type 1 where
  pub PublicKey : Type 0
  pub KeyData : Type 0
  pub PrivateKey : Type 0
  pub Signature : Type 0
  pub Mpint : Type 0
  pub BigUint : Type 0
  pub RsaPrivateKey : Type 0
  -- Public keys.
  pub from_openssh : Text → Result Text PublicKey
  pub to_openssh : PublicKey → Text
  pub to_bytes : PublicKey → Option Bytes
  pub key_data : PublicKey → KeyData
  pub algorithm : PublicKey → Algorithm
  pub fingerprint : KeyData → Text
  pub key_eq : KeyData → KeyData → Bool
  pub key_eq_iff : (a b : KeyData) → (key_eq a b ≡ true) ↔ (a ≡ b)
  -- A key, and a certificate's key, from the wire.
  pub public_from_bytes : Bytes → Result Text KeyData
  pub certificate_from_bytes : Bytes → Result Text KeyData
  -- Signatures: `Signature::decode` returns the bytes behind the signature too.
  pub decode_signature : Bytes → Result Text (Signature × Bytes)
  pub trailing_bytes : Bytes → Text
  pub verify : KeyData → Bytes → Signature → Result Text (Unit {0})
  pub new_signature : Text → Bytes → Result Text Signature
  -- Private keys.
  pub private_from_openssh : Bytes → Result Text PrivateKey
  pub public_half : PrivateKey → KeyData
  pub is_encrypted : PrivateKey → Bool
  pub decrypt : PrivateKey → Bytes → Result Text PrivateKey
  pub keypair : PrivateKey → KeypairData Mpint
  pub try_sign : PrivateKey → Bytes → Result Text Signature
  -- RSA.
  pub to_biguint : Mpint → Result Text BigUint
  pub from_components : (n e d : BigUint) → List BigUint → Result Text RsaPrivateKey
  pub sign_pkcs1v15 : Digest → RsaPrivateKey → Bytes → Result Text Bytes
