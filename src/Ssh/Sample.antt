-- ===== src/Ssh/Sample.antt =====
-- A library that is small enough to run: a key is its bytes, a signature the key's bytes before the
-- signed ones, and a private key that starts with 1 is encrypted under `pw`.
use lastpass_ssh_agent.Ssh.{SshLibrary, ed25519, ed25519_key}
use lastpass_ssh_agent.Prelude.{
  Bool, false, some, [], ◌∷◌, ◌++◌, ◌==◌, if◌then◌else◌, Bytes, codes, bytes_eq, bytes_eq_iff, ok,
  err,
}

abbrev pub starts_encrypted : Bytes → Bool
starts_encrypted [] = false
starts_encrypted (b ∷ key) = b == 1

abbrev pub without_mark : Bytes → Bytes
without_mark [] = []
without_mark (b ∷ key) = key

abbrev pub sample : SshLibrary
sample = record {
  PublicKey = Bytes;
  KeyData = Bytes;
  PrivateKey = Bytes;
  Signature = Bytes;
  Mpint = Bytes;
  BigUint = Bytes;
  RsaPrivateKey = Bytes;
  from_openssh = λ t. ok t;
  to_openssh = λ k. k;
  to_bytes = λ k. some k;
  key_data = λ k. k;
  algorithm = λ k. ed25519;
  fingerprint = λ k. k;
  key_eq = bytes_eq;
  key_eq_iff = bytes_eq_iff;
  public_from_bytes = λ b. ok b;
  certificate_from_bytes = λ b. ok b;
  decode_signature = λ b. ok (b, []);
  trailing_bytes = λ b. b;
  verify = λ k m s. if bytes_eq s (k ++ m) then ok tt else err (codes "unverified");
  new_signature = λ name s. ok s;
  private_from_openssh = λ b. ok b;
  public_half = without_mark;
  is_encrypted = starts_encrypted;
  decrypt = λ k p. if bytes_eq p (codes "pw") then ok (0 ∷ without_mark k) else err (codes "wrong");
  keypair = λ k. ed25519_key;
  try_sign = λ k m. ok (without_mark k ++ m);
  to_biguint = λ m. ok m;
  from_components = λ n e d ps. ok n;
  sign_pkcs1v15 = λ h k m. ok m;
}
