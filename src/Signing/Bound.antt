-- ===== src/Signing/Bound.antt =====
-- `bound_host_key` of src/signing.rs: what a binding that is accepted has shown.
use lastpass_ssh_agent.Ssh.{SshLibrary}
use lastpass_ssh_agent.Signing.{SessionBindRequest}
use lastpass_ssh_agent.Signing.Keys.{
  host_key, signature, unverified, is_certificate, bound_host_key, finish,
}
use lastpass_ssh_agent.Prelude.{
  [], ◌∷◌, ◌↔◌, refl, ◌≡◌, ap, ◌∙◌, arith, if◌then◌else◌, Bytes, Text, Result, ok, err, map_err,
  and_then, and_then-eq-ok,
}
use mathlib.Core.Path.{subst}

module _ (ssh : SshLibrary) where
  open ssh use {
    KeyData, Signature, public_from_bytes, certificate_from_bytes, decode_signature, trailing_bytes,
    verify,
  }

  -- A host key by what its bytes say it is, a certificate standing for the key it is over.
  abbrev pub parse_key : Bytes → Result Text KeyData
  parse_key key = if is_certificate key then certificate_from_bytes key else public_from_bytes key

  -- The key that the bytes are has signed the session id.
  pub record IsSigned (host session : Bytes) (key : KeyData) : Type 0 where
    pub by : Signature
    pub parsed : parse_key host ≡ ok key
    pub signed : verify key session by ≡ ok tt

  ok-eq : {E A : Type 0} {a b : A} → ◌≡◌ {A = Result E A} (ok a) (ok b) → a ≡ b
  ok-eq h = ground arith

  map_err-eq-ok :
      {E F A : Type 0} (f : E → F) (r : Result E A) {a : A} → map_err f r ≡ ok a → r ≡ ok a
  map_err-eq-ok f (ok a) h = ground arith
  map_err-eq-ok f (err e) h = cc

  finish-eq-ok :
      (d : Signature × Bytes) {s : Signature} → finish ssh d ≡ ok s → (d.0 ≡ s) × (d.1 ≡ [])
  unfolding finish
  finish-eq-ok (s, []) h = (ground arith, refl)
  finish-eq-ok (s, b ∷ rest) h = cc

  -- The signature of a binding, whole, is by the key that its host key names, over its session id.
  pub record HasSigned (bind : SessionBindRequest) (key : KeyData) : Type 0 where
    pub by : Signature
    pub parsed : parse_key bind.host_key ≡ ok key
    pub whole : decode_signature bind.signature ≡ ok (by, [])
    pub signed : verify key bind.session_id by ≡ ok tt

  accepted :
      (bind : SessionBindRequest) (key : KeyData)
      → bound_host_key ssh bind ≡ ok key
      → HasSigned bind key
  unfolding bound_host_key
  accepted bind key h =
      let checked = λ (k : KeyData) (s : Signature).
        and_then (map_err unverified (verify k bind.session_id s)) λ _. ok k in
      let finished = λ (k : KeyData) (d : Signature × Bytes).
        and_then (map_err signature (finish ssh d)) (checked k) in
      let decoded = map_err signature (decode_signature bind.signature) in
      let (k, parsed, h₁) =
        and_then-eq-ok (map_err host_key (parse_key bind.host_key))
          (λ k. and_then decoded (finished k)) h in
      let (d, read, h₂) = and_then-eq-ok decoded (finished k) h₁ in
      let (s, ends, h₃) = and_then-eq-ok (map_err signature (finish ssh d)) (checked k) h₂ in
      let (_, v, same) =
        and_then-eq-ok (map_err unverified (verify k bind.session_id s)) (λ _. ok k) h₃ in
      let (first, rest) = finish-eq-ok d (map_err-eq-ok _ _ ends) in
      record {
        by = s;
        parsed = map_err-eq-ok _ _ parsed ∙ ap (λ x. ok x) (ok-eq same);
        whole =
            map_err-eq-ok _ _ read
            ∙ ap (λ (x : Signature). ok (x, d.1)) first
            ∙ ap (λ (r : Bytes). ok (s, r)) rest;
        signed = subst (λ x. verify x bind.session_id s ≡ ok tt) (ok-eq same) (map_err-eq-ok _ _ v);
      }

  -- A binding is accepted with a host key exactly if that key is what the bytes of its host key
  -- name, the plain key or the key that a certificate is over, its signature bytes are one
  -- signature with nothing behind it, and this signature is by that key over its session id.
  pub bound_host_key_iff :
      (bind : SessionBindRequest) (key : KeyData)
      → (bound_host_key ssh bind ≡ ok key) ↔ HasSigned bind key
  unfolding bound_host_key finish
  bound_host_key_iff bind key = (accepted bind key, λ h. rw (h.parsed, h.whole, h.signed))

  pub bound_host_key-IsSigned :
      (bind : SessionBindRequest) (key : KeyData)
      → bound_host_key ssh bind ≡ ok key
      → IsSigned bind.host_key bind.session_id key
  bound_host_key-IsSigned bind key h =
      let a = accepted bind key h in record { by = a.by; parsed = a.parsed; signed = a.signed }
