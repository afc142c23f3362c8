-- ===== src/Agent/Sign/Key.antt =====
-- The key that a request is signed with.
use lastpass_ssh_agent.Ssh.{SshLibrary}
use lastpass_ssh_agent.Signing.Keys.{sign_with_key}
use lastpass_ssh_agent.Lpass.{LpassError}
use lastpass_ssh_agent.Keystore.{KeyEntry}
use lastpass_ssh_agent.Passphrase.{unlock}
use lastpass_ssh_agent.Passphrase.Opened.{IsOpened, unlock-IsOpened}
use lastpass_ssh_agent.Interaction.{
  Progress, pure, fail, ◌>>◌, change, map_fail, lift, >>=-eq-ok, lift-eq-ok, done_eq,
  map_fail-eq-ok,
}
use lastpass_ssh_agent.Agent.Sign.{
  SignFailure, unlocking, parsing, signing, empty_private_key, changed, AgentCalls, Connection,
  fetched_pem, same_key, usable_key, sign_with,
}
use lastpass_ssh_agent.Prelude.{
  ℕ, ◌≡◌, refl, sym, ap, ◌∙◌, ◌⊎◌, inl, inr, Bool, true, false, not, arith, if◌then◌else◌, is_empty,
  Bytes, Result, ok, err,
}

module _ (ssh : SshLibrary) {W : Type 0} (calls : AgentCalls ssh W) (agent : Connection) where
  open ssh use {
    PrivateKey, Signature, key_data, key_eq, private_from_openssh, public_half, is_encrypted,
    decrypt,
  }

  -- The key the vault returned: the one that is advertised, decrypted if it was encrypted.
  pub record IsVaultKey (entry : KeyEntry ssh) (fetched : Result LpassError Bytes)
      (key : PrivateKey) : Type 0 where
    pub pem : Bytes
    pub held : PrivateKey
    pub shown : fetched ≡ ok pem
    pub parsed : private_from_openssh pem ≡ ok held
    pub advertised : key_eq (public_half held) (key_data entry.public) ≡ true
    pub opened :
        ((is_encrypted held ≡ false) × (key ≡ held))
        ⊎ ((is_encrypted held ≡ true) × (w : W) × IsOpened ssh calls.unlocker entry held key w)

  fetched_pem-eq-ok :
      (fetched : Result LpassError Bytes) (s : Progress W) {pem : Bytes} {t : Progress W}
      → fetched_pem ssh calls agent fetched s ≡ (ok pem, t)
      → fetched ≡ ok pem
  unfolding fetched_pem
  fetched_pem-eq-ok (ok pem) s h = ap (λ x. ok x) (done_eq h)
  fetched_pem-eq-ok (err e) s h = ground arith

  not_refused :
      (b : Bool) (g : W → W) (why : SignFailure) (s : Progress W) {u : Unit {0}} {t : Progress W}
      → (if not b then change g >> fail why else pure tt) s ≡ (ok u, t)
      → b ≡ true
  not_refused true g why s h = refl
  not_refused false g why s h = ground arith

  same_key-eq-ok :
      (entry : KeyEntry ssh) (key : PrivateKey) (s : Progress W) {u : Unit {0}} {t : Progress W}
      → same_key ssh calls agent entry key s ≡ (ok u, t)
      → key_eq (public_half key) (key_data entry.public) ≡ true
  unfolding same_key
  same_key-eq-ok entry key s h =
      not_refused (key_eq (public_half key) (key_data entry.public)) _ changed s h

  abbrev Opens : KeyEntry ssh → PrivateKey → PrivateKey → Bool → Type 0
  Opens entry held key encrypted =
      ((encrypted ≡ false) × (key ≡ held))
      ⊎ ((encrypted ≡ true) × (w : W) × IsOpened ssh calls.unlocker entry held key w)

  one_way :
      (entry : KeyEntry ssh) (held : PrivateKey) (encrypted : Bool) (s : Progress W)
      {key : PrivateKey} {t : Progress W}
      → (if encrypted then map_fail unlocking (unlock ssh calls.unlocker entry held) else pure held)
          s
        ≡ (ok key, t)
      → Opens entry held key encrypted
  one_way entry held true s h = inr (
    refl,
    s.world,
    unlock-IsOpened ssh calls.unlocker entry held s _ _
        (map_fail-eq-ok unlocking (unlock ssh calls.unlocker entry held s) h),
  )
  one_way entry held false s h = inl (refl, sym (done_eq h))

  usable_key-eq-ok :
      (entry : KeyEntry ssh) (held : PrivateKey) (s : Progress W) {key : PrivateKey}
      {t : Progress W}
      → usable_key ssh calls agent entry held s ≡ (ok key, t)
      → Opens entry held key (is_encrypted held)
  unfolding usable_key
  usable_key-eq-ok entry held s h = one_way entry held (is_encrypted held) s h

  filled_eq :
      {pem filled : Bytes} (b : Bool) (why : SignFailure)
      → (if b then err why else ok pem) ≡ ok filled
      → pem ≡ filled
  filled_eq b why h = ground arith

  pub sign_with-eq-ok :
      (entry : KeyEntry ssh) (fetched : Result LpassError Bytes) (request : Bytes) (flags : ℕ)
      (s : Progress W) {signature : Signature} {t : Progress W}
      → sign_with ssh calls agent entry fetched request flags s ≡ (ok signature, t)
      → (key : PrivateKey) × IsVaultKey entry fetched key
        × (sign_with_key ssh key request flags ≡ ok signature)
  unfolding sign_with
  sign_with-eq-ok entry fetched request flags s h =
      let (pem, s₁, e₁, h₁) = >>=-eq-ok (fetched_pem ssh calls agent fetched) _ s h in
      let (filled, s₂, e₂, h₂) =
        >>=-eq-ok (lift (λ e. e) (if is_empty pem then err empty_private_key else ok pem)) _ s₁
          h₁ in
      let (held, s₃, e₃, h₃) = >>=-eq-ok (lift parsing (private_from_openssh filled)) _ s₂ h₂ in
      let (_, s₄, e₄, h₄) = >>=-eq-ok (same_key ssh calls agent entry held) _ s₃ h₃ in
      let (key, s₅, e₅, h₅) = >>=-eq-ok (usable_key ssh calls agent entry held) _ s₄ h₄ in
      (
        key,
        record {
          pem = filled;
          held = held;
          shown =
              fetched_pem-eq-ok fetched s e₁
              ∙ ap (λ x. ok x) (filled_eq _ _ (lift-eq-ok (λ e. e) _ s₁ e₂).0);
          parsed = (lift-eq-ok parsing _ s₂ e₃).0;
          advertised = same_key-eq-ok entry held s₃ e₄;
          opened = usable_key-eq-ok entry held s₄ e₅;
        },
        (lift-eq-ok signing _ s₅ h₅).0,
      )
