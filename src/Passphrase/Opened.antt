-- ===== src/Passphrase/Opened.antt =====
-- src/passphrase.rs: what a key that was unlocked was unlocked with.
use lastpass_ssh_agent.Ssh.{SshLibrary}
use lastpass_ssh_agent.Config.{PassphraseFallback, prompt, error, keychain, secret_service}
use lastpass_ssh_agent.Keystore.{KeyEntry, fingerprint_of}
use lastpass_ssh_agent.Interaction.{Progress, lift, enter, >>=-eq-ok, lift-eq-ok, done_eq}
use lastpass_ssh_agent.Passphrase.{
  UnlockerCalls, decrypting, prompt_failed, max_passphrase_bytes, entered, request_for,
  fetching_passphrase, passphrase_field, decrypted, ask, saved_key, ask_and_save, or_ask,
  unlock_from_store, fall_back, unlock,
}
use lastpass_ssh_agent.Prelude.{
  ◌⊎◌, inl, inr, ◌≤◌, length, ltb, ltb→ge, Bool-cases, [], ◌∷◌, ◌≡◌, refl, ap, ◌∙◌, Bool, true,
  false, not, Option, none, some, arith, if◌then◌else◌, is_empty, Bytes, Text, Result, ok, err,
}

module _ (ssh : SshLibrary) {W : Type 0} (calls : UnlockerCalls W) where
  open ssh use {PrivateKey, decrypt}

  -- The passphrase was typed, at a prompt for this key.
  pub record Typed (entry : KeyEntry ssh) (secret : Bytes) : Type 0 where
    pub world : W
    pub answered :
        (calls.prompt_for
          (record {
            key_name = entry.name;
            fingerprint = fingerprint_of ssh entry;
            item_id = entry.item_id;
            master_password = false;
          })
          world).0
        ≡ ok secret
    pub nonempty : is_empty secret ≡ false

  -- The store had kept the passphrase for this key.
  pub record Saved (entry : KeyEntry ssh) (secret : Bytes) : Type 0 where
    pub world : W
    pub kept : (calls.get (fingerprint_of ssh entry) world).0 ≡ ok (some secret)
    pub short : length secret ≤ max_passphrase_bytes

  -- Where each fallback may take a passphrase from.
  abbrev pub Allowed : PassphraseFallback → KeyEntry ssh → Bytes → Type 0
  Allowed error entry secret = ⊥
  Allowed prompt entry secret = Typed entry secret
  Allowed keychain entry secret = Saved entry secret ⊎ Typed entry secret
  Allowed secret_service entry secret = Saved entry secret ⊎ Typed entry secret

  -- The vault's own passphrase if it has one, and else another one where the entry allows that.
  pub record IsOpened (entry : KeyEntry ssh) (encrypted key : PrivateKey) (world : W) : Type 0 where
    pub stored : Bytes
    pub secret : Bytes
    pub shown : (calls.show_field entry.item_id passphrase_field world).0 ≡ ok stored
    pub decrypts : decrypt encrypted secret ≡ ok key
    pub pinned : is_empty stored ≡ false → secret ≡ stored
    pub allowed : is_empty stored ≡ true → Allowed entry.passphrase_fallback entry secret

  -- The key was decrypted with a passphrase of which this holds.
  abbrev Decrypts : (Bytes → Type 0) → PrivateKey → PrivateKey → Type 0
  Decrypts From encrypted key = (p : Bytes) × (decrypt encrypted p ≡ ok key) × From p

  decrypted-eq-ok :
      (encrypted : PrivateKey) (p : Bytes) (s : Progress W) {key : PrivateKey} {t : Progress W}
      → decrypted ssh calls encrypted p s ≡ (ok key, t)
      → decrypt encrypted p ≡ ok key
  unfolding decrypted
  decrypted-eq-ok encrypted p s h = (lift-eq-ok decrypting (decrypt encrypted p) s h).0

  entered-eq-ok :
      (typed : Bytes) (s : Progress W) {secret : Bytes} {t : Progress W}
      → entered ssh calls typed s ≡ (ok secret, t)
      → (typed ≡ secret) × (is_empty secret ≡ false)
  unfolding entered
  entered-eq-ok [] s h = ground arith
  entered-eq-ok (b ∷ typed) s h = let same = done_eq h in (same, rw (← same))

  ask-eq-ok :
      (entry : KeyEntry ssh) (s : Progress W) {typed : Bytes} {t : Progress W}
      → ask ssh calls entry s ≡ (ok typed, t)
      → Typed entry typed
  unfolding ask request_for
  ask-eq-ok entry s h =
      let (_, u, _, h₁) = >>=-eq-ok (enter calls.locked) _ s h in
      let (answer, v, a, h₂) = >>=-eq-ok (lift prompt_failed _) (entered ssh calls) _ h₁ in
      let (same, nonempty) = entered-eq-ok answer v h₂ in
      record {
        world = u.world;
        answered = (lift-eq-ok prompt_failed _ _ a).0 ∙ ap (λ x. ok x) same;
        nonempty = nonempty;
      }

  ask_and_save-eq-ok :
      (entry : KeyEntry ssh) (encrypted : PrivateKey) (s : Progress W) {key : PrivateKey}
      {t : Progress W}
      → ask_and_save ssh calls entry encrypted s ≡ (ok key, t)
      → Decrypts (Typed entry) encrypted key
  unfolding ask_and_save
  ask_and_save-eq-ok entry encrypted s h =
      let (typed, u, a, h₁) = >>=-eq-ok (ask ssh calls entry) _ s h in
      let (key, v, d, h₂) = >>=-eq-ok (decrypted ssh calls encrypted typed) _ u h₁ in
      (
        typed,
        decrypted-eq-ok encrypted typed u d ∙ ap (λ x. ok x) (done_eq h₂),
        ask-eq-ok entry s a,
      )

  abbrev Kept : KeyEntry ssh → Bytes → Type 0
  Kept entry secret = Saved entry secret ⊎ Typed entry secret

  saved_key-eq-some :
      (entry : KeyEntry ssh) (encrypted : PrivateKey) (w : W) (r : Result Text (Option Bytes))
      {key : PrivateKey}
      → (calls.get (fingerprint_of ssh entry) w).0 ≡ r
      → saved_key ssh calls encrypted r ≡ some key
      → Decrypts (Kept entry) encrypted key
  unfolding saved_key
  saved_key-eq-some entry encrypted w (err e) g h = cc
  saved_key-eq-some entry encrypted w (ok none) g h = cc
  saved_key-eq-some entry encrypted w (ok (some saved)) g h =
      elim (Bool-cases (ltb max_passphrase_bytes (length saved))) [
        | inl long ↦ absurd (ground arith)
        | inr fits ↦
            (saved, ground arith, inl (record { world = w; kept = g; short = ltb→ge _ _ fits }))
      ]

  or_ask-eq-ok :
      (entry : KeyEntry ssh) (encrypted : PrivateKey) (o : Option PrivateKey) (s : Progress W)
      {key : PrivateKey} {t : Progress W}
      → ((k : PrivateKey) → o ≡ some k → Decrypts (Kept entry) encrypted k)
      → or_ask ssh calls entry encrypted o s ≡ (ok key, t)
      → Decrypts (Kept entry) encrypted key
  unfolding or_ask
  or_ask-eq-ok entry encrypted none s d h =
      let (p, e, typed) = ask_and_save-eq-ok entry encrypted s h in (p, e, inr typed)
  or_ask-eq-ok entry encrypted (some k) s d h = d _ (ground arith)

  unlock_from_store-eq-ok :
      (entry : KeyEntry ssh) (encrypted : PrivateKey) (s : Progress W) {key : PrivateKey}
      {t : Progress W}
      → unlock_from_store ssh calls entry encrypted s ≡ (ok key, t)
      → Decrypts (Kept entry) encrypted key
  unfolding unlock_from_store enter
  unlock_from_store-eq-ok entry encrypted s h =
      let (_, u, _, h₁) = >>=-eq-ok (enter calls.locked) _ s h in
      let (saved, w) = calls.get (fingerprint_of ssh entry) u.world in
      or_ask-eq-ok entry encrypted (saved_key ssh calls encrypted saved) (record u { world = w })
        (λ k. saved_key-eq-some entry encrypted u.world saved refl) h₁

  fall_back-eq-ok :
      (f : PassphraseFallback) (entry : KeyEntry ssh) (encrypted : PrivateKey) (s : Progress W)
      {key : PrivateKey} {t : Progress W}
      → fall_back ssh calls f entry encrypted s ≡ (ok key, t)
      → Decrypts (Allowed f entry) encrypted key
  unfolding fall_back
  fall_back-eq-ok error entry encrypted s h = ground arith
  fall_back-eq-ok prompt entry encrypted s h =
      let (typed, u, a, h₁) = >>=-eq-ok (ask ssh calls entry) _ s h in
      (typed, decrypted-eq-ok encrypted typed u h₁, ask-eq-ok entry s a)
  fall_back-eq-ok keychain entry encrypted s h = unlock_from_store-eq-ok entry encrypted s h
  fall_back-eq-ok secret_service entry encrypted s h = unlock_from_store-eq-ok entry encrypted s h

  -- Which way a passphrase came.
  one_way :
      (entry : KeyEntry ssh) (encrypted : PrivateKey) (stored : Bytes) (b : Bool) (s : Progress W)
      {key : PrivateKey} {t : Progress W}
      → (if not b
            then decrypted ssh calls encrypted stored
            else fall_back ssh calls entry.passphrase_fallback entry encrypted)
          s
        ≡ (ok key, t)
      → (secret : Bytes) × (decrypt encrypted secret ≡ ok key)
        × (b ≡ false → secret ≡ stored)
        × (b ≡ true → Allowed entry.passphrase_fallback entry secret)
  one_way entry encrypted stored false s h =
      (stored, decrypted-eq-ok encrypted stored s h, (λ _. refl), λ e. cc)
  one_way entry encrypted stored true s h =
      let (secret, d, allowed) = fall_back-eq-ok entry.passphrase_fallback entry encrypted s h in
      (secret, d, (λ e. cc), λ _. allowed)

  -- A key that is unlocked was decrypted with some passphrase: the vault's if its field is not
  -- empty, and otherwise one from where the entry's fallback allows it. With the prompt that is
  -- one that was typed at a prompt for this key, and not empty; with the keychain or the secret
  -- service one that the store returned for this key's fingerprint, of at most 1024 bytes, or one
  -- that was typed; with the fallback that refuses, none.
  pub unlock-IsOpened :
      (entry : KeyEntry ssh) (encrypted : PrivateKey) (s : Progress W) (key : PrivateKey)
      (t : Progress W)
      → unlock ssh calls entry encrypted s ≡ (ok key, t)
      → IsOpened entry encrypted key s.world
  unfolding unlock
  unlock-IsOpened entry encrypted s key t h =
      let (stored, u, e, h₁) =
        >>=-eq-ok
          (lift fetching_passphrase (calls.show_field entry.item_id passphrase_field s.world).0) _ _
          h in
      let (secret, d, pinned, allowed) = one_way entry encrypted stored (is_empty stored) u h₁ in
      record {
        stored = stored;
        secret = secret;
        shown = (lift-eq-ok fetching_passphrase _ _ e).0;
        decrypts = d;
        pinned = pinned;
        allowed = allowed;
      }
