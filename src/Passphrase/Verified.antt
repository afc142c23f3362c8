-- ===== src/Passphrase/Verified.antt =====
-- src/passphrase.rs: the calls that `Unlocker` makes, and when.
use lastpass_ssh_agent.Ssh.{SshLibrary}
use lastpass_ssh_agent.Config.{PassphraseFallback, prompt, error, keychain, secret_service}
use lastpass_ssh_agent.Keystore.{KeyEntry, fingerprint_of}
use lastpass_ssh_agent.Interaction.{
  Progress, pure, fail, enter, Keeps, next-Keeps, >>=-Keeps, lift-Keeps, lift_kept, if-Keeps,
  enter-Keeps,
}
use lastpass_ssh_agent.Passphrase.{
  UnlockerCalls, UnlockError, no_passphrase_entered, PassphraseRequest, decrypting,
  fetching_passphrase, prompt_failed, passphrase_field, request_for, decrypted, entered, ask,
  ask_and_save, or_ask, unlock_from_store, fall_back, unlock,
}
use lastpass_ssh_agent.Prelude.{◌≡◌, true, not, Option, none, some, is_empty, Bytes, Text, ok}

module _ (ssh : SshLibrary) {W : Type 0} (calls : UnlockerCalls W) where
  open ssh use {PrivateKey, decrypt}

  -- What a property of the progress has to allow: a question to the vault at any time, and with the
  -- gate held a prompt, a read of the store, and a write of what decrypts the key.
  pub record Allows (I : Progress W → Type 0) (encrypted : PrivateKey) : Type 0 where
    pub shown :
        (item field : Text) (s : Progress W)
        → I s
        → I (record s { world = (calls.show_field item field s.world).1 })
    pub waited : (s : Progress W) → I s → I (record { held = true; world = calls.locked s.world })
    pub prompted :
        (r : PassphraseRequest) (s : Progress W)
        → s.held ≡ true
        → I s
        → I (record s { world = (calls.prompt_for r s.world).1 })
    pub got :
        (fingerprint : Text) (s : Progress W)
        → s.held ≡ true
        → I s
        → I (record s { world = (calls.get fingerprint s.world).1 })
    pub saved :
        (fingerprint : Text) (p : Bytes) (key : PrivateKey) (s : Progress W)
        → decrypt encrypted p ≡ ok key
        → s.held ≡ true
        → I s
        → I (record s { world = (calls.set fingerprint p s.world).1 })

  abbrev Held : (Progress W → Type 0) → Progress W → Type 0
  Held I s = I s × (s.held ≡ true)

  module _ (I : Progress W → Type 0) (entry : KeyEntry ssh) (encrypted : PrivateKey)
      (allows : Allows I encrypted) where
    decrypted-Keeps : (p : Bytes) → Keeps I (decrypted ssh calls encrypted p)
    unfolding decrypted
    decrypted-Keeps p s h = lift_kept I decrypting (decrypt encrypted p) s h

    entered-Keeps : (typed : Bytes) → Keeps (Held I) (entered ssh calls typed)
    unfolding entered
    entered-Keeps typed =
        if-Keeps (Held I) (is_empty typed) (fail no_passphrase_entered) (pure typed) (λ s h. h)
          (λ s h. h)

    -- Asking takes the gate.
    ask_holds : (s : Progress W) → I s → Held I (ask ssh calls entry s).1
    unfolding ask enter
    ask_holds s h =
        next-Keeps (Held I) _ (enter {E = UnlockError} calls.locked s)
          (λ _ s h.
            lift-Keeps (Held I) prompt_failed
              (calls.prompt_for (request_for ssh calls entry) s.world).0 (entered ssh calls)
              (λ typed e. entered-Keeps typed)
              (record s { world = (calls.prompt_for (request_for ssh calls entry) s.world).1 })
              (allows.prompted (request_for ssh calls entry) s h.1 h.0, h.1))
          (enter-Keeps UnlockError I calls.locked allows.waited s h)

    ask_and_save-Keeps : Keeps (Held I) (ask_and_save ssh calls entry encrypted)
    unfolding ask_and_save decrypted
    ask_and_save-Keeps =
        >>=-Keeps (Held I) (ask ssh calls entry) _ (λ s h. ask_holds s h.0)
          λ typed.
            lift-Keeps (Held I) decrypting (decrypt encrypted typed) _
              λ key e s h. (allows.saved _ typed key s e h.1 h.0, h.1)

    or_ask-Keeps : (o : Option PrivateKey) → Keeps (Held I) (or_ask ssh calls entry encrypted o)
    unfolding or_ask
    or_ask-Keeps none s h = ask_and_save-Keeps s h
    or_ask-Keeps (some key) s h = h

    unlock_from_store-Keeps : Keeps I (unlock_from_store ssh calls entry encrypted)
    unfolding unlock_from_store enter
    unlock_from_store-Keeps s h =
        (next-Keeps (Held I) _ (enter {E = UnlockError} calls.locked s)
          (λ _ s h. or_ask-Keeps _ _ (allows.got (fingerprint_of ssh entry) s h.1 h.0, h.1))
          (enter-Keeps UnlockError I calls.locked allows.waited s h)).0

    fall_back-Keeps : (f : PassphraseFallback) → Keeps I (fall_back ssh calls f entry encrypted)
    unfolding fall_back decrypted
    fall_back-Keeps error s h = h
    fall_back-Keeps prompt s h =
        (next-Keeps (Held I) _ (ask ssh calls entry s)
          (λ typed. lift_kept (Held I) decrypting (decrypt encrypted typed)) (ask_holds s h)).0
    fall_back-Keeps keychain s h = unlock_from_store-Keeps s h
    fall_back-Keeps secret_service s h = unlock_from_store-Keeps s h

    -- Unlocking a key preserves each property of the progress that allows a vault call and the
    -- wait for the gate at any time, and only while the gate is held a prompt, a read of the
    -- store, and a write to it of a passphrase that decrypts the key. So nothing else happens: no
    -- prompt outside the gate, and nothing saved that was not verified.
    pub unlock-Keeps : Keeps I (unlock ssh calls entry encrypted)
    unfolding unlock
    unlock-Keeps s h =
        lift-Keeps I fetching_passphrase _ _
          (λ stored e.
            if-Keeps I (not (is_empty stored)) (decrypted ssh calls encrypted stored)
              (fall_back ssh calls entry.passphrase_fallback entry encrypted)
              (decrypted-Keeps stored) (fall_back-Keeps entry.passphrase_fallback))
          _ (allows.shown entry.item_id passphrase_field s h)
