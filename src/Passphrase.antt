-- ===== src/Passphrase.antt =====
-- `Unlocker` of src/passphrase.rs: the key the vault handed over, decrypted. The vault's client, the
-- prompt and the store are given by what their calls return.
mod Tests
pub mod Verified
pub mod Opened
use lastpass_ssh_agent.Ssh.{SshLibrary}
use lastpass_ssh_agent.Lpass.{LpassError}
use lastpass_ssh_agent.Config.{PassphraseFallback, prompt, error, keychain, secret_service}
use lastpass_ssh_agent.Keystore.{KeyEntry, fingerprint_of}
use lastpass_ssh_agent.Interaction.{
  Progress, Task, pure, fail, next, ◌>>=◌, ◌>>◌, call, reads, lift, enter,
}
use lastpass_ssh_agent.Prelude.{
  ℕ, Bool, false, not, Option, none, some, ltb, if◌then◌else◌, length, is_empty, Bytes, Text, codes,
  Result, ok, err,
}

abbrev pub max_passphrase_bytes : ℕ
max_passphrase_bytes = 1024

pub record PassphraseRequest : Type 0 where
  pub key_name : Text
  pub fingerprint : Text
  pub item_id : Text
  pub master_password : Bool

-- What stands in the error's text.
pub data UnlockError : Type 0 where
  fetching_passphrase : LpassError → UnlockError
  empty_passphrase_field : UnlockError
  prompt_failed : Text → UnlockError
  no_passphrase_entered : UnlockError
  decrypting : Text → UnlockError

-- `LpassClient::show_field`, `PassphrasePrompt::prompt`, `PassphraseStore::get` and `set`, and the
-- wait for the gate.
pub record UnlockerCalls (W : Type 0) : Type 0 where
  pub show_field : (item field : Text) → W → Result LpassError Bytes × W
  pub prompt_for : PassphraseRequest → W → Result Text Bytes × W
  pub get : (fingerprint : Text) → W → Result Text (Option Bytes) × W
  pub set : (fingerprint : Text) → Bytes → W → Result Text (Unit {0}) × W
  pub locked : W → W

abbrev pub passphrase_field : Text
passphrase_field = codes "Passphrase"

module _ (ssh : SshLibrary) {W : Type 0} (calls : UnlockerCalls W) where
  open ssh use {PrivateKey, decrypt}

  pub request_for : KeyEntry ssh → PassphraseRequest
  request_for entry = record {
    key_name = entry.name;
    fingerprint = fingerprint_of ssh entry;
    item_id = entry.item_id;
    master_password = false;
  }

  pub decrypted : PrivateKey → Bytes → Task W UnlockError PrivateKey
  decrypted encrypted secret = lift decrypting (decrypt encrypted secret)

  -- An encrypted key has no empty passphrase.
  pub entered : Bytes → Task W UnlockError Bytes
  entered typed = if is_empty typed then fail no_passphrase_entered else pure typed

  pub ask : KeyEntry ssh → Task W UnlockError Bytes
  unfolding request_for enter entered
  ask entry = do
    enter calls.locked
    answer ← call (calls.prompt_for (request_for entry))
    typed ← lift prompt_failed answer
    entered typed

  -- The saved passphrase, when there is one that is no longer than a passphrase can be.
  pub saved_key : PrivateKey → Result Text (Option Bytes) → Option PrivateKey
  saved_key encrypted (err e) = none
  saved_key encrypted (ok none) = none
  saved_key encrypted (ok (some saved)) =
      if ltb max_passphrase_bytes (length saved)
      then none
      else elim (decrypt encrypted saved) [ ok key ↦ some key | err e ↦ none ]

  pub ask_and_save : KeyEntry ssh → PrivateKey → Task W UnlockError PrivateKey
  unfolding ask decrypted
  ask_and_save entry encrypted = do
    typed ← ask entry
    key ← decrypted encrypted typed
    stored ← call (calls.set (fingerprint_of ssh entry) typed)
    pure key

  pub or_ask : KeyEntry ssh → PrivateKey → Option PrivateKey → Task W UnlockError PrivateKey
  unfolding ask_and_save
  or_ask entry encrypted (some key) = pure key
  or_ask entry encrypted none = ask_and_save entry encrypted

  pub unlock_from_store : KeyEntry ssh → PrivateKey → Task W UnlockError PrivateKey
  unfolding enter saved_key or_ask
  unlock_from_store entry encrypted = do
    enter calls.locked
    saved ← call (calls.get (fingerprint_of ssh entry))
    or_ask entry encrypted (saved_key encrypted saved)

  pub fall_back : PassphraseFallback → KeyEntry ssh → PrivateKey → Task W UnlockError PrivateKey
  unfolding unlock_from_store ask decrypted
  fall_back error entry encrypted = fail empty_passphrase_field
  fall_back prompt entry encrypted = do typed ← ask entry; decrypted encrypted typed
  fall_back keychain entry encrypted = unlock_from_store entry encrypted
  fall_back secret_service entry encrypted = unlock_from_store entry encrypted

  pub unlock : KeyEntry ssh → PrivateKey → Task W UnlockError PrivateKey
  unfolding fall_back decrypted
  unlock entry encrypted = do
    shown ← call (calls.show_field entry.item_id passphrase_field)
    stored ← lift fetching_passphrase shown
    (if not (is_empty stored)
        then decrypted encrypted stored
        else fall_back entry.passphrase_fallback entry encrypted)
