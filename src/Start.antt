-- ===== src/Start.antt =====
-- The start of src/commands/start.rs, as far as it decides what is served: the identities of an
-- earlier start, or a scan of the vault, and what is written down then (`remember_if_complete` of
-- src/commands/mod.rs). What comes in between, the choice of a confirmer and the binding of the
-- socket, is taken to succeed.
pub mod Restarted
use lastpass_ssh_agent.Prelude.{
  ℕ, zero, suc, ◌+◌, ◌-◌, ◌*◌, ◌/◌, ◌%◌, ◌^◌, ◌≤◌, ◌<◌, String, ◌≡◌, refl, sym, ap, ◌∙◌, ◌≢◌, ◌↔◌,
  ◌⊎◌, inl, inr, Bool, true, false, not, ◌&&◌, ◌||◌, Option, none, some, List, [], ◌∷◌, ◌++◌, map,
  append_assoc, append-nil, arith, ltb, leb, ◌==◌, if◌then◌else◌, ltb→lt, ltb→ge, lt→ltb, ==_iff,
  Bool-cases, Option-cases, is_some, length, take, drop, replicate, any, find, retain, last,
  is_empty, length-append, take-append, drop-append, take-append-drop, length-take, length-drop,
  any-append, last-snoc, All, All-append, All-retain, Bytes, Text, codes, bytes_eq, bytes_eq_refl,
  bytes_eq→eq, bytes_eq_iff, ◌>>=◌, ◌>>◌, guard, >>=-eq-some, guard-eq-some, some-eq, some_pair,
  Result, ok, err, is_ok, map_err, and_then, and_then-eq-ok, All-drop, All-last, length-replicate,
  take-append_le, take_all, All-take, All-append, retain-append, retain-middle, All-middle, AnyOf,
  AnyOf-middle, AnyOf-here, All-append_right,
}
use lastpass_ssh_agent.Ssh.{SshLibrary}
use lastpass_ssh_agent.Config.{Config, KeyConfig}
use lastpass_ssh_agent.Lpass.{LpassError, locked, no_master_password, not_logged_in}
use lastpass_ssh_agent.Keystore.{
  KeyEntry, FromRemembered, LoadError, shut, RememberedKey, from_remembered, load, remember,
}
use lastpass_ssh_agent.Identities
use lastpass_ssh_agent.Identities.{Held, Toml, FileError, save_best_effort}
use lastpass_ssh_agent.Refresh.Scan.{
  KeysError, vault_failed, no_keys_found, Vault, effective_keys, Identities, public_key,
}

pub data StartError : Type 0 where
  lpass_failed : LpassError → StartError
  nothing_found : StartError
  load_failed : LoadError → StartError
  file_failed : FileError → StartError
  -- The vault has to be opened for this start.
  needs_the_vault : LpassError → StartError

first_start_needs_the_vault : StartError → StartError
first_start_needs_the_vault (lpass_failed locked) = needs_the_vault locked
first_start_needs_the_vault (lpass_failed (no_master_password why)) =
    needs_the_vault (no_master_password why)
first_start_needs_the_vault (lpass_failed not_logged_in) = needs_the_vault not_logged_in
first_start_needs_the_vault other = other

-- What `?` makes of the errors of the two calls.
keys_failed : KeysError → StartError
keys_failed (vault_failed e) = lpass_failed e
keys_failed no_keys_found = nothing_found

not_loaded : LoadError → StartError
not_loaded (shut e) = lpass_failed e
not_loaded e = load_failed e

module _ (ssh : SshLibrary) (text_of : Bytes → Text) (toml : Toml) (config : Config)
    (bytes_of : Text → Bytes) where
  -- A set that would serve nothing, or lacks a pinned key, is not served.
  unfoldable pub covering : FromRemembered ssh → Option (List (KeyEntry ssh))
  covering from =
      if is_empty from.store
      then none
      else if not (is_empty from.missing)
      then none
      else some from.store

  known :
      Result FileError (Option (List RememberedKey))
      → Result FileError (Option (List (KeyEntry ssh)))
  unfolding covering
  known (err e) = err e
  known (ok none) = ok none
  known (ok (some remembered)) =
      ok (covering (from_remembered ssh text_of config bytes_of remembered))

  unfoldable pub remembered_store : Held → Result FileError (Option (List (KeyEntry ssh)))
  unfolding known
  remembered_store file = known (Identities.load toml file)

  -- The scan skips items and adds none, so the difference does not stop at 0 early.
  unfoldable pub remember_if_complete :
      (write : Result Text (Unit {0})) → Held → List (KeyEntry ssh) → (wanted : ℕ) → Held
  remember_if_complete write file store wanted =
      let skipped = wanted - length store in
      if skipped == 0 then save_best_effort toml write (remember ssh store) file else file

  loaded_from :
      (write : Result Text (Unit {0}))
      → Held
      → (wanted : ℕ) → Result LoadError (List (KeyEntry ssh))
      → Result StartError (Identities ssh text_of toml config)
  unfolding first_start_needs_the_vault not_loaded remember_if_complete
  loaded_from write file wanted (err e) = err (first_start_needs_the_vault (not_loaded e))
  loaded_from write file wanted (ok store) =
      ok (record { served = store; file = remember_if_complete write file store wanted })

  first_scan :
      Vault
      → (write : Result Text (Unit {0})) → Held
      → Result KeysError (List KeyConfig)
      → Result StartError (Identities ssh text_of toml config)
  unfolding loaded_from first_start_needs_the_vault keys_failed
  first_scan vault write file (err e) = err (first_start_needs_the_vault (keys_failed e))
  first_scan vault write file (ok keys) =
      loaded_from write file (length keys)
        (load ssh text_of config (public_key ssh text_of toml config vault) keys)

  started :
      (lowercase : Text → Text) (next : ℕ → ℕ)
      → Vault
      → (write : Result Text (Unit {0})) → Held
      → Result FileError (Option (List (KeyEntry ssh)))
      → Option (Result StartError (Identities ssh text_of toml config))
  unfolding first_scan
  started lowercase next vault write file (err e) = some (err (file_failed e))
  started lowercase next vault write file (ok (some store)) =
      some (ok (record { served = store; file = file }))
  started lowercase next vault write file (ok none) =
      effective_keys lowercase next vault config >>= λ keys. some (first_scan vault write file keys)

  -- `none` where discovery ran out of rounds.
  unfoldable pub start :
      (lowercase : Text → Text) (next : ℕ → ℕ)
      → Vault
      → (write : Result Text (Unit {0})) → Held
      → Option (Result StartError (Identities ssh text_of toml config))
  unfolding started remembered_store
  start lowercase next vault write file =
      started lowercase next vault write file (remembered_store file)
