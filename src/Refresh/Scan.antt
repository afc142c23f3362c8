-- ===== src/Refresh/Scan.antt =====
-- `effective_keys` of src/keystore.rs and `refresh_now` of src/refresh.rs: which items a scan is over,
-- and what its end replaces. The vault does not change during one scan.
pub mod Complete
use lastpass_ssh_agent.Prelude.{
  ℕ, not, Option, none, some, List, map, if◌then◌else◌, is_empty, Bytes, Text, codes, ◌>>=◌, Result,
  ok, err,
}
use lastpass_ssh_agent.Ssh.{SshLibrary}
use lastpass_ssh_agent.Config.{Config, KeyConfig}
use lastpass_ssh_agent.Lpass.{LpassError, ItemSummary}
use lastpass_ssh_agent.Lpass.Discovery.{discover_ssh_key_items}
use lastpass_ssh_agent.Keystore.{KeyEntry, load_complete, remember}
use lastpass_ssh_agent.Identities.{Held, Toml, save_best_effort}

pub data KeysError : Type 0 where
  vault_failed : LpassError → KeysError
  no_keys_found : KeysError

pub discovered_key : ItemSummary → KeyConfig
discovered_key item = record {
  id = item.id;
  name = some item.name;
  confirm = none;
  passphrase_fallback = none;
}

pub keys_of : Result LpassError (List ItemSummary) → Result KeysError (List KeyConfig)
unfolding discovered_key
keys_of (err e) = err (vault_failed e)
keys_of (ok found) = if is_empty found then err no_keys_found else ok (map discovered_key found)

-- What `lpass` answers while the scan runs.
pub record Vault : Type 0 where
  pub listed : Result LpassError (List ItemSummary)
  pub show_field : (item_id field : Text) → Result LpassError Bytes

-- `next` is the order in which probes end; `none` where discovery ran out of rounds.
unfoldable pub effective_keys :
    (lowercase : Text → Text) (next : ℕ → ℕ)
    → Vault
    → Config
    → Option (Result KeysError (List KeyConfig))
unfolding keys_of
effective_keys lowercase next vault config =
    if not (is_empty config.keys)
    then some (ok config.keys)
    else discover_ssh_key_items lowercase next vault.listed
        (λ id. vault.show_field id (codes "NoteType")) none
      >>= λ found. some (keys_of found)

module _ (ssh : SshLibrary) (text_of : Bytes → Text) (toml : Toml) (config : Config) where
  -- The served set, and the file that the next start reads.
  pub record Identities : Type 0 where
    pub served : List (KeyEntry ssh)
    pub file : Held

  unfoldable pub public_key : Vault → Text → Result LpassError Bytes
  public_key vault id = vault.show_field id (codes "Public Key")

  completed :
      (write : Result Text (Unit {0})) → Identities → Option (List (KeyEntry ssh)) → Identities
  completed write st none = st
  completed write st (some store) = record {
    served = store;
    file = save_best_effort toml write (remember ssh store) st.file;
  }

  scanned :
      Vault
      → (write : Result Text (Unit {0})) → Identities
      → Option (Result KeysError (List KeyConfig))
      → Identities
  unfolding completed public_key
  scanned vault write st none = st
  scanned vault write st (some (err e)) = st
  scanned vault write st (some (ok keys)) =
      completed write st (load_complete ssh text_of config (public_key vault) keys)

  pub refresh_now :
      (lowercase : Text → Text) (next : ℕ → ℕ)
      → Vault
      → (write : Result Text (Unit {0})) → Identities
      → Identities
  unfolding scanned effective_keys
  refresh_now lowercase next vault write st =
      scanned vault write st (effective_keys lowercase next vault config)
