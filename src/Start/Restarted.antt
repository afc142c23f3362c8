-- ===== src/Start/Restarted.antt =====
-- A start of src/commands/start.rs behind a scan that replaced the served set.
use lastpass_ssh_agent.Prelude.{ℕ, ◌≡◌, true, some, List, is_empty, All, Bytes, Text, Result, ok}
use lastpass_ssh_agent.Ssh.{SshLibrary}
use lastpass_ssh_agent.Config.{Config, KeyConfig, is_item_id}
use lastpass_ssh_agent.Keystore.{remember}
use lastpass_ssh_agent.Keystore.Policy.{load-nonempty}
use lastpass_ssh_agent.Keystore.Restart.{HasDefaults, DistinctItems, ReadsBack}
use lastpass_ssh_agent.Identities.{Toml}
use lastpass_ssh_agent.Refresh.Scan.{Vault, Identities}
use lastpass_ssh_agent.Refresh.Scan.Complete.{Replaced}
use lastpass_ssh_agent.Refresh.Restart.{Encodes, restart-served}
use lastpass_ssh_agent.Start.{start, started, remembered_store, known, covering}

module _ (ssh : SshLibrary) (text_of : Bytes → Text) (toml : Toml) (config : Config)
    (bytes_of : Text → Bytes) where
  -- After a scan that replaced the served set and could write the file, the next start serves
  -- exactly the set that was served and leaves the file as it is, whatever the vault would answer
  -- then and whether or not a write would succeed. No keys are pinned in the configuration, the
  -- scanned keys have no settings of their own, no two served keys are of one item, the served
  -- keys' texts parse as these keys, TOML prints the remembered keys to at most the largest size
  -- and reads them back, and their ids are item ids.
  pub start-served :
      (vault : Vault) (keys : List KeyConfig) (before after : Identities ssh text_of toml config)
      → Replaced ssh text_of toml config vault (ok tt) keys before after
      → is_empty config.keys ≡ true
      → All (HasDefaults ssh text_of config bytes_of) keys
      → DistinctItems ssh after.served
      → All (ReadsBack ssh text_of config bytes_of) after.served
      → Encodes toml (remember ssh after.served)
      → All (λ key. is_item_id key.id ≡ true) (remember ssh after.served)
      → (lowercase : Text → Text) (next : ℕ → ℕ) (later : Vault) (write : Result Text (Unit {0}))
      → start ssh text_of toml config bytes_of lowercase next later write after.file
        ≡ some (ok after)
  unfolding start remembered_store known covering started
  start-served vault keys before after r unpinned plain items back encodes ids lowercase next later
        write =
      let (file, set) =
        restart-served ssh text_of toml config bytes_of vault keys before after r unpinned plain
          items back encodes ids in
      let some_served = load-nonempty ssh text_of config _ keys after.served r.serves in
      rw (file, set, some_served)
