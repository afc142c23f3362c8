-- ===== src/Refresh/Restart.antt =====
-- A scan of src/refresh.rs, what src/identities.rs keeps of it, and the start behind it
-- (`from_remembered` of src/keystore.rs).
use lastpass_ssh_agent.Prelude.{
  ◌≤◌, ◌≡◌, true, some, List, [], length, is_empty, All, Bytes, Text, ok,
}
use lastpass_ssh_agent.Ssh.{SshLibrary}
use lastpass_ssh_agent.Config.{Config, KeyConfig, is_item_id}
use lastpass_ssh_agent.Keystore.{RememberedKey, from_remembered, remember}
use lastpass_ssh_agent.Keystore.Scanned.{load-Good, load-IsPlain}
use lastpass_ssh_agent.Keystore.Restart.{
  HasDefaults, DistinctItems, ReadsBack, from_remembered-remember,
}
use lastpass_ssh_agent.Identities
use lastpass_ssh_agent.Identities.{Toml, Held, holds, save_best_effort, max_bytes}
use lastpass_ssh_agent.Identities.Loaded.{load_exactly, save_best_effort-holds}
use lastpass_ssh_agent.Refresh.Scan.{Vault, public_key, Identities}
use lastpass_ssh_agent.Refresh.Scan.Complete.{Replaced}

-- What the toml crate makes of the keys, and that it reads it back.
pub record Encodes (toml : Toml) (keys : List RememberedKey) : Type 0 where
  pub text : Text
  pub printed : toml.to_string keys ≡ ok text
  pub parsed_back : toml.from_str text ≡ ok keys
  pub is_utf8 : toml.from_utf8 (toml.as_bytes text) ≡ ok text
  pub small : length (toml.as_bytes text) ≤ max_bytes

module _ (ssh : SshLibrary) (text_of : Bytes → Text) (toml : Toml) (config : Config)
    (bytes_of : Text → Bytes) where
  saved_back :
      (keys : List RememberedKey) (before : Held)
      → Encodes toml keys
      → All (λ key. is_item_id key.id ≡ true) keys
      → Identities.load toml (save_best_effort toml (ok tt) keys before) ≡ ok (some keys)
  saved_back keys before e ids = rw (save_best_effort-holds toml keys e.text before e.printed) (
      (load_exactly toml (toml.as_bytes e.text) keys).1
        (e.small, (e.text, e.is_utf8, e.parsed_back), ids))

  -- After a scan that replaced the served set and could write the file, the next start reads back
  -- what the scan remembered and rebuilds exactly the set that was served, with no key missing. No
  -- keys are pinned in the configuration, the scanned keys have no settings of their own, no two
  -- served keys are of one item, the served keys' texts parse as these keys, TOML prints the
  -- remembered keys to at most the largest size and reads them back, and their ids are item ids.
  pub restart-served :
      (vault : Vault) (keys : List KeyConfig) (before after : Identities ssh text_of toml config)
      → Replaced ssh text_of toml config vault (ok tt) keys before after
      → is_empty config.keys ≡ true
      → All (HasDefaults ssh text_of config bytes_of) keys
      → DistinctItems ssh after.served
      → All (ReadsBack ssh text_of config bytes_of) after.served
      → Encodes toml (remember ssh after.served)
      → All (λ key. is_item_id key.id ≡ true) (remember ssh after.served)
      → (Identities.load toml after.file ≡ ok (some (remember ssh after.served)))
        × (from_remembered ssh text_of config bytes_of (remember ssh after.served)
            ≡ record { store = after.served; missing = [] })
  restart-served vault keys before after r unpinned plain items back encodes ids =
      let good =
        load-Good ssh text_of config (public_key ssh text_of toml config vault) keys after.served
          r.serves in
      (
        rw r.wrote (saved_back (remember ssh after.served) before.file encodes ids),
        from_remembered-remember ssh text_of config bytes_of after.served unpinned items
            good.distinct good.signs
            (load-IsPlain ssh text_of config bytes_of (public_key ssh text_of toml config vault)
              keys after.served plain r.serves)
            back,
      )
