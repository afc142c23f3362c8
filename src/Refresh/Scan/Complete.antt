-- ===== src/Refresh/Scan/Complete.antt =====
-- What a scan of src/refresh.rs leaves behind.
use lastpass_ssh_agent.Prelude.{
  sym, ap, ◌∙◌, All, arith, ℕ, ◌≡◌, refl, ◌⊎◌, inl, inr, Option, none, some, List, Bytes, Text,
  Result, ok, err,
}
use lastpass_ssh_agent.Ssh.{SshLibrary}
use lastpass_ssh_agent.Config.{Config, KeyConfig}
use lastpass_ssh_agent.Keystore.{KeyEntry, load, load_complete, remember}
use lastpass_ssh_agent.Keystore.Complete.{Answered, load_complete_iff}
use lastpass_ssh_agent.Identities.{Toml, save_best_effort}
use lastpass_ssh_agent.Refresh.Scan.{
  KeysError, Vault, effective_keys, Identities, public_key, completed, scanned, refresh_now,
}

module _ (ssh : SshLibrary) (text_of : Bytes → Text) (toml : Toml) (config : Config) where
  -- A scan over the keys replaced both, by what a start on the same vault would serve.
  pub record Replaced (vault : Vault) (write : Result Text (Unit {0})) (keys : List KeyConfig)
      (before after : Identities ssh text_of toml config) : Type 0 where
    pub serves :
        load ssh text_of config (public_key ssh text_of toml config vault) keys ≡ ok after.served
    pub wrote : after.file ≡ save_best_effort toml write (remember ssh after.served) before.file

  -- A scan that may replace: it is over the keys in effect, a start would serve the set, and the
  -- vault has a word on each of them.
  abbrev pub Replaces :
      Vault
      → Option (Result KeysError (List KeyConfig))
      → List KeyConfig
      → List (KeyEntry ssh)
      → Type 0
  Replaces vault effective keys store =
      (effective ≡ some (ok keys))
      × (load ssh text_of config (public_key ssh text_of toml config vault) keys ≡ ok store)
      × All (Answered ssh text_of config (public_key ssh text_of toml config vault)) keys

  abbrev pub CanReplace : Vault → Option (Result KeysError (List KeyConfig)) → Type 0
  CanReplace vault effective =
      (keys : List KeyConfig) × (store : List (KeyEntry ssh)) × Replaces vault effective keys store

  -- What a scan comes to.
  abbrev pub Outcome :
      Vault
      → (write : Result Text (Unit {0})) (before : Identities ssh text_of toml config)
      → Option (Result KeysError (List KeyConfig))
      → Identities ssh text_of toml config
      → Type 0
  Outcome vault write before effective after =
      (¬ CanReplace vault effective × (after ≡ before))
      ⊎ ((keys : List KeyConfig) × Replaces vault effective keys after.served
          × Replaced vault write keys before after)

  completed_cases :
      (vault : Vault) (write : Result Text (Unit {0})) (keys : List KeyConfig)
      (st : Identities ssh text_of toml config) (o : Option (List (KeyEntry ssh)))
      → load_complete ssh text_of config (public_key ssh text_of toml config vault) keys ≡ o
      → Outcome vault write st (some (ok keys)) (completed ssh text_of toml config write st o)
  unfolding completed
  completed_cases vault write keys st none h = inl (
    λ (others, store, (same, l, a)).
        let keys_others : keys ≡ others = ground arith in
        let found =
          (load_complete_iff ssh text_of config (public_key ssh text_of toml config vault) others
              store).1
            (l, a) in
        let contradiction : ◌≡◌ {A = Option (List (KeyEntry ssh))} none (some store) =
          sym h
          ∙ ap (load_complete ssh text_of config (public_key ssh text_of toml config vault))
              keys_others
          ∙ found in
        cc,
    refl,
  )
  completed_cases vault write keys st (some store) h =
      let (l, a) =
        (load_complete_iff ssh text_of config (public_key ssh text_of toml config vault) keys
            store).0
          h in
      inr (keys, (refl, l, a), record { serves = l; wrote = refl })

  scanned_cases :
      (vault : Vault) (write : Result Text (Unit {0})) (st : Identities ssh text_of toml config)
      (o : Option (Result KeysError (List KeyConfig)))
      → Outcome vault write st o (scanned ssh text_of toml config vault write st o)
  unfolding scanned
  scanned_cases vault write st none = inl ((λ (keys, store, (e, l, a)). cc), refl)
  scanned_cases vault write st (some (err x)) =
      inl ((λ (keys, store, (e, l, a)). ground arith), refl)
  scanned_cases vault write st (some (ok keys)) = completed_cases vault write keys st _ refl

  -- A scan replaces the served set and the file exactly where it may: where, over the keys in
  -- effect, a start would serve some set and the vault has a word on every key. Then the served
  -- set is that set, and the file what saving it makes of it, whether or not the write succeeds;
  -- otherwise both are as they were.
  pub refresh_now_cases :
      (lowercase : Text → Text) (next : ℕ → ℕ) (vault : Vault) (write : Result Text (Unit {0}))
      (st : Identities ssh text_of toml config)
      → Outcome vault write st
          (effective_keys lowercase next vault config)
          (refresh_now ssh text_of toml config lowercase next vault write st)
  unfolding refresh_now
  refresh_now_cases lowercase next vault write st =
      scanned_cases vault write st (effective_keys lowercase next vault config)
