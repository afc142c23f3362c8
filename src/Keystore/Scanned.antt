-- ===== src/Keystore/Scanned.antt =====
-- The entries that a scan of src/keystore.rs yields.
use lastpass_ssh_agent.Prelude.{◌≡◌, List, [], ◌∷◌, All, Bytes, Text, Result, ok, err}
use mathlib.Core.Path.{subst}
use lastpass_ssh_agent.Ssh.{SshLibrary}
use lastpass_ssh_agent.Config.{Config, KeyConfig}
use lastpass_ssh_agent.Lpass.{LpassError}
use lastpass_ssh_agent.Keystore.{
  KeyEntry, KeyIssue, Seen, KeyInspection, inspection, check_unique, fetched, inspect_onto,
  inspect_keys, load,
}
use lastpass_ssh_agent.Keystore.Policy.{usables, load-eq-ok}
use lastpass_ssh_agent.Keystore.Unique.{Good, inspect_onto-Good}
use lastpass_ssh_agent.Keystore.Restart.{HasDefaults, IsPlain, entry_of-IsPlain}

module _ (ssh : SshLibrary) (text_of : Bytes → Text) (config : Config) where
  pub load-Good :
      (show_field : Text → Result LpassError Bytes) (keys : List KeyConfig)
      (es : List (KeyEntry ssh))
      → load ssh text_of config show_field keys ≡ ok es
      → Good ssh [] es
  unfolding inspect_keys
  load-Good show_field keys es h =
      subst (Good ssh []) (load-eq-ok ssh text_of config show_field keys es h)
        (inspect_onto-Good ssh text_of config show_field [] keys)

  module _ (bytes_of : Text → Bytes) where
    one-IsPlain :
        (key : KeyConfig) (r : Result KeyIssue ssh.PublicKey) (rest : List (KeyInspection ssh))
        → HasDefaults ssh text_of config bytes_of key
        → All (IsPlain ssh text_of config bytes_of) (usables ssh rest)
        → All
            (IsPlain ssh text_of config bytes_of)
            (usables ssh (inspection ssh config key r ∷ rest))
    unfolding inspection usables
    one-IsPlain key (ok p) rest d h = (entry_of-IsPlain ssh text_of config bytes_of key p d, h)
    one-IsPlain key (err e) rest d h = h

    module _ (show_field : Text → Result LpassError Bytes) where
      inspect_onto-IsPlain :
          (seen : Seen ssh) (keys : List KeyConfig)
          → All (HasDefaults ssh text_of config bytes_of) keys
          → All
              (IsPlain ssh text_of config bytes_of)
              (usables ssh (inspect_onto ssh text_of config show_field seen keys))
      unfolding inspect_onto usables
      inspect_onto-IsPlain seen [] d = tt
      inspect_onto-IsPlain seen (key ∷ keys) d =
          let (public, seen') =
            check_unique ssh seen (fetched ssh text_of config show_field key) key.id in
          one-IsPlain key public (inspect_onto ssh text_of config show_field seen' keys) d.0
            (inspect_onto-IsPlain seen' keys d.1)

      pub load-IsPlain :
          (keys : List KeyConfig) (es : List (KeyEntry ssh))
          → All (HasDefaults ssh text_of config bytes_of) keys
          → load ssh text_of config show_field keys ≡ ok es
          → All (IsPlain ssh text_of config bytes_of) es
      unfolding inspect_keys
      load-IsPlain keys es d h =
          subst (All (IsPlain ssh text_of config bytes_of))
            (load-eq-ok ssh text_of config show_field keys es h) (inspect_onto-IsPlain [] keys d)
