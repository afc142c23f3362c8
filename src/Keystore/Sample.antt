-- ===== src/Keystore/Sample.antt =====
-- A vault of two keys without pinned ones, and what a scan of src/keystore.rs makes of it; the tests of
-- src/refresh.rs run on it.
use lastpass_ssh_agent.Prelude.{
  ℕ, ◌≡◌, refl, true, false, none, some, List, [], ◌∷◌, ◌++◌, All, Bytes, Text, codes, bytes_eq,
  Result, ok,
}
use lastpass_ssh_agent.Ssh.Sample.{sample}
use lastpass_ssh_agent.Signing.Keys.{can_sign}
use lastpass_ssh_agent.Config.{Config, KeyConfig, tty, typed, prompt, is_item_id}
use lastpass_ssh_agent.Lpass.{LpassError}
use lastpass_ssh_agent.Keystore.{
  KeyEntry, load, inspect_keys, inspect_onto, fetched, accept, check_unique, unique, claim, holder,
  inspection, entry_of, load_onto, refuses, refused, remember,
}
use lastpass_ssh_agent.Keystore.Restart.{HasDefaults, DistinctItems, ReadsBack}

abbrev pub config : Config
config = record {
  keys = [];
  remember_approvals = true;
  lock_on_screen_lock = false;
  master_password = typed;
  master_password_idle_secs = none;
  passphrase_fallback = prompt;
  askpass = none;
  lpass_path = none;
  confirm_timeout_secs = 60;
  confirm = tty;
  socket = none;
}

abbrev pub item : ℕ → KeyConfig
item digit = record {
  id = digit ∷ [];
  name = some (codes "web");
  confirm = none;
  passphrase_fallback = none;
}

abbrev pub items : List KeyConfig
items = item 0x31 ∷ item 0x32 ∷ []

-- A key is its item's id and one byte more.
abbrev pub show_public : Text → Result LpassError Bytes
show_public id = ok (id ++ 9 ∷ [])

abbrev pub served : List (KeyEntry sample)
served =
    entry_of sample config (item 0x31) (0x31 ∷ 9 ∷ [])
    ∷ entry_of sample config (item 0x32) (0x32 ∷ 9 ∷ [])
    ∷ []

pub load_served : load sample (λ b. b) config show_public items ≡ ok served
unfolding load inspect_keys inspect_onto fetched accept check_unique unique claim holder inspection
    load_onto refuses refused can_sign bytes_eq
load_served = refl

pub items-HasDefaults : All (HasDefaults sample (λ b. b) config (λ t. t)) items
items-HasDefaults = ((refl, refl), ((refl, refl), tt))

pub served-DistinctItems : DistinctItems sample served
unfolding entry_of bytes_eq
served-DistinctItems = ((refl, tt), (tt, tt))

pub served-ReadsBack : All (ReadsBack sample (λ b. b) config (λ t. t)) served
unfolding entry_of
served-ReadsBack = ((refl, refl), ((refl, refl), tt))

pub served_ids : All (λ key. is_item_id key.id ≡ true) (remember sample served)
unfolding remember entry_of is_item_id
served_ids = (refl, (refl, tt))
