-- ===== src/Keystore/Tests.antt =====
-- The theorems on src/keystore.rs at a vault of two items.
use lastpass_ssh_agent.Ssh.Sample.{sample}
use lastpass_ssh_agent.Signing.Keys.{can_sign}
use lastpass_ssh_agent.Config.{Config, KeyConfig, tty, typed, prompt}
use lastpass_ssh_agent.Lpass.{LpassError, item_not_found, timeout}
use lastpass_ssh_agent.Keystore.{
  KeyEntry, load, load_complete, inspect_keys, inspect_onto, fetched, accept, check_unique, unique,
  claim, holder, inspection, entry_of, load_onto, load_complete_onto, refuses, refused, is_verdict,
  lookup,
}
use lastpass_ssh_agent.Keystore.Complete.{Answered, load_complete_iff}
use lastpass_ssh_agent.Keystore.Unique.{load-lookup}
use lastpass_ssh_agent.Prelude.{
  ◌↔◌, ℕ, ◌≡◌, refl, true, false, none, some, List, [], ◌∷◌, ◌++◌, if◌then◌else◌, All, Bytes, Text,
  bytes_eq, Result, ok, err,
}

abbrev config : Config
config = record {
  keys = [];
  remember_approvals = true;
  lock_on_screen_lock = false;
  master_password = typed;
  master_password_idle_secs = none;
  passphrase_fallback = prompt;
  askpass = none;
  lpass_path = none;
  confirm_timeout_secs = 60;
  confirm = tty;
  socket = none;
}

abbrev pinned : ℕ → KeyConfig
pinned id = record { id = id ∷ []; name = none; confirm = none; passphrase_fallback = none }

abbrev items : List KeyConfig
items = pinned 1 ∷ pinned 2 ∷ pinned 3 ∷ []

-- The third item is gone.
abbrev vault : Text → Result LpassError Bytes
vault id = if bytes_eq id (3 ∷ []) then err (item_not_found id) else ok (id ++ 9 ∷ [])

abbrev served : List (KeyEntry sample)
served =
    entry_of sample config (pinned 1) (1 ∷ 9 ∷ [])
    ∷ entry_of sample config (pinned 2) (2 ∷ 9 ∷ [])
    ∷ []

load_complete_run : load_complete sample (λ b. b) config vault items ≡ some served
unfolding load_complete inspect_keys inspect_onto fetched accept check_unique unique claim holder
    inspection load_complete_onto is_verdict can_sign bytes_eq
load_complete_run = refl

load_complete_iff_example : (load_complete sample (λ b. b) config vault items ≡ some served) ↔ (
    (load sample (λ b. b) config vault items ≡ ok served)
    × All (Answered sample (λ b. b) config vault) items)
load_complete_iff_example = load_complete_iff sample (λ b. b) config vault items served

-- A vault that takes too long on the third item: a start serves the others, a scan replaces nothing.
abbrev slow : Text → Result LpassError Bytes
slow id = if bytes_eq id (3 ∷ []) then err (timeout 30) else ok (id ++ 9 ∷ [])

slow_start : load sample (λ b. b) config slow items ≡ ok served
unfolding load inspect_keys inspect_onto fetched accept check_unique unique claim holder inspection
    load_onto refuses refused can_sign bytes_eq
slow_start = refl

slow_scan : load_complete sample (λ b. b) config slow items ≡ none
unfolding load_complete inspect_keys inspect_onto fetched accept check_unique unique claim holder
    inspection load_complete_onto is_verdict can_sign bytes_eq
slow_scan = refl

load_run : load sample (λ b. b) config vault items ≡ ok served
unfolding load inspect_keys inspect_onto fetched accept check_unique unique claim holder inspection
    load_onto refuses refused can_sign bytes_eq
load_run = refl

load-lookup_example :
    All
      (λ (e : KeyEntry sample).
        (lookup sample served e.public ≡ some e) × (can_sign (sample.algorithm e.public) ≡ true))
      served
load-lookup_example = load-lookup sample (λ b. b) config vault items served load_run
