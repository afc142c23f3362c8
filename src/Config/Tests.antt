-- ===== src/Config/Tests.antt =====
-- The theorem on src/config.rs at a configuration of two keys.
use lastpass_ssh_agent.Config.{
  off, Config, KeyConfig, tty, typed, keychain, prompt, macos, validate, first_error, checks,
  platform_checks, check_ids, is_item_id, all, distinct, check_path, is_absolute, is_askpass,
  uses_fallback, fallback_eq, passphrase_fallback,
}
use lastpass_ssh_agent.Config.Validity.{IsUsable, validate-IsUsable}
use lastpass_ssh_agent.Confirmers.{Confirmer, no_confirmer, from_config}
use lastpass_ssh_agent.Confirmers.Chosen.{validate-chosen}
use lastpass_ssh_agent.Prompts
use lastpass_ssh_agent.Prompts.{Prompter}
use lastpass_ssh_agent.Prelude.{◌↔◌, ◌≡◌, ok, ℕ, refl, true, none, some, [], ◌∷◌, codes, bytes_eq}

abbrev key : ℕ → KeyConfig
key digit = record {
  id = digit ∷ [];
  name = none;
  confirm = none;
  passphrase_fallback = some keychain;
}

abbrev config : Config
config = record {
  keys = key 0x31 ∷ key 0x32 ∷ [];
  remember_approvals = true;
  lock_on_screen_lock = true;
  master_password = typed;
  master_password_idle_secs = some 600;
  passphrase_fallback = prompt;
  askpass = none;
  lpass_path = some (codes "/usr/bin/lpass");
  confirm_timeout_secs = 60;
  confirm = tty;
  socket = none;
}

validate-IsUsable_example : IsUsable macos config
unfolding validate first_error checks platform_checks check_ids is_item_id all distinct check_path
    is_absolute is_askpass uses_fallback fallback_eq passphrase_fallback bytes_eq
validate-IsUsable_example = validate-IsUsable macos config refl

validate-chosen_example :
    ((c : Confirmer) × (from_config config ≡ ok c) × ((c ≡ no_confirmer) ↔ (config.confirm ≡ off)))
    × ((p : Prompter) × (Prompts.from_config true config ≡ ok p))
unfolding validate first_error checks platform_checks check_ids is_item_id all distinct check_path
    is_absolute is_askpass uses_fallback fallback_eq passphrase_fallback bytes_eq
validate-chosen_example = validate-chosen macos true config refl
