-- ===== src/Confirmers/Chosen.antt =====
-- The choice of `from_config` in src/confirm/mod.rs and in src/passphrase.rs, for a configuration
-- that `validate` of src/config.rs accepts.
use lastpass_ssh_agent.Prelude.{◌≡◌, refl, ◌≢◌, ◌↔◌, Bool, Option, none, some, Text, ok}
use lastpass_ssh_agent.Config.{
  Config, ConfirmMode, Platform, validate, osascript, tty, askpass, off,
}
use lastpass_ssh_agent.Config.Validity.{validate-IsUsable}
use lastpass_ssh_agent.Confirmers.{
  Confirmer, no_confirmer, osascript_confirmer, tty_confirmer, askpass_confirmer, from_config,
  confirmer_for, with_helper,
}
use lastpass_ssh_agent.Prompts
use lastpass_ssh_agent.Prompts.{
  Prompter, prompter_for, default_prompt, osascript_prompter, tty_prompter, askpass_prompter,
}

confirmer_for_some :
    (mode : ConfirmMode) (helper : Option Text)
    → (mode ≡ askpass → helper ≢ none)
    → (c : Confirmer) × (confirmer_for mode helper ≡ ok c) × ((c ≡ no_confirmer) ↔ (mode ≡ off))
unfolding confirmer_for with_helper
confirmer_for_some off helper h = (no_confirmer, refl, (λ e. refl, λ e. refl))
confirmer_for_some osascript helper h = (osascript_confirmer, refl, (λ e. cc, λ e. cc))
confirmer_for_some tty helper h = (tty_confirmer, refl, (λ e. cc, λ e. cc))
confirmer_for_some askpass none h = absurd (h refl refl)
confirmer_for_some askpass (some program) h = (askpass_confirmer program, refl, (λ e. cc, λ e. cc))

prompter_for_some :
    (on_macos : Bool) (mode : ConfirmMode) (helper : Option Text)
    → (mode ≡ askpass → helper ≢ none)
    → (p : Prompter) × (prompter_for on_macos mode helper ≡ ok p)
unfolding prompter_for Prompts.with_helper
prompter_for_some on_macos off helper h = (default_prompt on_macos, refl)
prompter_for_some on_macos osascript helper h = (osascript_prompter, refl)
prompter_for_some on_macos tty helper h = (tty_prompter, refl)
prompter_for_some on_macos askpass none h = absurd (h refl refl)
prompter_for_some on_macos askpass (some program) h = (askpass_prompter program, refl)

-- A configuration that is accepted has a confirmer and a prompt, the one that approves everything
-- exactly if its confirmations are off.
pub validate-chosen :
    (platform : Platform) (on_macos : Bool) (config : Config)
    → validate platform config ≡ ok tt
    → ((c : Confirmer) × (from_config config ≡ ok c)
        × ((c ≡ no_confirmer) ↔ (config.confirm ≡ off)))
      × ((p : Prompter) × (Prompts.from_config on_macos config ≡ ok p))
unfolding from_config Prompts.from_config
validate-chosen platform on_macos config h =
    let usable = validate-IsUsable platform config h in
    (
      confirmer_for_some config.confirm config.askpass usable.helper,
      prompter_for_some on_macos config.confirm config.askpass usable.helper,
    )
