-- ===== src/Lpass/Cli/Held.antt =====
-- The client whose password is the `Unlock` of src/unlock.rs, as src/lpass/cli.rs shares it, and what
-- a call of it comes to. What the store and the prompt return when they are asked comes from outside.
use lastpass_ssh_agent.Prelude.{
  ℕ, ◌≡◌, ◌≢◌, Bool, true, Option, none, List, arith, Bytes, Text, Result, ok, err, map_err,
}
use lastpass_ssh_agent.Config.{MasterPassword}
use lastpass_ssh_agent.Unlock
use lastpass_ssh_agent.Unlock.{
  Unlock, PasswordError, HeldPassword, password_when, resolve, supplied, from_stored, from_typed,
  rejected_when, touch_when,
}
use lastpass_ssh_agent.Lpass.{locked}
use lastpass_ssh_agent.Unlock.Asked.{password-asked, rejected-held, touch-held}
use lastpass_ssh_agent.Lpass.{wrong_master_password}
use lastpass_ssh_agent.Lpass.Cli.Locked.{show_field-asks, ls-asks}
use lastpass_ssh_agent.Lpass.Cli.Refused.{IsShared, show_field-refused, ls-refused}
use lastpass_ssh_agent.Lpass.Cli.{ls, Client, MasterPasswordSource, unlock, show_field}
use lastpass_ssh_agent.Lpass.Cli.Output.{Process}

pub record Outside (W : Type 0) : Type 0 where
  pub text_of : Bytes → Text
  pub describe : PasswordError → Text
  -- The time, what the store has and what is typed.
  pub inputs : W → (ℕ × Result Text (Option Bytes) × Result Text Bytes) × W
  pub lpass : List Text → List (Text × Text) → Option Bytes → W → Process × W

pub record Shared (W : Type 0) : Type 0 where
  pub unlock : Unlock
  pub outside : W

module _ {W : Type 0} (source : MasterPassword) (o : Outside W) where
  shared_password : Bool → Shared W → Result Text (Option Bytes) × Shared W
  shared_password ask w =
      let ((now, stored, answer), outside) = o.inputs w.outside in
      let (r, u) = Unlock.password source ask now stored answer w.unlock in
      (map_err o.describe r, record { unlock = u; outside = outside })

  shared_touch : Shared W → Shared W
  shared_touch w =
      let ((now, stored, answer), outside) = o.inputs w.outside in
      record { unlock = Unlock.touch now w.unlock; outside = outside }

  shared_lpass : List Text → List (Text × Text) → Option Bytes → Shared W → Process × Shared W
  shared_lpass args env stdin w =
      let (process, outside) = o.lpass args env stdin w.outside in
      (process, record w { outside = outside })

  unfoldable pub shared_client : Client (Shared W)
  unfolding shared_password shared_touch shared_lpass
  shared_client = record {
    text_of = o.text_of;
    password = shared_password;
    rejected = λ w. record w { unlock = Unlock.rejected w.unlock };
    touch = shared_touch;
    lpass = shared_lpass;
  }

  -- Asking yields a password or a reason.
  password_asked : (w : Shared W) → (shared_client.password true w).0 ≢ ok none
  unfolding shared_client
  password_asked w =
      given (Unlock.password source true _ _ _ w.unlock).0 (password-asked _ _ _ _ w.unlock)
    where
      given :
          (r : Result PasswordError (Option Bytes))
          → r ≢ ok none
          → ◌≢◌ {A = Result Text (Option Bytes)} (map_err o.describe r) (ok none)
      given (ok p) h = λ e. h (ground arith)
      given (err e) h = λ k. cc

  module _ (vars : List (Text × Text)) where
    -- A call that may ask never reports the vault as locked, whatever the vault, the store and the
    -- person return: neither a field nor the listing. It has an answer, or another error that says
    -- why.
    pub calls-open :
        (id field : Text) (w : Shared W)
        → ((show_field shared_client vars unlock id field w).0 ≢ err locked)
          × ((ls shared_client vars unlock w).0 ≢ err locked)
    calls-open id field w = (
      show_field-asks shared_client vars password_asked id field w,
      ls-asks shared_client vars password_asked w,
    )

    abbrev pub IsDropped : Shared W → Type 0
    IsDropped w = w.unlock.held ≡ none

    rejected_drops : (w : Shared W) → IsDropped (shared_client.rejected w)
    unfolding shared_client
    rejected_drops w = rejected-held w.unlock

    touch_keeps : (w : Shared W) → IsDropped w → IsDropped (shared_client.touch w)
    unfolding shared_client
    touch_keeps w h = touch-held _ w.unlock h

    -- Where a field comes back with a refused master password, no master password is held
    -- afterwards, provided that the source is one of those that share the held one.
    pub show_field-drops :
        (feed : MasterPasswordSource) (id field : Text) (w : Shared W)
        → IsShared feed
        → (show_field shared_client vars feed id field w).0 ≡ err wrong_master_password
        → (show_field shared_client vars feed id field w).1.unlock.held ≡ none
    show_field-drops feed id field w s h =
        show_field-refused shared_client vars IsDropped rejected_drops touch_keeps feed id field w s
          h

    pub ls-drops :
        (feed : MasterPasswordSource) (w : Shared W)
        → IsShared feed
        → (ls shared_client vars feed w).0 ≡ err wrong_master_password
        → (ls shared_client vars feed w).1.unlock.held ≡ none
    ls-drops feed w s h =
        ls-refused shared_client vars IsDropped rejected_drops touch_keeps feed w s h
