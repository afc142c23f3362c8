-- ===== src/Confirmers/Tests.antt =====
-- Runs of the confirmers of src/confirm.
use lastpass_ssh_agent.Prelude.{◌≡◌, refl, ◌↔◌, true, [], ◌∷◌, codes, bytes_eq, ok}
use lastpass_ssh_agent.Confirm.{approve}
use lastpass_ssh_agent.Confirmers.{
  tty_confirm, prompt_on_tty, trim_ascii, Desk, confirm, tty_confirmer, timed_out,
  osascript_confirm, ended,
}
use lastpass_ssh_agent.Terminal.{read_line}
use lastpass_ssh_agent.Text.Search.{contains}
use lastpass_ssh_agent.Confirmers.Closed.{confirm_iff, Approved}
use lastpass_ssh_agent.Confirm.{deny}

abbrev desk : Desk
desk = record {
  dialog = timed_out;
  helper = λ program. timed_out;
  screen = record { shown = ok tt; typed = ok 0x20 ∷ ok 0x79 ∷ ok 0x65 ∷ ok 0x73 ∷ ok 0x0a ∷ [] };
}

confirm_iff_example :
    (confirm (λ b. b) tty_confirmer desk ≡ approve) ↔ Approved (λ b. b) tty_confirmer desk
confirm_iff_example = confirm_iff (λ b. b) tty_confirmer desk

said_yes : confirm (λ b. b) tty_confirmer desk ≡ approve
unfolding confirm tty_confirm prompt_on_tty read_line bytes_eq trim_ascii
said_yes = refl

-- A dialog that gave up is not an approval, whatever button it names.
gave_up :
    osascript_confirm
      (λ b. b)
      (ended (record { success = true; stdout = codes "button returned:Allow, gave up:true" }))
    ≡ deny
unfolding osascript_confirm contains
gave_up = refl
