-- ===== src/Prompts/Answers.antt =====
-- What the prompts of src/passphrase return as a secret.
use lastpass_ssh_agent.Prelude.{◌≤◌, ◌≡◌, true, some, length, Bytes, ok}
use lastpass_ssh_agent.Passphrase.{max_passphrase_bytes}
use lastpass_ssh_agent.Lpass.{LpassError, spawn, field_too_large}
use lastpass_ssh_agent.Lpass.Cli.Output.{delivered}
use lastpass_ssh_agent.Terminal.{Typed}
use lastpass_ssh_agent.Terminal.Lines.{until_newline}
use lastpass_ssh_agent.Prompts.{
  PromptError, cancelled, unavailable, too_long, read_diagnostics, strip_line_ending, ExitStatus,
  Ended, Helper, ended, Screen, Prompter, osascript_prompter, tty_prompter, askpass_prompter, Desk,
}

-- How a helper's failure is told from that of the vault's program.
abbrev as_prompt : LpassError → PromptError
as_prompt (spawn why) = unavailable why
as_prompt (field_too_large n) = too_long n
as_prompt _ = cancelled

-- The secret that a helper wrote to its pipe, before its line ending is taken off.
abbrev pub Wrote : Ended → Bytes → Type 0
Wrote p out = (delivered p.stdout ≡ some out) × (length out ≤ max_passphrase_bytes)

-- A helper that ended well, and what it wrote.
abbrev pub Printed : Helper → Bytes → Type 0
Printed helper secret =
    (p : Ended) × (out : Bytes) × (status : ExitStatus) × (helper ≡ ended p)
    × Wrote p out
    × (p.status ≡ ok status)
    × (status.success ≡ true)
    × (secret ≡ strip_line_ending out)

-- The diagnostics of a dialog were read to their end.
abbrev pub Drained : Helper → Type 0
Drained helper =
    (p : Ended) × (diagnostics : Bytes) × (helper ≡ ended p)
    × (read_diagnostics p.stderr ≡ ok diagnostics)

-- A line of at most the largest size was typed at a terminal that hid it.
abbrev pub TypedIn : Screen → Bytes → Type 0
TypedIn screen secret =
    (left : Typed) × (screen.shown ≡ ok tt)
    × (until_newline screen.typed ≡ some (ok (secret, left)))
    × (length secret ≤ max_passphrase_bytes)
    × (screen.line_ended ≡ ok tt)

-- What it takes for each prompt to return a secret.
abbrev pub Entered : Prompter → Desk → Bytes → Type 0
Entered osascript_prompter desk secret = Printed desk.dialog secret × Drained desk.dialog
Entered tty_prompter desk secret = TypedIn desk.screen secret
Entered (askpass_prompter program) desk secret = Printed (desk.helper program) secret
