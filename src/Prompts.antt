-- ===== src/Prompts.antt =====
-- Where a passphrase is typed: the helper program (src/passphrase/askpass.rs), the dialog
-- (src/passphrase/osascript.rs) and the terminal (src/passphrase/tty.rs), what they share with each
-- other and their choice (src/passphrase.rs). What a program or the terminal returns is given.
pub mod Answers
mod Tests
use lastpass_ssh_agent.Prelude.{
  ℕ, zero, suc, ◌+◌, ◌-◌, ◌*◌, ◌/◌, ◌%◌, ◌^◌, ◌≤◌, ◌<◌, String, ◌≡◌, refl, sym, ap, ◌∙◌, ◌≢◌, ◌↔◌,
  ◌⊎◌, inl, inr, Bool, true, false, not, ◌&&◌, ◌||◌, Option, none, some, List, [], ◌∷◌, ◌++◌, map,
  append_assoc, append-nil, arith, ltb, leb, ◌==◌, if◌then◌else◌, ltb→lt, ltb→ge, lt→ltb, ==_iff,
  Bool-cases, Option-cases, is_some, length, take, drop, replicate, any, find, retain, last,
  is_empty, length-append, take-append, drop-append, take-append-drop, length-take, length-drop,
  any-append, last-snoc, All, All-append, All-retain, Bytes, Text, codes, bytes_eq, bytes_eq_refl,
  bytes_eq→eq, bytes_eq_iff, ◌>>=◌, ◌>>◌, guard, >>=-eq-some, guard-eq-some, some-eq, some_pair,
  Result, ok, err, is_ok, map_err, and_then, and_then-eq-ok, All-drop, All-last, length-replicate,
  take-append_le, take_all, All-take, All-append, retain-append, retain-middle, All-middle, AnyOf,
  AnyOf-middle, AnyOf-here, All-append_right,
}
use lastpass_ssh_agent.Config.{ConfirmMode, Config, osascript, tty, askpass, off}
use lastpass_ssh_agent.Passphrase.{max_passphrase_bytes}
use lastpass_ssh_agent.Lpass.Cli.Output.{Reads, read_to_end, pop_if}
use lastpass_ssh_agent.Terminal.{Typed, Line, read_line}
use lastpass_ssh_agent.Text.{escape_for_display}
use lastpass_ssh_agent.Text.Search.{contains, trim}

pub data PromptError : Type 0 where
  cancelled : PromptError
  unavailable : (why : Text) → PromptError
  too_long : ℕ → PromptError

unfoldable pub read_secret_onto : Bytes → Reads → Result PromptError Bytes
read_secret_onto out [] = ok out
read_secret_onto out (err e ∷ reads) = err (unavailable e)
read_secret_onto out (ok chunk ∷ reads) =
    let rest = read_secret_onto (out ++ chunk) reads in
    if is_empty chunk
    then ok out
    else if ltb max_passphrase_bytes (length out + length chunk)
    then err (too_long max_passphrase_bytes)
    else rest

unfoldable pub read_secret : Reads → Result PromptError Bytes
unfolding read_secret_onto
read_secret reads = read_secret_onto [] reads

-- `take(4096)` and `read_to_end`.
pub read_diagnostics : Reads → Result PromptError Bytes
read_diagnostics reads = map_err unavailable (read_to_end 4096 [] reads)

pub strip_line_ending : Bytes → Bytes
unfolding pop_if
strip_line_ending secret = elim (last secret) [
  | none ↦ secret
  | some b ↦ if b == 0x0a then pop_if 0x0d (pop_if 0x0a secret) else secret
]

pub record ExitStatus : Type 0 where
  pub success : Bool
  pub signal : Option ℕ

pub record Ended : Type 0 where
  pub stdout : Reads
  pub stderr : Reads
  -- Which of the two pipes is finished with first.
  pub stderr_first : Bool
  pub status : Result Text ExitStatus

pub data Helper : Type 0 where
  not_started : (why : Text) → Helper
  timed_out : Helper
  ended : Ended → Helper

-- A helper that did not succeed was killed, or dismissed.
without_answer : Option ℕ → PromptError
without_answer (some signal) = unavailable (codes "killed by signal")
without_answer none = cancelled

helper_answer : ExitStatus → Bytes → Result PromptError Bytes
unfolding strip_line_ending without_answer
helper_answer status secret =
    if not status.success then err (without_answer status.signal) else ok (strip_line_ending secret)

unfoldable pub askpass_prompt : Helper → Result PromptError Bytes
unfolding helper_answer
askpass_prompt (not_started why) = err (unavailable why)
askpass_prompt timed_out = err cancelled
askpass_prompt (ended p) =
    and_then (read_secret p.stdout)
      λ secret. and_then (map_err unavailable p.status) λ status. helper_answer status secret

-- `try_join!` of the two readers.
both :
    (stderr_first : Bool)
    → Result PromptError Bytes
    → Result PromptError Bytes
    → Result PromptError (Bytes × Bytes)
both stderr_first (ok secret) (ok diagnostics) = ok (secret, diagnostics)
both stderr_first (err e) (ok diagnostics) = err e
both stderr_first (ok secret) (err f) = err f
both stderr_first (err e) (err f) = err (if stderr_first then f else e)

-- What the diagnostics of a dialog that failed say.
pub dialog_failed : Text → PromptError
dialog_failed stderr =
    if contains (codes "No user interaction allowed") stderr
    then unavailable (codes "no GUI session for the passphrase dialog")
    else if contains (codes "User canceled") stderr
        || contains (codes "passphrase entry timed out") stderr
    then cancelled
    else unavailable (escape_for_display (trim stderr))

-- `text_of` is `String::from_utf8_lossy`.
dialog_answer :
    (text_of : Bytes → Text) → ExitStatus → (secret diagnostics : Bytes) → Result PromptError Bytes
unfolding dialog_failed strip_line_ending
dialog_answer text_of status secret diagnostics =
    if not status.success
    then err (dialog_failed (text_of diagnostics))
    else ok (strip_line_ending secret)

unfoldable pub osascript_prompt : (text_of : Bytes → Text) → Helper → Result PromptError Bytes
unfolding both dialog_answer read_diagnostics
osascript_prompt text_of (not_started why) = err (unavailable why)
osascript_prompt text_of timed_out = err cancelled
osascript_prompt text_of (ended p) =
    and_then (both p.stderr_first (read_secret p.stdout) (read_diagnostics p.stderr))
      λ (secret, diagnostics).
        and_then (map_err unavailable p.status)
          λ status. dialog_answer text_of status secret diagnostics

pub record Screen : Type 0 where
  -- Opening the terminal, hiding what is typed, and writing the prompt.
  pub shown : Result Text (Unit {0})
  pub typed : Typed
  -- Ending the line on it.
  pub line_ended : Result Text (Unit {0})

-- The secret, and whether what is typed behind it is kept for whoever reads next.
line_finished : Result Text (Unit {0}) → Line → Result Text (Option Bytes) × Bool
line_finished (err e) line = (err e, false)
line_finished (ok done) line = (ok (if line.too_long then none else some line.bytes), true)

typed_line :
    Result Text (Unit {0}) → Option (Result Text Line) → Option (Result Text (Option Bytes)) × Bool
unfolding line_finished
typed_line line_ended none = (none, false)
typed_line line_ended (some (err e)) = (some (err e), false)
typed_line line_ended (some (ok line)) =
    let (r, keeps) = line_finished line_ended line in (some r, keeps)

-- `none` while the line is not complete.
unfoldable pub read_passphrase :
    (max_bytes : ℕ) → Screen → Option (Result Text (Option Bytes)) × Bool
unfolding typed_line
read_passphrase max_bytes screen = elim screen.shown [
  | err e ↦ (some (err e), false)
  | ok done ↦ typed_line screen.line_ended (read_line max_bytes [] false screen.typed)
]

-- A line that is not complete in time is a timeout.
entered_on_tty : (max_bytes : ℕ) → Option (Result Text (Option Bytes)) → Result PromptError Bytes
entered_on_tty max_bytes (some (ok (some secret))) = ok secret
entered_on_tty max_bytes (some (ok none)) = err (too_long max_bytes)
entered_on_tty max_bytes (some (err e)) = err (unavailable e)
entered_on_tty max_bytes none = err cancelled

unfoldable pub tty_prompt : Screen → Result PromptError Bytes
unfolding entered_on_tty
tty_prompt screen =
    entered_on_tty max_passphrase_bytes (read_passphrase max_passphrase_bytes screen).0

pub data Prompter : Type 0 where
  osascript_prompter tty_prompter : Prompter
  askpass_prompter : (program : Text) → Prompter

unfoldable pub default_prompt : (on_macos : Bool) → Prompter
default_prompt on_macos = if on_macos then osascript_prompter else tty_prompter

-- `ok_or_else`.
unfoldable pub with_helper : Option Text → Result Text Prompter
with_helper none = err (codes "askpass mode without helper")
with_helper (some program) = ok (askpass_prompter program)

unfoldable pub prompter_for :
    (on_macos : Bool) → ConfirmMode → (helper : Option Text) → Result Text Prompter
unfolding default_prompt with_helper
prompter_for on_macos osascript helper = ok osascript_prompter
prompter_for on_macos tty helper = ok tty_prompter
prompter_for on_macos askpass helper = with_helper helper
prompter_for on_macos off helper = ok (default_prompt on_macos)

unfoldable pub from_config : (on_macos : Bool) → Config → Result Text Prompter
unfolding prompter_for
from_config on_macos config = prompter_for on_macos config.confirm config.askpass

-- What the dialog, a helper program and the terminal come to.
pub record Desk : Type 0 where
  pub dialog : Helper
  pub helper : (program : Text) → Helper
  pub screen : Screen

-- `PassphrasePrompt::prompt`.
unfoldable pub prompt : (text_of : Bytes → Text) → Prompter → Desk → Result PromptError Bytes
prompt text_of osascript_prompter desk = osascript_prompt text_of desk.dialog
prompt text_of tty_prompter desk = tty_prompt desk.screen
prompt text_of (askpass_prompter program) desk = askpass_prompt (desk.helper program)
