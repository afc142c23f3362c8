-- ===== src/Confirmers.antt =====
-- The confirmers of src/confirm: the helper program (src/confirm/askpass.rs), the dialog
-- (src/confirm/osascript.rs), the terminal (src/confirm/tty.rs), none (`NoConfirmer` of
-- src/confirm/mod.rs) and their choice (`from_config` there). What a program or the terminal returns
-- is given.
pub mod Closed
pub mod Chosen
mod Tests
use lastpass_ssh_agent.Prelude.{
  ℕ, zero, suc, ◌+◌, ◌-◌, ◌*◌, ◌/◌, ◌%◌, ◌^◌, ◌≤◌, ◌<◌, String, ◌≡◌, refl, sym, ap, ◌∙◌, ◌≢◌, ◌↔◌,
  ◌⊎◌, inl, inr, Bool, true, false, not, ◌&&◌, ◌||◌, Option, none, some, List, [], ◌∷◌, ◌++◌, map,
  append_assoc, append-nil, arith, ltb, leb, ◌==◌, if◌then◌else◌, ltb→lt, ltb→ge, lt→ltb, ==_iff,
  Bool-cases, Option-cases, is_some, length, take, drop, replicate, any, find, retain, last,
  is_empty, length-append, take-append, drop-append, take-append-drop, length-take, length-drop,
  any-append, last-snoc, All, All-append, All-retain, Bytes, Text, codes, bytes_eq, bytes_eq_refl,
  bytes_eq→eq, bytes_eq_iff, ◌>>=◌, ◌>>◌, guard, >>=-eq-some, guard-eq-some, some-eq, some_pair,
  Result, ok, err, is_ok, map_err, and_then, and_then-eq-ok, All-drop, All-last, length-replicate,
  take-append_le, take_all, All-take, All-append, retain-append, retain-middle, All-middle, AnyOf,
  AnyOf-middle, AnyOf-here, All-append_right,
}
use lastpass_ssh_agent.Config.{ConfirmMode, Config, osascript, tty, askpass, off}
use lastpass_ssh_agent.Confirm.{Decision, approve, deny}
use lastpass_ssh_agent.Terminal.{Typed, Line, read_line}
use lastpass_ssh_agent.Text.Search.{contains}

pub record Output : Type 0 where
  pub success : Bool
  pub stdout : Bytes

-- A program that was started for an answer.
pub data Child : Type 0 where
  not_started : (why : Text) → Child
  timed_out : Child
  wait_failed : (why : Text) → Child
  ended : Output → Child

unfoldable pub askpass_confirm : Child → Decision
askpass_confirm (ended output) = if output.success then approve else deny
askpass_confirm (wait_failed why) = deny
askpass_confirm timed_out = deny
askpass_confirm (not_started why) = deny

-- `text_of` is `String::from_utf8_lossy`.
unfoldable pub osascript_confirm : (text_of : Bytes → Text) → Child → Decision
osascript_confirm text_of (not_started why) = deny
osascript_confirm text_of (wait_failed why) = deny
osascript_confirm text_of timed_out = deny
osascript_confirm text_of (ended output) =
    let stdout = text_of output.stdout in
    if output.success
      && (contains (codes "button returned:Allow") stdout
          && not (contains (codes "gave up:true") stdout))
    then approve
    else deny

abbrev pub max_answer_bytes : ℕ
max_answer_bytes = 64

-- `is_ascii_whitespace`.
is_ascii_whitespace : ℕ → Bool
is_ascii_whitespace b = b == 0x20 || (b == 0x09 || (b == 0x0a || (b == 0x0c || b == 0x0d)))

trim_ascii_start : Bytes → Bytes
unfolding is_ascii_whitespace
trim_ascii_start [] = []
trim_ascii_start (b ∷ bs) =
    let rest = trim_ascii_start bs in if is_ascii_whitespace b then rest else b ∷ bs

trim_ascii_end : Bytes → Bytes
unfolding is_ascii_whitespace
trim_ascii_end [] = []
trim_ascii_end (b ∷ bs) =
    let rest = trim_ascii_end bs in if is_empty rest && is_ascii_whitespace b then [] else b ∷ rest

unfoldable pub trim_ascii : Bytes → Bytes
unfolding trim_ascii_start trim_ascii_end
trim_ascii bytes = trim_ascii_end (trim_ascii_start bytes)

-- Opening the terminal and writing the prompt, and what is typed there.
pub record Screen : Type 0 where
  pub shown : Result Text (Unit {0})
  pub typed : Typed

answered : Option (Result Text Line) → Option (Result Text Bool)
answered none = none
answered (some (err e)) = some (err e)
answered (some (ok line)) =
    some (ok (not line.too_long && bytes_eq (trim_ascii line.bytes) (codes "yes")))

-- `none` while the line is not complete.
unfoldable pub prompt_on_tty : Screen → Option (Result Text Bool)
unfolding answered
prompt_on_tty screen = elim screen.shown [
  | err e ↦ some (err e)
  | ok done ↦ answered (read_line max_answer_bytes [] false screen.typed)
]

-- A line that is not complete in time is a timeout.
decided_in_time : Option (Result Text Bool) → Decision
decided_in_time (some (ok true)) = approve
decided_in_time (some (ok false)) = deny
decided_in_time (some (err e)) = deny
decided_in_time none = deny

unfoldable pub tty_confirm : Screen → Decision
unfolding decided_in_time
tty_confirm screen = decided_in_time (prompt_on_tty screen)

pub data Confirmer : Type 0 where
  no_confirmer osascript_confirmer tty_confirmer : Confirmer
  askpass_confirmer : (program : Text) → Confirmer

-- `ok_or_else`.
with_helper : Option Text → Result Text Confirmer
with_helper none = err (codes "askpass mode without helper")
with_helper (some program) = ok (askpass_confirmer program)

confirmer_for : ConfirmMode → (helper : Option Text) → Result Text Confirmer
unfolding with_helper
confirmer_for off helper = ok no_confirmer
confirmer_for osascript helper = ok osascript_confirmer
confirmer_for tty helper = ok tty_confirmer
confirmer_for askpass helper = with_helper helper

pub from_config : Config → Result Text Confirmer
unfolding confirmer_for
from_config config = confirmer_for config.confirm config.askpass

-- What the dialog, a helper program and the terminal come to.
pub record Desk : Type 0 where
  pub dialog : Child
  pub helper : (program : Text) → Child
  pub screen : Screen

-- `Confirmer::confirm`.
unfoldable pub confirm : (text_of : Bytes → Text) → Confirmer → Desk → Decision
confirm text_of no_confirmer desk = approve
confirm text_of osascript_confirmer desk = osascript_confirm text_of desk.dialog
confirm text_of tty_confirmer desk = tty_confirm desk.screen
confirm text_of (askpass_confirmer program) desk = askpass_confirm (desk.helper program)
