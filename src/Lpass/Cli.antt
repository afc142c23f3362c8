-- ===== src/Lpass/Cli.antt =====
-- src/lpass/cli.rs: a call of the `lpass` program, fed the master password where it needs it. What one
-- process of it does is a value; the rest of the outside is threaded as the world `W`.
pub mod Output
pub mod Command
pub mod Locked
pub mod Refused
pub mod Held
pub mod Quiet
mod Tests
use lastpass_ssh_agent.Prelude.{
  ℕ, ◌*◌, Bool, true, false, not, ◌&&◌, ◌||◌, Option, none, some, List, [], ◌∷◌, ◌++◌,
  if◌then◌else◌, is_some, find, Bytes, Text, codes, ◌>>=◌, Result, ok, err, map_err,
}
use lastpass_ssh_agent.Lpass.{
  LpassError, ItemSummary, not_logged_in, locked, wrong_master_password, no_master_password,
  item_not_found, field_not_found, timeout, spawn, command_failed,
}
use lastpass_ssh_agent.Lpass.Listing.{parse_listing}
use lastpass_ssh_agent.Lpass.Cli.Output.{Process, CmdOutput, outcome, max_field_bytes}
use lastpass_ssh_agent.Lpass.Cli.Command.{child_environment, fed_line}
use lastpass_ssh_agent.Text.Search.{contains, split_once}

-- `MasterPasswordSource`; `without` is its `None`.
pub data MasterPasswordSource : Type 0 where
  without : MasterPasswordSource
  fixed : Bytes → MasterPasswordSource
  unlock : MasterPasswordSource
  held_only : MasterPasswordSource

-- What a call reaches: the held password (`Unlock`), and a process of the program, given its
-- arguments, its environment and what it is fed.
pub record Client (W : Type 0) : Type 0 where
  -- `String::from_utf8_lossy`.
  pub text_of : Bytes → Text
  pub password : (ask : Bool) → W → Result Text (Option Bytes) × W
  pub rejected : W → W
  pub touch : W → W
  pub lpass :
      (args : List Text) (environment : List (Text × Text)) (stdin : Option Bytes) → W → Process × W

abbrev pub max_listing_bytes : ℕ
max_listing_bytes = 16 * 1024 * 1024

-- `unwrap_or_default`.
abbrev pub or_nothing : Result Text (Option Bytes) → Option Bytes
or_nothing (ok password) = password
or_nothing (err e) = none

pub locked_out : CmdOutput → Bool
locked_out out =
    not out.success && not out.fed && contains (codes "Could not find decryption key") out.stderr

pub says_refused : CmdOutput → Bool
says_refused out = contains (codes "Incorrect master password") out.stderr

-- The field that a complaint names, between its quotes.
missing_field : Text → Option Text
missing_field stderr =
    split_once (codes "Could not find specified field '") stderr >>= λ (before, rest).
    split_once (codes "'") rest >>= λ (field, after). some field

of_item : Text → CmdOutput → Option Text → LpassError
of_item id out (some field) = field_not_found id field
of_item id out none = command_failed out.code out.stderr

about_item : Option Text → CmdOutput → LpassError
unfolding missing_field of_item
about_item none out = command_failed out.code out.stderr
about_item (some id) out =
    if contains (codes "Could not find specified account") out.stderr
    then item_not_found id
    else of_item id out (missing_field out.stderr)

pub classify : Option Text → CmdOutput → LpassError
unfolding says_refused about_item
classify item_id out =
    if says_refused out
    then wrong_master_password
    else if contains (codes "Could not find decryption key") out.stderr
    then (if out.fed then not_logged_in else locked)
    else if contains (codes "Not logged in") out.stderr
        || contains (codes "Could not find session") out.stderr
    then not_logged_in
    else about_item item_id out

module _ {W : Type 0} (client : Client W) (vars : List (Text × Text)) where
  source_held : MasterPasswordSource → W → Option Bytes × W
  source_held without w = (none, w)
  source_held (fixed secret) w = (some secret, w)
  source_held unlock w = let (r, w') = client.password false w in (or_nothing r, w')
  source_held held_only w = let (r, w') = client.password false w in (or_nothing r, w')

  source_asked : MasterPasswordSource → W → Result LpassError (Option Bytes) × W
  source_asked unlock w = let (r, w') = client.password true w in (map_err no_master_password r, w')
  source_asked _ w = (ok none, w)

  source_rejected : MasterPasswordSource → W → W
  source_rejected unlock w = client.rejected w
  source_rejected held_only w = client.rejected w
  source_rejected _ w = w

  source_used : MasterPasswordSource → W → W
  source_used unlock w = client.touch w
  source_used _ w = w

  -- The password goes in over stdin, never among the arguments.
  pub exec : List Text → Option Bytes → (max_bytes : ℕ) → W → Result LpassError CmdOutput × W
  exec args password max_bytes w =
      let (process, w') =
        client.lpass args (child_environment vars (is_some password)) (fed_line password) w in
      (outcome client.text_of (is_some password) max_bytes process, w')

  -- Once more with the password that was asked for, if there is one.
  again :
      List Text
      → (max_bytes : ℕ) → CmdOutput
      → Result LpassError (Option Bytes) × W
      → Result LpassError CmdOutput × W
  unfolding exec
  again args max_bytes out (err e, w) = (err e, w)
  again args max_bytes out (ok none, w) = (ok out, w)
  again args max_bytes out (ok (some password), w) = exec args (some password) max_bytes w

  retried :
      MasterPasswordSource
      → List Text
      → (max_bytes : ℕ) → Result LpassError CmdOutput × W
      → Result LpassError CmdOutput × W
  unfolding again source_asked locked_out
  retried source args max_bytes (err e, w) = (err e, w)
  retried source args max_bytes (ok out, w) =
      if locked_out out then again args max_bytes out (source_asked source w) else (ok out, w)

  noted : MasterPasswordSource → Result LpassError CmdOutput × W → Result LpassError CmdOutput × W
  unfolding source_rejected source_used says_refused
  noted source (err e, w) = (err e, w)
  noted source (ok out, w) =
      (ok out, source_used source (if says_refused out then source_rejected source w else w))

  pub run : MasterPasswordSource → List Text → (max_bytes : ℕ) → W → Result LpassError CmdOutput × W
  unfolding source_held exec retried noted
  run source args max_bytes w =
      let (password, w') = source_held source w in
      noted source (retried source args max_bytes (exec args password max_bytes w'))

  -- What a call returns of its output.
  shown_field : Text → Result LpassError CmdOutput → Result LpassError Bytes
  unfolding classify
  shown_field id (err e) = err e
  shown_field id (ok out) = if not out.success then err (classify (some id) out) else ok out.stdout

  pub show_field : MasterPasswordSource → (item_id field : Text) → W → Result LpassError Bytes × W
  unfolding run shown_field
  show_field source item_id field w =
      let args = codes "show" ∷ (codes "--field=" ++ field) ∷ item_id ∷ [] in
      let (out, w') = run source args max_field_bytes w in (shown_field item_id out, w')

  listed : Result LpassError CmdOutput → Result LpassError (List ItemSummary)
  unfolding classify
  listed (err e) = err e
  listed (ok out) =
      if not out.success
      then err (classify none out)
      else ok (parse_listing (client.text_of out.stdout))

  pub ls : MasterPasswordSource → W → Result LpassError (List ItemSummary) × W
  unfolding run listed
  ls source w =
      let args = codes "ls" ∷ codes "--color=never" ∷ [] in
      let (out, w') = run source args max_listing_bytes w in (listed out, w')
