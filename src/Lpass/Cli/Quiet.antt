-- ===== src/Lpass/Cli/Quiet.antt =====
-- What a call of src/lpass/cli.rs that may not ask reaches.
use lastpass_ssh_agent.Prelude.{
  none, some, ◌≡◌, refl, [], ◌∷◌, ◌++◌, codes, if◌then◌else◌, ℕ, inl, inr, false, Option, List,
  Bool-cases, is_some, Bytes, Text, Result, ok, err,
}
use lastpass_ssh_agent.Lpass.{LpassError}
use lastpass_ssh_agent.Lpass.Cli.{
  Client, or_nothing, max_listing_bytes, held_only, says_refused, locked_out, show_field, ls, run,
  retried, noted, again, exec, source_asked, source_held, source_used, source_rejected,
}
use lastpass_ssh_agent.Lpass.Cli.Output.{CmdOutput, Process, outcome, max_field_bytes}
use lastpass_ssh_agent.Text.Search.{contains}
use lastpass_ssh_agent.Lpass.Cli.Command.{child_environment, fed_line}

-- The password on its line.
abbrev pub fed : Option Bytes → Option Bytes
fed none = none
fed (some password) = some (password ++ 0x0a ∷ [])

fed_line-fed : (password : Option Bytes) → fed_line password ≡ fed password
unfolding fed_line
fed_line-fed none = refl
fed_line-fed (some password) = refl

module _ {W : Type 0} (client : Client W) (vars : List (Text × Text)) where
  -- One process, with the password that is held, if one is.
  abbrev pub ran : (args : List Text) → Result Text (Option Bytes) × W → Process × W
  ran args (held, w) =
      client.lpass args (child_environment vars (is_some (or_nothing held))) (fed (or_nothing held))
        w

  -- Its end: the password is dropped if the output says that it was refused.
  abbrev pub ends_with : Result LpassError CmdOutput → W → W
  ends_with (err e) w = w
  ends_with (ok out) w =
      if contains (codes "Incorrect master password") out.stderr then client.rejected w else w

  -- The world behind a call that reads what is held without asking and runs one process.
  abbrev pub quietly : (args : List Text) (max_bytes : ℕ) → W → W
  quietly args max_bytes w =
      let held = client.password false w in
      let (process, w') = ran args held in
      ends_with (outcome client.text_of (is_some (or_nothing held.0)) max_bytes process) w'

  noted-retried :
      (args : List Text) (max_bytes : ℕ) (r : Result LpassError CmdOutput × W)
      → (noted client vars held_only (retried client vars held_only args max_bytes r)).1
        ≡ ends_with r.0 r.1
  unfolding noted retried again source_asked source_used source_rejected says_refused
  noted-retried args max_bytes (err e, w) = refl
  noted-retried args max_bytes (ok out, w) = elim (Bool-cases (locked_out out)) [
    | inl l ↦ rw l
    | inr l ↦ rw l
  ]

  run-quietly :
      (args : List Text) (max_bytes : ℕ) (w : W)
      → (run client vars held_only args max_bytes w).1 ≡ quietly args max_bytes w
  unfolding run source_held exec outcome child_environment fed_line
  run-quietly args max_bytes w =
      let held = source_held client vars held_only w in
      rw (← fed_line-fed held.0)
        (noted-retried args max_bytes (exec client vars args held.0 max_bytes held.1))

  -- A call that may not ask, for a field or for the listing, does to the world just this: it reads
  -- what is held without asking, runs one lpass process with the arguments of the call, the
  -- environment for that password and the password on a line as its input, or no input where none
  -- is held, and drops the password exactly if the output says that it was refused. It neither
  -- prompts, nor runs a second process, nor prolongs the hold.
  pub quiet_calls :
      (id field : Text) (w : W)
      → ((show_field client vars held_only id field w).1
          ≡ quietly (codes "show" ∷ (codes "--field=" ++ field) ∷ id ∷ []) max_field_bytes w)
        × ((ls client vars held_only w).1
            ≡ quietly (codes "ls" ∷ codes "--color=never" ∷ []) max_listing_bytes w)
  unfolding show_field ls
  quiet_calls id field w = (run-quietly _ _ w, run-quietly _ _ w)
