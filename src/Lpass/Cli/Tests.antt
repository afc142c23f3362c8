-- ===== src/Lpass/Cli/Tests.antt =====
-- The theorems on src/lpass/cli.rs where LastPass refuses the held password, where the vault is locked
-- and where a background call finds it so.
use lastpass_ssh_agent.Text.{
  invisible_ranges, escape_for_display, escape_onto, escape_char, is_control, is_invisible,
}
use lastpass_ssh_agent.Text.Search.{trim, contains, starts_with}
use lastpass_ssh_agent.Prelude.Maps.{insert}
use lastpass_ssh_agent.Prelude.{
  ◌++◌, ℕ, suc, ◌≤◌, String, ◌≡◌, refl, ◌≢◌, ◌↔◌, true, false, Option, none, some, List, [], ◌∷◌,
  if◌then◌else◌, length, Bytes, Text, codes, bytes_eq, ok, err,
}
use lastpass_ssh_agent.Config.{typed}
use lastpass_ssh_agent.Unlock.{locked_vault, from_prompt, password, rejected, touch}
use lastpass_ssh_agent.Lpass.{locked}
use lastpass_ssh_agent.Lpass.Cli.{max_listing_bytes, Client, unlock, held_only, show_field, ls}
use lastpass_ssh_agent.Lpass.Cli.Held.{Outside, Shared, shared_client, calls-open, show_field-drops}
use lastpass_ssh_agent.Lpass.Cli.Quiet.{quiet_calls, quietly}
use lastpass_ssh_agent.Lpass.Cli.Output.{
  max_field_bytes, Process, ended, outcome, Reads, read_output, delivered,
}
use lastpass_ssh_agent.Lpass.Cli.Output.Bounded.{read_output_iff}
use lastpass_ssh_agent.Lpass.Cli.Command.{child_environment, fed_line}
use lastpass_ssh_agent.Lpass.Cli.Command.Environment.{lookup-child_environment, expected}
use lastpass_ssh_agent.Prelude.Maps.{lookup, insert}

-- A program that refuses what it is fed, and needs the key when it is fed nothing.
abbrev said : String → Process
said message = ended (record {
  stdout = [];
  stderr = ok (codes message) ∷ [];
  stderr_first = false;
  status = ok (record { success = false; code = some 1 });
})

abbrev reply : Option Bytes → Process
reply none = said "Could not find decryption key."
reply (some line) = said "Incorrect master password."

abbrev outside : Outside ℕ
outside = record {
  text_of = λ b. b;
  describe = λ e. codes "dismissed";
  inputs = λ n. ((n, ok none, ok (codes "guess")), suc n);
  lpass = λ args env stdin n. (reply stdin, suc n);
}

abbrev shut : Shared ℕ
shut = record { unlock = locked_vault; outside = 0 }

abbrev opened : Shared ℕ
opened = record {
  unlock = record locked_vault {
    held = some (record { secret = codes "old"; source = from_prompt; last_used = 0 });
  };
  outside = 0;
}

abbrev vars : List (Text × Text)
vars = (codes "HOME", codes "/home/u") ∷ (codes "LPASS_ASKPASS", codes "/bin/ask") ∷ []

calls-open_example :
    ((show_field (shared_client typed outside) vars unlock (codes "7") (codes "NoteType") shut).0
      ≢ err locked)
    × ((ls (shared_client typed outside) vars unlock shut).0 ≢ err locked)
calls-open_example = calls-open typed outside vars (codes "7") (codes "NoteType") shut

show_field-drops_example :
    (show_field
      (shared_client typed outside)
      vars
      unlock
      (codes "7")
      (codes "NoteType")
      opened).1.unlock.held
    ≡ none
unfolding show_field shared_client password rejected touch outcome read_output fed_line
    child_environment bytes_eq insert starts_with escape_for_display escape_onto escape_char
    is_control is_invisible contains trim invisible_ranges
show_field-drops_example =
    show_field-drops typed outside vars unlock (codes "7") (codes "NoteType") opened tt refl

-- The world of a background call counts: what is read before, and what runs.
abbrev counting : Client (ℕ × ℕ)
counting = record {
  text_of = λ b. b;
  password = λ ask w. (ok (some (codes "pw")), (if ask then 9 else w.0, w.1));
  rejected = λ w. w;
  touch = λ w. (9, w.1);
  lpass = λ args env stdin w. (reply stdin, (w.0, suc w.1));
}

quiet_calls_example :
    ((show_field counting vars held_only (codes "7") (codes "NoteType") (0, 0)).1
      ≡ quietly counting vars
          (codes "show" ∷ (codes "--field=" ++ codes "NoteType") ∷ codes "7" ∷ [])
          max_field_bytes
          (0, 0))
    × ((ls counting vars held_only (0, 0)).1
        ≡ quietly counting vars (codes "ls" ∷ codes "--color=never" ∷ []) max_listing_bytes (0, 0))
quiet_calls_example = quiet_calls counting vars (codes "7") (codes "NoteType") (0, 0)

abbrev pipe : Reads
pipe = ok (codes "SSH") ∷ ok (codes " Key\n") ∷ []

read_output_iff_example :
    (read_output 64 pipe ≡ ok (codes "SSH Key\n"))
    ↔ ((delivered pipe ≡ some (codes "SSH Key\n")) × (length (codes "SSH Key\n") ≤ 64))
read_output_iff_example = read_output_iff 64 pipe (codes "SSH Key\n")

lookup-child_environment_example :
    lookup (codes "LPASS_ASKPASS") (child_environment vars true)
    ≡ expected true vars (codes "LPASS_ASKPASS")
unfolding lookup bytes_eq
lookup-child_environment_example =
    lookup-child_environment vars true (codes "LPASS_ASKPASS") (refl, (refl, tt))
