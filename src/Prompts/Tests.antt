-- ===== src/Prompts/Tests.antt =====
-- Runs of src/passphrase.rs and its prompts.
use lastpass_ssh_agent.Prelude.{◌≡◌, refl, true, false, none, some, [], ◌∷◌, codes, ok, err}
use lastpass_ssh_agent.Prompts.{Helper, ended, timed_out, Desk, read_passphrase, strip_line_ending}
use lastpass_ssh_agent.Terminal.{read_line}

abbrev helper : Helper
helper = ended (record {
  stdout = ok (codes "hunter") ∷ ok (codes "2 \n") ∷ [];
  stderr = [];
  stderr_first = false;
  status = ok (record { success = true; signal = none });
})

abbrev desk : Desk
desk = record {
  dialog = timed_out;
  helper = λ program. helper;
  screen = record { shown = err (codes "no terminal"); typed = []; line_ended = ok tt };
}

-- One line ending is taken off, what stands before it belongs to the passphrase.
one_ending : strip_line_ending (codes "a\n\r\n") ≡ codes "a\n"
unfolding strip_line_ending
one_ending = refl

-- A passphrase that is too long is read to the end of its line, and refused.
drained :
    read_passphrase 1
      (record { shown = ok tt; typed = ok 0x61 ∷ ok 0x62 ∷ ok 0x0a ∷ []; line_ended = ok tt })
    ≡ (some (ok none), true)
unfolding read_passphrase read_line
drained = refl
