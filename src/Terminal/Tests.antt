-- ===== src/Terminal/Tests.antt =====
-- Runs of src/confirm/tty.rs at small inputs.
use lastpass_ssh_agent.Prelude.{◌≡◌, refl, true, false, some, [], ◌∷◌, ok}
use lastpass_ssh_agent.Terminal.{read_line}

drained :
    read_line 1 [] false (ok 0x61 ∷ ok 0x62 ∷ ok 0x0a ∷ ok 0x63 ∷ [])
    ≡ some (ok (record { bytes = 0x61 ∷ []; too_long = true; left = ok 0x63 ∷ [] }))
unfolding read_line
drained = refl
