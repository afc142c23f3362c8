-- ===== src/Passphrase/Tests.antt =====
-- The theorems on src/passphrase.rs at an encrypted key whose passphrase has to be typed.
use lastpass_ssh_agent.Ssh.Sample.{sample}
use lastpass_ssh_agent.Config.{prompt}
use lastpass_ssh_agent.Keystore.{KeyEntry}
use lastpass_ssh_agent.Interaction.{Progress, enter}
use lastpass_ssh_agent.Passphrase.{
  UnlockerCalls, unlock, fall_back, ask, entered, request_for, decrypted,
}
use lastpass_ssh_agent.Passphrase.Verified.{Allows, unlock-Keeps}
use lastpass_ssh_agent.Passphrase.Opened.{IsOpened, unlock-IsOpened}
use lastpass_ssh_agent.Prelude.{
  ◌≡◌, refl, Bool, true, false, none, [], ◌∷◌, Bytes, codes, bytes_eq, ok,
}

-- The world is whether something has been put on the screen.
abbrev calls : UnlockerCalls Bool
calls = record {
  show_field = λ item field w. (ok [], w);
  prompt_for = λ r w. (ok (codes "pw"), true);
  get = λ fingerprint w. (ok none, true);
  set = λ fingerprint p w. (ok tt, w);
  locked = λ w. w;
}

abbrev entry : KeyEntry sample
entry = record {
  item_id = codes "12";
  name = codes "deploy";
  public = 4 ∷ 5 ∷ [];
  confirm = true;
  passphrase_fallback = prompt;
}

abbrev encrypted : Bytes
encrypted = 1 ∷ 4 ∷ 5 ∷ []

-- What is on the screen is there under the gate.
abbrev Gated : Progress Bool → Type 0
Gated s = s.world ≡ true → s.held ≡ true

calls-Allows : Allows sample calls Gated encrypted
calls-Allows = record {
  shown = λ item field s g. g;
  waited = λ s g w. refl;
  prompted = λ r s held g w. held;
  got = λ fingerprint s held g w. held;
  saved = λ fingerprint p key s d held g. g;
}

abbrev idle : Progress Bool
idle = record { held = false; world = false }

idle-Gated : Gated idle
idle-Gated w = cc

unlock-Keeps_example : Gated (unlock sample calls entry encrypted idle).1
unlock-Keeps_example = unlock-Keeps sample calls Gated entry encrypted calls-Allows idle idle-Gated

abbrev prompted : Progress Bool
prompted = record { held = true; world = true }

unlock_run : unlock sample calls entry encrypted idle ≡ (ok (0 ∷ 4 ∷ 5 ∷ []), prompted)
unfolding unlock fall_back ask entered request_for decrypted enter bytes_eq
unlock_run = refl

unlock-IsOpened_example : IsOpened sample calls entry encrypted (0 ∷ 4 ∷ 5 ∷ []) false
unlock-IsOpened_example =
    unlock-IsOpened sample calls entry encrypted idle (0 ∷ 4 ∷ 5 ∷ []) prompted unlock_run
