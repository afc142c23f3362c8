-- ===== src/Agent/Sign/Tests.antt =====
-- The theorems on `LpassAgent::sign` at a bound connection and a user who approves.
use lastpass_ssh_agent.Ssh.Sample.{sample}
use lastpass_ssh_agent.Signing.Wire
use lastpass_ssh_agent.Signing.Format.{userauth}
use lastpass_ssh_agent.Signing.Keys
use lastpass_ssh_agent.Approvals.{Approvals, new, no_locks}
use lastpass_ssh_agent.Confirm.{SessionBinding, approve}
use lastpass_ssh_agent.Config.{error}
use lastpass_ssh_agent.Keystore.{KeyEntry}
use lastpass_ssh_agent.Interaction.{Progress}
use lastpass_ssh_agent.Passphrase.{UnlockerCalls}
use lastpass_ssh_agent.Agent.Sign.{AgentCalls, Connection, sign, confirmed, settled}
use lastpass_ssh_agent.Agent.Sign.Gated.{Allowed, sign-Keeps}
use lastpass_ssh_agent.Prelude.{◌≡◌, refl, Bool, true, false, none, [], ◌∷◌, Bytes, codes, ok}

pub record World : Type 0 where
  pub approvals : Approvals
  pub on_screen : Bool

abbrev pub key : Bytes
key = 4 ∷ 5 ∷ []

abbrev pub host : Bytes
host = 1 ∷ 2 ∷ 3 ∷ []

abbrev pub session : Bytes
session = 7 ∷ 8 ∷ []

abbrev pub entry : KeyEntry sample
entry = record {
  item_id = codes "12";
  name = codes "deploy";
  public = key;
  confirm = true;
  passphrase_fallback = error;
}

abbrev pub unlocker : UnlockerCalls World
unlocker = record {
  show_field = λ item field w. (ok [], w);
  prompt_for = λ r w. (ok (codes "pw"), record w { on_screen = true });
  get = λ fingerprint w. (ok none, record w { on_screen = true });
  set = λ fingerprint p w. (ok tt, w);
  locked = λ w. w;
}

abbrev pub calls : AgentCalls sample World
calls = record {
  current = λ w. entry ∷ [];
  requester_of = λ w pid. none;
  approvals = λ w. w.approvals;
  set_approvals = λ a w. record w { approvals = a };
  names_for = λ fingerprints w. ([], w);
  confirm = λ ctx w. (approve, record w { on_screen = true });
  show_field = λ item field w. (ok (0 ∷ key), w);
  ask_field = λ item field w. (ok (0 ∷ key), record w { on_screen = true });
  remove = λ path w. w;
  after_signature = λ w. w;
  unlocker = unlocker;
}

abbrev pub bound : SessionBinding
bound = record {
  host_fingerprint = host;
  host_name = none;
  is_forwarding = false;
  session_id = session;
  host_key = host;
}

abbrev pub agent : Connection
agent = record { peer = none; bindings = bound ∷ []; remembered = none; refresher = true }

abbrev pub request : Bytes
request = userauth session (9 ∷ []) (6 ∷ []) key host true

abbrev pub world : Bool → World
world on_screen = record { approvals = new true no_locks; on_screen = on_screen }

abbrev idle : Progress World
idle = record { held = false; world = world false }

abbrev done : Progress World
done = record { held = true; world = world true }

-- What is on the screen is there under the gate.
abbrev Gated : Progress World → Type 0
Gated s = s.world.on_screen ≡ true → s.held ≡ true

calls-Allowed : Allowed sample calls agent Gated
calls-Allowed = record {
  named = λ fps s g. g;
  confirmed = λ ctx s held g w. held;
  shown = λ item field s g. g;
  asked = λ item field s held g w. held;
  removed = λ path s g. g;
  told = λ s g. g;
  settled = λ a s g. g;
  unlocks = λ encrypted. record {
    shown = λ item field s g. g;
    waited = λ s g w. refl;
    prompted = λ r s held g w. held;
    got = λ fingerprint s held g w. held;
    saved = λ fingerprint p key s d held g. g;
  };
  waited = λ s g w. refl;
}

idle-Gated : Gated idle
idle-Gated w = cc

sign-Keeps_example : Gated (sign sample calls agent key request 0 idle).1
sign-Keeps_example = sign-Keeps sample calls agent Gated calls-Allowed key request 0 idle idle-Gated
