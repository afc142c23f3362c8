-- ===== src/Confirm/Tests.antt =====
-- The theorems on src/confirm/mod.rs at concrete requests.
use lastpass_ssh_agent.Confirm.{ConfirmContext, SessionBinding, approval_question}
use lastpass_ssh_agent.Confirm.Question.{IsPresentable, words, question_iff}
use lastpass_ssh_agent.Confirm.Prompt.{describe_request}
use lastpass_ssh_agent.Confirm.Prompt.Display.{
  Prints, origin_lines, host_lines, describe_request-Prints,
}
use lastpass_ssh_agent.Text.Safety.{escape_for_display-IsClean}
use lastpass_ssh_agent.Text.{escape_for_display}
use lastpass_ssh_agent.Prelude.{
  suc, ◌+◌, ◌≡◌, ◌↔◌, true, none, some, List, [], ◌∷◌, ◌++◌, Text, codes, some-eq,
}

-- Two hops, or one whose fingerprint spells two.
abbrev hop_named : Text → SessionBinding
hop_named name = record {
  host_fingerprint = name;
  host_name = none;
  is_forwarding = true;
  session_id = [];
  host_key = [];
}

abbrev through : List SessionBinding → ConfirmContext
through bindings = record {
  key_name = codes "deploy";
  fingerprint = codes "SHA256:x";
  item_id = codes "12";
  peer = some (record { pid = some 30; uid = 501 });
  requester = some (record { process = escape_for_display (codes "ssh"); origin = [] });
  bindings = bindings;
}

through-IsPresentable : (bindings : List SessionBinding) → IsPresentable (through bindings)
through-IsPresentable bindings r e = rw (← some-eq e) (escape_for_display-IsClean (codes "ssh"), tt)

abbrev two_hops : ConfirmContext
two_hops = through (hop_named (codes "a") ∷ hop_named (codes "b") ∷ [])

abbrev one_hop : ConfirmContext
one_hop = through (hop_named (codes "a" ++ 0x1f ∷ codes "b") ∷ [])

question_iff_example :
    (approval_question two_hops ≡ approval_question one_hop) ↔ (words two_hops ≡ words one_hop)
question_iff_example =
    question_iff two_hops one_hop (through-IsPresentable two_hops.bindings)
      (through-IsPresentable one_hop.bindings)

describe_request-Prints_example :
    Prints
      (suc (
        suc (
          suc (
            suc (
              suc
                (origin_lines two_hops.peer two_hops.requester + host_lines two_hops.bindings))))))
      (describe_request two_hops)
describe_request-Prints_example =
    describe_request-Prints two_hops (through-IsPresentable two_hops.bindings)
