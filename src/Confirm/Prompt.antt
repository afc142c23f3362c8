-- ===== src/Confirm/Prompt.antt =====
-- src/confirm/mod.rs, `describe_request`: the words of the prompt, shared by every confirmer.
pub mod Display
use lastpass_ssh_agent.Text.{escape_for_display, display_bounded, decimal}
use lastpass_ssh_agent.Text.Separated.{join}
use lastpass_ssh_agent.Requester.{Requester, Ancestor}
use lastpass_ssh_agent.Confirm.{PeerInfo, SessionBinding, ConfirmContext, newline}
use lastpass_ssh_agent.Prelude.{
  ℕ, Option, none, some, List, [], ◌∷◌, ◌++◌, map, if◌then◌else◌, any, Text, codes,
}

abbrev pub arrow : Text
arrow = codes " → "

-- ` (pid {}, uid {})`; a requester is only ever looked up by a pid.
process_ids : PeerInfo → Text
process_ids peer =
    let pid : ℕ = elim peer.pid [ some pid ↦ pid | none ↦ 0 ] in
    codes " (pid " ++ (decimal pid ++ (codes ", uid " ++ (decimal peer.uid ++ codes ")")))

started_from : List Ancestor → Text
started_from [] = []
started_from (a ∷ rest) =
    newline ∷ codes "Started from: " ++ join arrow (map (λ a. a.name) (a ∷ rest))

unknown_process : PeerInfo → Text
unknown_process peer = elim peer.pid [
  | none ↦ codes "uid " ++ decimal peer.uid
  | some pid ↦
      codes "unknown process (pid "
      ++ (decimal pid ++ (codes ", uid " ++ (decimal peer.uid ++ codes ")")))
]

unfoldable pub requested_by : Option PeerInfo → Option Requester → Text
unfolding process_ids started_from unknown_process
requested_by none requester = codes "unknown"
requested_by (some peer) none = unknown_process peer
requested_by (some peer) (some requester) =
    requester.process ++ (process_ids peer ++ started_from requester.origin)

or_fingerprint : Option Text → Text → Text
or_fingerprint none fingerprint = fingerprint
or_fingerprint (some name) fingerprint = name

unfoldable pub shown_hop : SessionBinding → Text
unfolding or_fingerprint
shown_hop b =
    display_bounded (or_fingerprint b.host_name b.host_fingerprint)
    ++ (if b.is_forwarding then codes " (forwarding the agent onward)" else [])

abbrev pub warning : Text
warning =
    newline
    ∷ newline
    ∷ codes
        "WARNING: the agent is forwarded to a host below — this request may have originated there rather than on this machine."

unfoldable pub session_lines : List SessionBinding → Text
session_lines [] = []
session_lines (b ∷ bs) =
    (if any (λ b. b.is_forwarding) (b ∷ bs) then warning else [])
    ++ (newline ∷ codes "SSH session: " ++ join arrow (map shown_hop (b ∷ bs)))

unfoldable pub describe_request : ConfirmContext → Text
describe_request ctx =
    codes "SSH signature request"
    ++ (newline ∷ newline ∷ codes "Key: "
        ++ (display_bounded ctx.key_name
            ++ (newline ∷ codes "Fingerprint: "
                ++ (escape_for_display ctx.fingerprint
                    ++ (newline ∷ codes "LastPass item: "
                        ++ (escape_for_display ctx.item_id
                            ++ (newline ∷ codes "Requested by: "
                                ++ (requested_by ctx.peer ctx.requester
                                    ++ session_lines ctx.bindings))))))))
