-- ===== src/Confirm.antt =====
-- src/confirm/mod.rs: what the user is asked to approve, the words of the prompt, and the question
-- that a remembered approval answers.
mod Tests
pub mod Encoding
pub mod Prompt
pub mod Question
use lastpass_ssh_agent.Text.{escape_for_display, display_bounded, decimal}
use lastpass_ssh_agent.Text.Separated.{join}
use lastpass_ssh_agent.Requester.{Requester, Ancestor}
use lastpass_ssh_agent.Prelude.{
  ℕ, Bool, Option, none, some, List, [], ◌∷◌, ◌++◌, map, if◌then◌else◌, ◌>>=◌, ◌>>◌, Bytes, Text,
  codes,
}

-- A pid from the socket is a natural number, when there is one.
pub record PeerInfo : Type 0 where
  pub pid : Option ℕ
  pub uid : ℕ

pub record SessionBinding : Type 0 where
  pub host_fingerprint : Text
  pub host_name : Option Text
  pub is_forwarding : Bool
  pub session_id : Bytes
  pub host_key : Bytes

pub record ConfirmContext : Type 0 where
  pub key_name : Text
  pub fingerprint : Text
  pub item_id : Text
  pub peer : Option PeerInfo
  pub requester : Option Requester
  pub bindings : List SessionBinding

pub data Decision : Type 0 where
  approve deny : Decision

-- `ConfirmContext::describing`, over the lookup of the process behind a pid.
unfoldable pub describing :
    (requester_of : ℕ → Option Requester) (key_name fingerprint item_id : Text)
    → Option PeerInfo
    → List SessionBinding
    → ConfirmContext
describing requester_of key_name fingerprint item_id peer bindings = record {
  key_name = key_name;
  fingerprint = fingerprint;
  item_id = item_id;
  peer = peer;
  requester = (do p ← peer; pid ← p.pid; requester_of pid);
  bindings = bindings;
}

-- The separators: between the items of a list, between the fields of a hop, and after each piece.
abbrev pub sep : ℕ
sep = 0x1f

abbrev pub field : ℕ
field = 0x1e

abbrev pub newline : ℕ
newline = 0x0a

pub shown_name : Option Text → Text
shown_name none = []
shown_name (some name) = escape_for_display name

pub hop : SessionBinding → Text
unfolding shown_name
hop b =
    escape_for_display b.host_fingerprint
    ++ (field ∷ shown_name b.host_name
        ++ (field ∷ (if b.is_forwarding then codes "forwarding" else [])))

pub pieces : ConfirmContext → PeerInfo → Requester → List Text
unfolding hop
pieces ctx peer requester =
    escape_for_display ctx.item_id
    ∷ escape_for_display ctx.fingerprint
    ∷ escape_for_display ctx.key_name
    ∷ requester.process
    ∷ decimal peer.uid
    ∷ join (sep ∷ []) (map (λ a. a.path) requester.origin)
    ∷ join (sep ∷ []) (map hop ctx.bindings)
    ∷ []

-- `question.push_str(&piece); question.push('\n')` for each piece.
lines_onto : Text → List Text → Text
lines_onto out [] = out
lines_onto out (piece ∷ rest) = lines_onto (out ++ (piece ++ newline ∷ [])) rest

unfoldable pub approval_question : ConfirmContext → Option Text
unfolding pieces lines_onto
approval_question ctx = do
  peer ← ctx.peer
  requester ← ctx.requester
  some (lines_onto [] (pieces ctx peer requester))
