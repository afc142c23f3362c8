-- ===== src/Agent/Bindings.antt =====
-- `LpassAgent::handle_extension` of src/agent.rs: the hosts that a connection is bound to.
pub mod Tests
pub mod Outcome
pub mod Chain
pub mod Replay
use lastpass_ssh_agent.Ssh.{SshLibrary}
use lastpass_ssh_agent.Signing.{session_bind, SessionBindRequest}
use lastpass_ssh_agent.Signing.Keys.{bound_host_key, BindError}
use lastpass_ssh_agent.Confirm.{SessionBinding}
use lastpass_ssh_agent.Agent.{
  Extension, AgentLibrary, Response, failure, success, extension_response,
}
use lastpass_ssh_agent.Prelude.{
  ℕ, ◌*◌, Bool, false, not, ◌&&◌, Option, none, some, List, [], ◌∷◌, ◌++◌, ltb, leb, if◌then◌else◌,
  length, any, last, bytes_eq, Result, ok, err,
}

abbrev pub max_session_bindings : ℕ
max_session_bindings = 16

abbrev pub max_session_id_bytes : ℕ
max_session_id_bytes = 128

abbrev pub max_host_key_bytes : ℕ
max_host_key_bytes = 64 * 1024

-- Whether the last hop is the connection's destination.
pub at_destination : List SessionBinding → Bool
at_destination bindings = elim (last bindings) [ none ↦ false | some b ↦ not b.is_forwarding ]

pub same_session : SessionBindRequest → SessionBinding → Bool
same_session bind seen = bytes_eq seen.session_id bind.session_id

pub same_binding : SessionBindRequest → SessionBinding → Bool
unfolding same_session
same_binding bind seen = bytes_eq seen.host_key bind.host_key && same_session bind seen

module _ (ssh : SshLibrary) where
  open ssh use {KeyData, fingerprint}

  pub binding_of : SessionBindRequest → KeyData → SessionBinding
  binding_of bind host_key = record {
    host_fingerprint = fingerprint host_key;
    host_name = none;
    is_forwarding = bind.is_forwarding;
    session_id = bind.session_id;
    host_key = bind.host_key;
  }

  -- A binding whose host signed for it, against those the connection has.
  pub append :
      List SessionBinding → SessionBindRequest → KeyData → Response ssh × List SessionBinding
  unfolding at_destination same_binding same_session binding_of
  append bindings bind host_key =
      if at_destination bindings
      then (failure, bindings)
      else if any (same_binding bind) bindings
      then (success, bindings)
      else if any (same_session bind) bindings
      then (failure, bindings)
      else if leb max_session_bindings (length bindings)
      then (failure, bindings)
      else (success, bindings ++ binding_of bind host_key ∷ [])

  pub hosted :
      List SessionBinding
      → SessionBindRequest
      → Result BindError KeyData
      → Response ssh × List SessionBinding
  unfolding append
  hosted bindings bind (err e) = (failure, bindings)
  hosted bindings bind (ok host_key) = append bindings bind host_key

  pub verified : List SessionBinding → SessionBindRequest → Response ssh × List SessionBinding
  unfolding hosted
  verified bindings bind = hosted bindings bind (bound_host_key ssh bind)

  pub sized : List SessionBinding → SessionBindRequest → Response ssh × List SessionBinding
  unfolding verified
  sized bindings bind =
      if ltb max_session_id_bytes (length bind.session_id)
      then (failure, bindings)
      else if ltb max_host_key_bytes (length bind.host_key)
      then (failure, bindings)
      else verified bindings bind

  pub bound : List SessionBinding → Option SessionBindRequest → Response ssh × List SessionBinding
  unfolding sized
  bound bindings none = (failure, bindings)
  bound bindings (some bind) = sized bindings bind

  answer_query : Option Extension → Response ssh
  answer_query none = failure
  answer_query (some e) = extension_response e

  pub handle_extension :
      AgentLibrary → List SessionBinding → Extension → Response ssh × List SessionBinding
  unfolding bound answer_query
  handle_extension lib bindings extension =
      if bytes_eq extension.name lib.query_name
      then (answer_query (lib.new_message (lib.session_bind_name ∷ [])), bindings)
      else if not (bytes_eq extension.name lib.session_bind_name)
      then (failure, bindings)
      else bound bindings (session_bind extension.details)
