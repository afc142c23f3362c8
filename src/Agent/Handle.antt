-- ===== src/Agent/Handle.antt =====
-- `LpassAgent::handle` and `request_identities` of src/agent.rs. Each request starts without the gate
-- and gives it up at its end.
use lastpass_ssh_agent.Ssh.{SshLibrary}
use lastpass_ssh_agent.Keystore.{KeyEntry}
use lastpass_ssh_agent.Agent.{
  Extension, AgentLibrary, Identity, Response, failure, identities_answer, sign_response,
}
use lastpass_ssh_agent.Agent.Bindings.{handle_extension}
use lastpass_ssh_agent.Agent.Bindings.Chain.{IsChain, handle_extension-IsChain}
use lastpass_ssh_agent.Agent.Sign.{AgentCalls, AgentError, Connection, sign}
use lastpass_ssh_agent.Prelude.{ℕ, false, List, [], ◌∷◌, ◌++◌, map, Bytes, codes, Result, ok, err}

module _ (ssh : SshLibrary) where
  open ssh use {KeyData, Signature, key_data}

  -- `Request` of the ssh-agent-lib crate; the last stands for every other request.
  pub data Request : Type 0 where
    identities_request : Request
    sign_request : (credential : KeyData) → Bytes → (flags : ℕ) → Request
    extension_request : Extension → Request
    other_request : Request

  -- `format!("lastpass:{} ({})", ...)`.
  identity_of : KeyEntry ssh → Identity ssh
  identity_of entry = record {
    credential = key_data entry.public;
    comment = codes "lastpass:" ++ entry.item_id ++ codes " (" ++ entry.name ++ codes ")";
  }

  pub request_identities : List (KeyEntry ssh) → List (Identity ssh)
  unfolding identity_of
  request_identities entries = map identity_of entries

  signed_or_failure : Result AgentError Signature → Response ssh
  signed_or_failure (ok signature) = sign_response signature
  signed_or_failure (err e) = failure

  module _ {W : Type 0} (lib : AgentLibrary) (calls : AgentCalls ssh W) where
    pub handle : Connection → Request → W → Response ssh × Connection × W
    unfolding request_identities signed_or_failure
    handle agent identities_request w =
        (identities_answer (request_identities (calls.current w)), agent, w)
    handle agent (sign_request credential request flags) w =
        let (signed, s) =
          sign ssh calls agent credential request flags (record { held = false; world = w }) in
        (signed_or_failure signed, agent, s.world)
    handle agent (extension_request e) w =
        let (response, bindings) = handle_extension ssh lib agent.bindings e in
        (response, record agent { bindings = bindings }, w)
    handle agent other_request w = (failure, agent, w)

    -- A connection's requests, one after the other, with whatever the world does between them.
    pub handle_all : Connection → List (Request × W) → Connection
    unfolding handle
    handle_all agent [] = agent
    handle_all agent ((request, w) ∷ requests) = handle_all (handle agent request w).1 requests

    -- Whatever a peer sends, in any order and with any changes to the world in between, a
    -- connection whose bindings are a chain keeps them one: sixteen at most, each signed for by
    -- its host over its session id and within the bounds on size, no session twice, and all but
    -- the last forwarding the agent.
    pub handle_all-IsChain :
        (agent : Connection) (requests : List (Request × W))
        → IsChain ssh agent.bindings
        → IsChain ssh (handle_all agent requests).bindings
    unfolding handle_all handle
    handle_all-IsChain agent [] c = c
    handle_all-IsChain agent ((identities_request, w) ∷ rest) c = handle_all-IsChain agent rest c
    handle_all-IsChain agent ((sign_request k d f, w) ∷ rest) c = handle_all-IsChain agent rest c
    handle_all-IsChain agent ((other_request, w) ∷ rest) c = handle_all-IsChain agent rest c
    handle_all-IsChain agent ((extension_request e, w) ∷ rest) c =
        handle_all-IsChain
          (record agent { bindings = (handle_extension ssh lib agent.bindings e).1 }) rest
          (handle_extension-IsChain ssh lib agent.bindings e c)
