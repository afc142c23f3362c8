-- ===== src/Agent/Bindings/Tests.antt =====
-- The theorems on `LpassAgent::handle_extension` at a binding that its host signed.
use lastpass_ssh_agent.Ssh.Sample.{sample}
use lastpass_ssh_agent.Signing.Format.{bind_request}
use lastpass_ssh_agent.Confirm.{SessionBinding}
use lastpass_ssh_agent.Agent.{Extension, AgentLibrary}
use lastpass_ssh_agent.Agent.Bindings.Replay.{after, handle_extension_replay}
use lastpass_ssh_agent.Prelude.{◌≡◌, false, none, [], ◌∷◌, ◌++◌, Bytes, codes}

abbrev host : Bytes
host = 1 ∷ 2 ∷ 3 ∷ []

abbrev session : Bytes
session = 7 ∷ 8 ∷ []

abbrev bound : SessionBinding
bound = record {
  host_fingerprint = host;
  host_name = none;
  is_forwarding = false;
  session_id = session;
  host_key = host;
}

abbrev pub lib : AgentLibrary
lib = record {
  query_name = codes "query";
  session_bind_name = codes "session-bind@openssh.com";
  new_message = λ names. none;
}

abbrev pub binding : Extension
binding = record {
  name = codes "session-bind@openssh.com";
  details = bind_request host session (host ++ session) 0;
}

handle_extension_replay_example :
    after sample lib (after sample lib [] binding) binding ≡ after sample lib [] binding
handle_extension_replay_example = handle_extension_replay sample lib [] binding
