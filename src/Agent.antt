-- ===== src/Agent.antt =====
-- src/agent.rs: what one connection asks the agent, and what the agent answers.
mod Tests
pub mod Bindings
pub mod Sign
pub mod Handle
use lastpass_ssh_agent.Ssh.{SshLibrary}
use lastpass_ssh_agent.Prelude.{ℕ, Option, List, Bytes, Text}

-- `Extension` of the ssh-agent-lib crate, which is not part of this repository.
pub record Extension : Type 0 where
  pub name : Text
  pub details : Bytes

-- `QueryResponse::NAME`, `SessionBind::NAME`, and `Extension::new_message` of a query's response.
pub record AgentLibrary : Type 0 where
  pub query_name : Text
  pub session_bind_name : Text
  pub new_message : (extensions : List Text) → Option Extension

module _ (ssh : SshLibrary) where
  open ssh use {KeyData, Signature}

  pub record Identity : Type 0 where
    pub credential : KeyData
    pub comment : Text

  pub data Response : Type 0 where
    failure success : Response
    identities_answer : List Identity → Response
    sign_response : Signature → Response
    extension_response : Extension → Response
