-- ===== src/Agent/Sign/Authorised.antt =====
-- What a signature that the agent returns has behind it.
use lastpass_ssh_agent.Ssh.{SshLibrary}
use lastpass_ssh_agent.Signing.{userauth_session_id}
use lastpass_ssh_agent.Signing.Keys.{sign_with_key}
use lastpass_ssh_agent.Approvals.{Answer, remembered_answer}
use lastpass_ssh_agent.Confirm.{SessionBinding}
use lastpass_ssh_agent.Keystore.{KeyEntry, lookup}
use lastpass_ssh_agent.Interaction.{Progress}
use lastpass_ssh_agent.Agent.Sign.{
  AgentCalls, Connection, Fetch, answer_for, fetch_private_key, sign_with, encoded,
}
use lastpass_ssh_agent.Agent.Sign.Approval.{IsApproved}
use lastpass_ssh_agent.Agent.Sign.Key.{IsVaultKey}
use lastpass_ssh_agent.Prelude.{false, ℕ, ◌≡◌, Bool, true, some, last, Bytes, ok}

module _ (ssh : SshLibrary) {W : Type 0} (calls : AgentCalls ssh W) (agent : Connection) where
  open ssh use {KeyData, PrivateKey, Signature}

  -- An answer from memory still stands in this world: it is from the current epoch, and nothing was
  -- asked for on the way.
  abbrev pub Stands : Answer → (asked : Bool) → W → Type 0
  Stands answer asked w =
      (n : ℕ)
      → answer ≡ remembered_answer n
      → (n ≡ (calls.approvals w).epoch.locks) × (asked ≡ false)

  -- What a request that starts at `s` has gone through.
  pub record IsAuthorised (credential : KeyData) (request : Bytes) (flags : ℕ) (s : Progress W)
      (signature : Signature) : Type 0 where
    pub entry : KeyEntry ssh
    pub served : lookup ssh (calls.current s.world) credential ≡ some entry
    pub session :
        (bound : SessionBinding)
        → last agent.bindings ≡ some bound
        → userauth_session_id request (encoded ssh calls agent entry.public) bound.host_key
          ≡ some bound.session_id
    pub answer : Answer
    pub after_answer : Progress W
    pub answered : answer_for ssh calls agent entry s ≡ (ok answer, after_answer)
    pub approved : entry.confirm ≡ true → IsApproved ssh calls agent entry s answer
    pub fetched : Fetch
    pub after_fetch : Progress W
    pub from_vault :
        fetch_private_key ssh calls agent entry after_answer ≡ (ok fetched, after_fetch)
    pub key : PrivateKey
    pub vault_key : IsVaultKey ssh calls agent entry fetched.key key
    pub signed : sign_with_key ssh key request flags ≡ ok signature
    pub stands :
        Stands answer fetched.asked
          (sign_with ssh calls agent entry fetched.key request flags after_fetch).1.world

  abbrev Answered : KeyEntry ssh → Progress W → Answer → Type 0
  Answered entry s answer = entry.confirm ≡ true → IsApproved ssh calls agent entry s answer
