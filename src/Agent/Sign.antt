-- ===== src/Agent/Sign.antt =====
-- `LpassAgent::sign` and what it calls in src/agent.rs. A call outside the agent returns the world as
-- it finds it afterwards, so a lock, another request's answer or a refresh of the served set can
-- fall into any of them.
pub mod Tests
pub mod Approval
pub mod Key
pub mod Authorised
pub mod Gated
use lastpass_ssh_agent.Ssh.{SshLibrary}
use lastpass_ssh_agent.Signing.{userauth_session_id}
use lastpass_ssh_agent.Signing.Keys.{SignError, sign_with_key}
use lastpass_ssh_agent.Lpass.{LpassError, locked, item_not_found, field_not_found}
use lastpass_ssh_agent.Requester.{Requester}
use lastpass_ssh_agent.Approvals.{
  Approvals, Answer, not_needed, remembered_answer, given, Voided, settle, remembered_in,
}
use lastpass_ssh_agent.Confirm.{
  PeerInfo, SessionBinding, ConfirmContext, Decision, approve, deny, describing, approval_question,
}
use lastpass_ssh_agent.Keystore.{KeyEntry, fingerprint_of, lookup}
use lastpass_ssh_agent.Passphrase.{UnlockerCalls, UnlockError, unlock}
use lastpass_ssh_agent.Interaction.{
  Progress, Task, pure, fail, next, ◌>>=◌, ◌>>◌, call, reads, lift, enter, map_fail, attempt,
  change,
}
use lastpass_ssh_agent.Prelude.{
  ℕ, Bool, true, false, not, Option, none, some, List, [], ◌∷◌, map, ◌==◌, if◌then◌else◌, last,
  is_empty, Bytes, Text, codes, bytes_eq, Result, ok, err, is_ok,
}

-- What stands in a refusal's log line.
pub data SignFailure : Type 0 where
  fetching : LpassError → SignFailure
  empty_private_key : SignFailure
  parsing : Text → SignFailure
  changed : SignFailure
  unlocking : UnlockError → SignFailure
  signing : SignError → SignFailure

-- `AgentError::Failure` of the ssh-agent-lib crate.
pub data AgentError : Type 0 where
  refused : AgentError

-- The calls of the agent's parts: the served set, the processes behind a pid, the approvals, the
-- names of hosts, the confirmer, the vault without and with a prompt, the remembered file, the
-- refresher, and the unlocker's.
pub record AgentCalls (ssh : SshLibrary) (W : Type 0) : Type 0 where
  pub current : W → List (KeyEntry ssh)
  pub requester_of : W → ℕ → Option Requester
  pub approvals : W → Approvals
  pub set_approvals : Approvals → W → W
  pub names_for : List Text → W → List (Option Text) × W
  pub confirm : ConfirmContext → W → Decision × W
  pub show_field : (item field : Text) → W → Result LpassError Bytes × W
  pub ask_field : (item field : Text) → W → Result LpassError Bytes × W
  pub remove : (path : Text) → W → W
  pub after_signature : W → W
  pub unlocker : UnlockerCalls W

-- What one connection's agent holds besides the parts it shares.
pub record Connection : Type 0 where
  pub peer : Option PeerInfo
  pub bindings : List SessionBinding
  pub remembered : Option Text
  pub refresher : Bool

pub record Fetch : Type 0 where
  pub key : Result LpassError Bytes
  pub asked : Bool

abbrev pub private_key_field : Text
private_key_field = codes "Private Key"

-- `zip` of the bindings with the names: where there are fewer names, the rest keep theirs.
pub with_names : List SessionBinding → List (Option Text) → List SessionBinding
with_names [] names = []
with_names (b ∷ bindings) [] = b ∷ bindings
with_names (b ∷ bindings) (name ∷ names) = record b { host_name = name } ∷ with_names bindings names

module _ (ssh : SshLibrary) {W : Type 0} (calls : AgentCalls ssh W) (agent : Connection) where
  open ssh use {
    PublicKey, KeyData, PrivateKey, Signature, to_bytes, key_data, key_eq, private_from_openssh,
    public_half, is_encrypted,
  }

  pub named_bindings : Task W AgentError (List SessionBinding)
  unfolding with_names
  named_bindings = do
    names ← call (calls.names_for (map (λ b. b.host_fingerprint) agent.bindings))
    pure (with_names agent.bindings names)

  -- `ConfirmContext::new`, at this moment.
  pub context : KeyEntry ssh → List SessionBinding → W → ConfirmContext
  context entry bindings w =
      describing (calls.requester_of w) entry.name (fingerprint_of ssh entry) entry.item_id
        agent.peer bindings

  pub recall : Option Text → W → Option ℕ
  recall none w = none
  recall (some question) w = remembered_in (calls.approvals w) question

  pub decided : Decision → ConfirmContext → Task W AgentError Answer
  decided approve ctx = do
    epoch ← reads (λ w. (calls.approvals w).epoch.locks)
    pure (given (approval_question ctx) epoch)
  decided deny ctx = fail refused

  pub confirmed : Option ℕ → ConfirmContext → Task W AgentError Answer
  unfolding decided
  confirmed (some epoch) ctx = pure (remembered_answer epoch)
  confirmed none ctx = do decision ← call (calls.confirm ctx); decided decision ctx

  -- Asked again once the gate is held.
  pub asked_again : Option ℕ → KeyEntry ssh → List SessionBinding → Task W AgentError Answer
  unfolding confirmed recall context enter
  asked_again (some epoch) entry bindings = pure (remembered_answer epoch)
  asked_again none entry bindings = do
    enter calls.unlocker.locked
    ctx ← reads (context entry bindings)
    answered ← reads (recall (approval_question ctx))
    confirmed answered ctx

  pub approval_for : KeyEntry ssh → Task W AgentError Answer
  unfolding named_bindings asked_again recall context
  approval_for entry = do
    bindings ← named_bindings
    ctx ← reads (context entry bindings)
    answered ← reads (recall (approval_question ctx))
    asked_again answered entry bindings

  pub ask_if_locked : KeyEntry ssh → Result LpassError Bytes → Task W AgentError Fetch
  unfolding enter
  ask_if_locked entry (err locked) = do
    enter calls.unlocker.locked
    before ← reads (λ w. (calls.approvals w).epoch.unlocks)
    key ← call (calls.ask_field entry.item_id private_key_field)
    after ← reads (λ w. (calls.approvals w).epoch.unlocks)
    pure (record { key = key; asked = not (after == before) })
  ask_if_locked entry key = pure (record { key = key; asked = false })

  pub fetch_private_key : KeyEntry ssh → Task W AgentError Fetch
  unfolding ask_if_locked
  fetch_private_key entry = do
    key ← call (calls.show_field entry.item_id private_key_field)
    ask_if_locked entry key

  -- `discard_remembered`.
  pub discard_remembered : W → W
  discard_remembered w = elim agent.remembered [ none ↦ w | some path ↦ calls.remove path w ]

  -- The vault's verdict on the key, against the vault being unavailable.
  pub is_absence : LpassError → Bool
  is_absence (item_not_found item) = true
  is_absence (field_not_found item field) = true
  is_absence _ = false

  pub fetched_pem : Result LpassError Bytes → Task W SignFailure Bytes
  unfolding is_absence discard_remembered
  fetched_pem (ok pem) = pure pem
  fetched_pem (err e) = do
    change (λ w. if is_absence e then discard_remembered w else w)
    fail (fetching e)

  pub same_key : KeyEntry ssh → PrivateKey → Task W SignFailure (Unit {0})
  unfolding discard_remembered
  same_key entry key =
      if not (key_eq (public_half key) (key_data entry.public))
      then change discard_remembered >> fail changed
      else pure tt

  pub usable_key : KeyEntry ssh → PrivateKey → Task W SignFailure PrivateKey
  usable_key entry key =
      if is_encrypted key
      then map_fail unlocking (unlock ssh calls.unlocker entry key)
      else pure key

  pub sign_with :
      KeyEntry ssh → Result LpassError Bytes → Bytes → (flags : ℕ) → Task W SignFailure Signature
  unfolding fetched_pem same_key usable_key
  sign_with entry fetched request flags = do
    pem ← fetched_pem fetched
    filled ← lift (λ e. e) (if is_empty pem then err empty_private_key else ok pem)
    key ← lift parsing (private_from_openssh filled)
    matched ← same_key entry key
    opened ← usable_key entry key
    lift signing (sign_with_key ssh opened request flags)

  -- A key that cannot be encoded matches no request.
  or_unencodable : Option Bytes → Bytes
  or_unencodable (some public_key) = public_key
  or_unencodable none = []

  pub encoded : PublicKey → Bytes
  unfolding or_unencodable
  encoded public = or_unencodable (to_bytes public)

  pub is_session : Option Bytes → SessionBinding → Bool
  is_session none bound = false
  is_session (some session_id) bound = bytes_eq session_id bound.session_id

  -- On a bound connection, a userauth request for the session bound last.
  pub is_for : Option SessionBinding → PublicKey → Bytes → Bool
  unfolding encoded is_session
  is_for none public request = true
  is_for (some bound) public request =
      is_session (userauth_session_id request (encoded public) bound.host_key) bound

  pub conclude :
      Result SignFailure Signature → Result Voided (Unit {0}) → Task W AgentError Signature
  conclude (ok signature) (ok settled) = do
    change (λ w. if agent.refresher then calls.after_signature w else w)
    pure signature
  conclude (ok signature) (err v) = fail refused
  conclude (err why) settled = fail refused

  -- `settle`, in place.
  pub settled : Answer → (asked signed : Bool) → Task W AgentError (Result Voided (Unit {0}))
  settled answer asked signed s =
      let (r, a) = settle (calls.approvals s.world) answer asked signed in
      (ok r, record s { world = calls.set_approvals a s.world })

  pub wind_up : Answer → (asked : Bool) → Result SignFailure Signature → Task W AgentError Signature
  unfolding settled conclude
  wind_up answer asked signed = do
    standing ← settled answer asked (is_ok signed)
    conclude signed standing

  pub answer_for : KeyEntry ssh → Task W AgentError Answer
  unfolding approval_for
  answer_for entry = if entry.confirm then approval_for entry else pure not_needed

  pub serve : KeyEntry ssh → Bytes → (flags : ℕ) → Task W AgentError Signature
  unfolding answer_for fetch_private_key sign_with wind_up
  serve entry request flags = do
    answer ← answer_for entry
    fetch ← fetch_private_key entry
    signed ← attempt (sign_with entry fetch.key request flags)
    wind_up answer fetch.asked signed

  pub found : Option (KeyEntry ssh) → Bytes → (flags : ℕ) → Task W AgentError Signature
  unfolding is_for serve
  found none request flags = fail refused
  found (some entry) request flags =
      if is_for (last agent.bindings) entry.public request
      then serve entry request flags
      else fail refused

  pub sign : (credential : KeyData) → Bytes → (flags : ℕ) → Task W AgentError Signature
  unfolding found
  sign credential request flags = do
    store ← reads calls.current
    found (lookup ssh store credential) request flags
