-- ===== src/Agent/Bindings/Replay.antt =====
-- Repeating a request to a connection, and a connection that is at its destination.
use lastpass_ssh_agent.Ssh.{SshLibrary}
use lastpass_ssh_agent.Signing.{SessionBindRequest}
use lastpass_ssh_agent.Confirm.{SessionBinding}
use lastpass_ssh_agent.Agent.{Extension, AgentLibrary}
use lastpass_ssh_agent.Agent.Bindings.{at_destination, same_session, binding_of, handle_extension}
use lastpass_ssh_agent.Agent.Bindings.Outcome.{handle_extension-Outcome}
use lastpass_ssh_agent.Prelude.{
  ◌≡◌, sym, ap, ◌∙◌, inl, inr, true, List, [], ◌∷◌, ◌++◌, arith, any, any-append, bytes_eq_iff,
  some-eq,
}

module _ (ssh : SshLibrary) where
  -- The state behind a request.
  pub after : AgentLibrary → List SessionBinding → Extension → List SessionBinding
  after lib bindings e = (handle_extension ssh lib bindings e).1

  -- Once the last hop of a connection does not forward the agent, no request changes its bindings.
  pub handle_extension_at_destination :
      (lib : AgentLibrary) (bindings : List SessionBinding) (e : Extension)
      → at_destination bindings ≡ true
      → after lib bindings e ≡ bindings
  unfolding after
  handle_extension_at_destination lib bindings e d =
      elim (handle_extension-Outcome ssh lib bindings e) [
        | inl same ↦ same
        | inr (b, j, grown) ↦ ground (arith, j.open_ended)
      ]

  any-same_session :
      (bindings : List SessionBinding) (b : SessionBinding) (bind : SessionBindRequest)
      → b.session_id ≡ bind.session_id
      → any (same_session bind) (bindings ++ b ∷ []) ≡ true
  unfolding same_session
  any-same_session bindings b bind h = ground (
    arith,
    any-append (same_session bind) bindings (b ∷ []),
    bytes_eq_iff b.session_id bind.session_id,
  )

  -- A request that is sent again changes nothing that it has not changed the first time.
  pub handle_extension_replay :
      (lib : AgentLibrary) (bindings : List SessionBinding) (e : Extension)
      → after lib (after lib bindings e) e ≡ after lib bindings e
  unfolding after binding_of
  handle_extension_replay lib bindings e = elim (handle_extension-Outcome ssh lib bindings e) [
    | inl same ↦ rw same same
    | inr (b, j, grown) ↦ rw grown (elim (handle_extension-Outcome ssh lib (bindings ++ b ∷ []) e) [
      | inl same ↦ same
      | inr (c, k, _) ↦
          let one = some-eq (sym j.read ∙ k.read) in
          let seen = any-same_session bindings b j.bind (ap (λ x. x.session_id) j.shown) in
          let fresh = ap (λ x. any (same_session x) (bindings ++ b ∷ [])) one ∙ k.session_new in cc
    ])
  ]
