-- ===== src/Agent/Bindings/Chain.antt =====
-- What a connection's bindings are, whatever its peer sends.
use lastpass_ssh_agent.Ssh.{SshLibrary}
use lastpass_ssh_agent.Signing.{SessionBindRequest}
use lastpass_ssh_agent.Signing.Bound.{IsSigned, bound_host_key-IsSigned}
use lastpass_ssh_agent.Confirm.{SessionBinding}
use lastpass_ssh_agent.Agent.{Extension, AgentLibrary}
use lastpass_ssh_agent.Agent.Bindings.{at_destination, same_session, binding_of, handle_extension}
use lastpass_ssh_agent.Agent.Bindings.Outcome.{Joins, handle_extension-Outcome}
use lastpass_ssh_agent.Prelude.{
  Bytes, ◌≤◌, ◌≡◌, refl, ap, ◌≢◌, inl, inr, true, false, List, [], ◌∷◌, ◌++◌, arith, length, any,
  length-append, All, All-append, bytes_eq_iff,
}

module _ (ssh : SshLibrary) where
  open ssh use {KeyData, fingerprint}

  -- Signed for by the host whose key it names, within the bounds kept for a connection's life.
  pub record IsGenuine (b : SessionBinding) : Type 0 where
    pub key : KeyData
    pub signed : IsSigned ssh b.host_key b.session_id key
    pub named : b.host_fingerprint ≡ fingerprint key
    pub small_session : length b.session_id ≤ 128
    pub small_key : length b.host_key ≤ 65536

  -- Every hop but the last forwards the agent.
  abbrev pub Forwards : List SessionBinding → Type 0
  Forwards [] = Unit
  Forwards (b ∷ []) = Unit
  Forwards (b ∷ c ∷ bs) = (b.is_forwarding ≡ true) × Forwards (c ∷ bs)

  -- No two hops are one session.
  abbrev pub Sessions : List SessionBinding → Type 0
  Sessions [] = Unit
  Sessions (b ∷ bs) = All (λ (c : SessionBinding). c.session_id ≢ b.session_id) bs × Sessions bs

  pub record IsChain (bindings : List SessionBinding) : Type 0 where
    pub short : length bindings ≤ 16
    pub genuine : All IsGenuine bindings
    pub forwards : Forwards bindings
    pub sessions : Sessions bindings

  Forwards-snoc :
      (bs : List SessionBinding) (b : SessionBinding)
      → Forwards bs
      → at_destination bs ≡ false
      → Forwards (bs ++ b ∷ [])
  unfolding at_destination
  Forwards-snoc [] b f d = tt
  Forwards-snoc (c ∷ []) b f d = (ground arith, tt)
  Forwards-snoc (c ∷ e ∷ bs) b f d = (f.0, Forwards-snoc (e ∷ bs) b f.1 d)

  Sessions-snoc :
      (bs : List SessionBinding) (bind : SessionBindRequest) (b : SessionBinding)
      → b.session_id ≡ bind.session_id
      → Sessions bs
      → any (same_session bind) bs ≡ false
      → Sessions (bs ++ b ∷ [])
  unfolding same_session
  Sessions-snoc [] bind b e s n = (tt, tt)
  Sessions-snoc (c ∷ bs) bind b e s n = (
    All-append (λ (d : SessionBinding). d.session_id ≢ c.session_id) bs (b ∷ []) s.0
        (ground (arith, bytes_eq_iff c.session_id bind.session_id), tt),
    Sessions-snoc bs bind b e s.1 (ground arith),
  )

  Joins-IsGenuine :
      (sent : Bytes) (bs : List SessionBinding) (b : SessionBinding)
      → Joins ssh sent bs b
      → IsGenuine b
  unfolding binding_of
  Joins-IsGenuine sent bs b j = rw j.shown (record {
    key = j.key;
    signed = bound_host_key-IsSigned ssh j.bind j.key j.hosted;
    named = refl;
    small_session = j.small_session;
    small_key = j.small_key;
  })

  -- A request keeps a connection's bindings a chain: sixteen at most, each signed for by its host
  -- and within the bounds on its session id and key, no session twice, and all but the last
  -- forwarding the agent.
  pub handle_extension-IsChain :
      (lib : AgentLibrary) (bindings : List SessionBinding) (e : Extension)
      → IsChain bindings
      → IsChain (handle_extension ssh lib bindings e).1
  unfolding binding_of
  handle_extension-IsChain lib bindings e c = elim (handle_extension-Outcome ssh lib bindings e) [
    | inl same ↦ rw same c
    | inr (b, j, grown) ↦ rw grown (record {
      short = ground (arith, length-append bindings (b ∷ []));
      genuine = All-append IsGenuine _ _ c.genuine (Joins-IsGenuine e.details bindings b j, tt);
      forwards = Forwards-snoc bindings b c.forwards j.open_ended;
      sessions =
          Sessions-snoc bindings j.bind b (ap (λ x. x.session_id) j.shown) c.sessions j.session_new;
    })
  ]
