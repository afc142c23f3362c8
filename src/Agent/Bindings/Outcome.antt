-- ===== src/Agent/Bindings/Outcome.antt =====
-- What a request can do to a connection's bindings.
use lastpass_ssh_agent.Ssh.{SshLibrary}
use lastpass_ssh_agent.Signing.{session_bind, SessionBindRequest}
use lastpass_ssh_agent.Signing.Keys.{bound_host_key, BindError}
use lastpass_ssh_agent.Confirm.{SessionBinding}
use lastpass_ssh_agent.Agent.{Extension, AgentLibrary}
use lastpass_ssh_agent.Agent.Bindings.{
  at_destination, same_session, same_binding, binding_of, append, hosted, verified, sized, bound,
  handle_extension, max_session_bindings, max_session_id_bytes, max_host_key_bytes,
}
use lastpass_ssh_agent.Prelude.{
  Bytes, ◌≤◌, ◌<◌, ◌≡◌, refl, ◌⊎◌, inl, inr, false, Option, none, some, List, [], ◌∷◌, ◌++◌, arith,
  ltb, leb, Bool-cases, length, any, bytes_eq, Result, ok, err,
}

module _ (ssh : SshLibrary) where
  open ssh use {KeyData, Signature, fingerprint, verify}

  -- What a binding has passed when it joins a connection's.
  pub record Joins (sent : Bytes) (bindings : List SessionBinding) (b : SessionBinding)
      : Type 0 where
    pub bind : SessionBindRequest
    pub read : session_bind sent ≡ some bind
    pub key : KeyData
    pub hosted : bound_host_key ssh bind ≡ ok key
    pub shown : b ≡ binding_of ssh bind key
    pub open_ended : at_destination bindings ≡ false
    pub session_new : any (same_session bind) bindings ≡ false
    pub room : length bindings < max_session_bindings
    pub small_session : length bind.session_id ≤ max_session_id_bytes
    pub small_key : length bind.host_key ≤ max_host_key_bytes

  abbrev pub Outcome : (sent : Bytes) → List SessionBinding → List SessionBinding → Type 0
  Outcome sent before after =
      (after ≡ before) ⊎ ((b : SessionBinding) × Joins sent before b × (after ≡ before ++ b ∷ []))

  append-Outcome :
      (sent : Bytes) (bindings : List SessionBinding) (bind : SessionBindRequest) (key : KeyData)
      → session_bind sent ≡ some bind
      → bound_host_key ssh bind ≡ ok key
      → length bind.session_id ≤ max_session_id_bytes
      → length bind.host_key ≤ max_host_key_bytes
      → Outcome sent bindings (append ssh bindings bind key).1
  unfolding append
  append-Outcome sent bindings bind key w h s k = elim (Bool-cases (at_destination bindings)) [
    | inl d ↦ inl (ground arith)
    | inr d ↦ elim (Bool-cases (any (same_session bind) bindings)) [
      | inl t ↦ inl (ground arith)
      | inr t ↦ elim (Bool-cases (any (same_binding bind) bindings)) [
        | inl r ↦ inl (ground arith)
        | inr r ↦ elim (Bool-cases (leb max_session_bindings (length bindings))) [
          | inl f ↦ inl (ground arith)
          | inr f ↦ inr (
            binding_of ssh bind key,
            record {
              bind = bind;
              read = w;
              key = key;
              hosted = h;
              shown = refl;
              open_ended = d;
              session_new = t;
              room = ground arith;
              small_session = s;
              small_key = k;
            },
            ground arith,
          )
        ]
      ]
    ]
  ]

  hosted-Outcome :
      (sent : Bytes) (bindings : List SessionBinding) (bind : SessionBindRequest)
      (r : Result BindError KeyData)
      → session_bind sent ≡ some bind
      → bound_host_key ssh bind ≡ r
      → length bind.session_id ≤ max_session_id_bytes
      → length bind.host_key ≤ max_host_key_bytes
      → Outcome sent bindings (hosted ssh bindings bind r).1
  unfolding hosted
  hosted-Outcome sent bindings bind (ok key) w h s k = append-Outcome sent bindings bind key w h s k
  hosted-Outcome sent bindings bind (err e) w h s k = inl refl

  sized-Outcome :
      (sent : Bytes) (bindings : List SessionBinding) (bind : SessionBindRequest)
      → session_bind sent ≡ some bind
      → Outcome sent bindings (sized ssh bindings bind).1
  unfolding sized verified
  sized-Outcome sent bindings bind w =
      elim (Bool-cases (ltb max_session_id_bytes (length bind.session_id))) [
        | inl s ↦ inl (ground arith)
        | inr s ↦ elim (Bool-cases (ltb max_host_key_bytes (length bind.host_key))) [
          | inl k ↦ inl (ground arith)
          | inr k ↦
              rw (s, k) (hosted-Outcome sent bindings bind _ w refl (ground arith) (ground arith))
        ]
      ]

  bound-Outcome :
      (sent : Bytes) (bindings : List SessionBinding) (o : Option SessionBindRequest)
      → session_bind sent ≡ o
      → Outcome sent bindings (bound ssh bindings o).1
  unfolding bound
  bound-Outcome sent bindings none w = inl refl
  bound-Outcome sent bindings (some bind) w = sized-Outcome sent bindings bind w

  -- A request leaves the bindings as they are or adds one that has passed every check.
  pub handle_extension-Outcome :
      (lib : AgentLibrary) (bindings : List SessionBinding) (e : Extension)
      → Outcome e.details bindings (handle_extension ssh lib bindings e).1
  unfolding handle_extension
  handle_extension-Outcome lib bindings e = elim (Bool-cases (bytes_eq e.name lib.query_name)) [
    | inl q ↦ rw q (inl refl)
    | inr q ↦ elim (Bool-cases (bytes_eq e.name lib.session_bind_name)) [
      | inl n ↦ rw (q, n) (bound-Outcome e.details bindings (session_bind e.details) refl)
      | inr n ↦ rw (q, n) (inl refl)
    ]
  ]
