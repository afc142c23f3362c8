-- ===== src/Signing/Exact.antt =====
-- src/signing.rs: what `userauth_session_id` and `session_bind` read, against the formats.
use lastpass_ssh_agent.Signing.{
  server_key, userauth_session_id, session_bind, SessionBindRequest, hostbound_method,
  publickey_method, userauth_request,
}
use lastpass_ssh_agent.Signing.Wire
use lastpass_ssh_agent.Signing.Format.{
  AreBytes, Fits, wire_string, hostbound_suffix, method_name, userauth, bind_request,
}
use lastpass_ssh_agent.Signing.Reads.{
  string-wire_string, string-wire_string_end, empty-inv, string_step, byte_step, guard_step,
}
use lastpass_ssh_agent.Prelude.{
  ℕ, ◌≡◌, ap, ◌∙◌, Bool, true, false, not, ◌||◌, some, ◌∷◌, ◌++◌, append-nil, arith, ◌==◌, ==_iff,
  ◌>>=◌, ◌>>◌, guard, is_empty, Bytes, codes, bytes_eq, bytes_eq_refl, bytes_eq→eq, >>=-eq-some,
}

-- If the bytes are read as a session binding, they are, whole, its host key, its session id and
-- its signature as wire strings and one byte, and the agent is forwarded exactly if that byte is
-- not 0. The request is taken to consist of bytes, numbers below 256.
pub session_bind_sound :
    (request : Bytes) (bind : SessionBindRequest)
    → AreBytes request
    → session_bind request ≡ some bind
    → (forwarding : ℕ) × (request
        ≡ bind_request bind.host_key bind.session_id bind.signature forwarding)
      × (bind.is_forwarding ≡ not (forwarding == 0))
unfolding session_bind bind_request
session_bind_sound request bind a h = string_step request a _ h λ k r₁ e₁ a₁ h₁.
    string_step r₁ a₁ _ h₁ λ s r₂ e₂ a₂ h₂. string_step r₂ a₂ _ h₂ λ g r₃ e₃ a₃ h₃.
      byte_step r₃ a₃ _ h₃ λ f r₄ e₄ a₄ h₄.
        guard_step (is_empty r₄) _ h₄ λ t h₅. (f, ground (arith, empty-inv r₄ t), ground arith)

-- A host key, a session id and a signature as wire strings with one byte behind them are read back
-- as they are, the agent forwarded exactly if the byte is not 0. Each of the three is taken to be
-- shorter than 2 ^ 32.
pub session_bind_complete :
    (host_key session_id signature : Bytes) (forwarding : ℕ)
    → Fits host_key
    → Fits session_id
    → Fits signature
    → session_bind (bind_request host_key session_id signature forwarding)
      ≡ some (record {
        host_key = host_key;
        session_id = session_id;
        signature = signature;
        is_forwarding = not (forwarding == 0);
      })
unfolding session_bind bind_request Wire.byte
session_bind_complete k s g f p q r =
    simp (string-wire_string k _ p, string-wire_string s _ q, string-wire_string g _ r)

method_cases :
    (method : Bytes)
    → (bytes_eq method hostbound_method || bytes_eq method publickey_method) ≡ true
    → method ≡ method_name (bytes_eq method hostbound_method)
method_cases method h =
    ground (arith, bytes_eq→eq method hostbound_method, bytes_eq→eq method publickey_method)

server_key_inv :
    (host_bound : Bool) (host_key r rest : Bytes)
    → AreBytes r
    → server_key host_bound host_key r ≡ some rest
    → r ≡ hostbound_suffix host_bound host_key ++ rest
unfolding server_key
server_key_inv true host_key r rest a h = string_step r a _ h λ named r' e a' h₁.
    guard_step (bytes_eq named host_key) _ h₁ λ t h₂. ground (arith, bytes_eq→eq named host_key t)
server_key_inv false host_key r rest a h = ground arith

server_key_step :
    (host_bound : Bool) (host_key r session_id sid : Bytes)
    → AreBytes r
    → (server_key host_bound host_key r >>= λ rest. guard (is_empty rest) >> some session_id)
      ≡ some sid
    → (r ≡ hostbound_suffix host_bound host_key) × (session_id ≡ sid)
server_key_step b k r i sid a h =
    let (rest, e, h') = >>=-eq-some (server_key b k r) _ h in
    guard_step (is_empty rest) _ h' λ t h₂. (
      server_key_inv b k r rest a e
          ∙ ap (λ s. hostbound_suffix b k ++ s) (empty-inv rest t)
          ∙ append-nil (hostbound_suffix b k),
      ground arith,
    )

-- The format again, from the equations that the reads leave.
userauth_of_parts :
    (user algorithm host_key : Bytes) (host_bound : Bool)
    {i sid service method key public_key : Bytes} {r₁ r₂ r₃ r₄ r₅ r₆ r₇ r₈ request : Bytes}
    {m flag : ℕ}
    → request ≡ wire_string i ++ r₁
    → r₁ ≡ m ∷ r₂
    → m ≡ userauth_request
    → r₂ ≡ wire_string user ++ r₃
    → r₃ ≡ wire_string service ++ r₄
    → service ≡ codes "ssh-connection"
    → r₄ ≡ wire_string method ++ r₅
    → method ≡ method_name host_bound
    → r₅ ≡ flag ∷ r₆
    → flag ≡ 1
    → r₆ ≡ wire_string algorithm ++ r₇
    → r₇ ≡ wire_string key ++ r₈
    → key ≡ public_key
    → (r₈ ≡ hostbound_suffix host_bound host_key) × (i ≡ sid)
    → request ≡ userauth sid user algorithm public_key host_key host_bound
unfolding userauth
userauth_of_parts user algorithm host_key host_bound e₁ e₂ e₃ e₄ e₅ e₆ e₇ e₈ e₉ f₁ f₂ f₃ f₄ f₅ =
    cc (f₅.0, f₅.1)

-- A session id is read out of bytes only if they are, whole, a userauth request for that session
-- with the given key, in the plain form or bound to the given host key. The request is taken to
-- consist of bytes, numbers below 256.
pub userauth_session_id_sound :
    (request public_key host_key session_id : Bytes)
    → AreBytes request
    → userauth_session_id request public_key host_key ≡ some session_id
    → (user : Bytes) × (algorithm : Bytes) × (host_bound : Bool) × (request
        ≡ userauth session_id user algorithm public_key host_key host_bound)
unfolding userauth_session_id
userauth_session_id_sound request public_key host_key session_id a h =
    string_step request a _ h λ i r₁ e₁ a₁ h₁. byte_step r₁ a₁ _ h₁ λ m r₂ e₂ a₂ h₂.
      guard_step (m == userauth_request) _ h₂ λ t₂ h₂'. string_step r₂ a₂ _ h₂' λ user r₃ e₃ a₃ h₃.
        string_step r₃ a₃ _ h₃ λ service r₄ e₄ a₄ h₄.
          guard_step (bytes_eq service (codes "ssh-connection")) _ h₄ λ t₄ h₄'.
            string_step r₄ a₄ _ h₄' λ method r₅ e₅ a₅ h₅.
              guard_step (bytes_eq method hostbound_method || bytes_eq method publickey_method) _ h₅
                λ t₅ h₅'. byte_step r₅ a₅ _ h₅' λ flag r₆ e₆ a₆ h₆.
                  guard_step (flag == 1) _ h₆ λ t₆ h₆'.
                    string_step r₆ a₆ _ h₆' λ algorithm r₇ e₇ a₇ h₇.
                      string_step r₇ a₇ _ h₇ λ key r₈ e₈ a₈ h₈.
                        guard_step (bytes_eq key public_key) _ h₈ λ t₈ h₈'. (
                          user,
                          algorithm,
                          bytes_eq method hostbound_method,
                          userauth_of_parts user algorithm host_key
                              (bytes_eq method hostbound_method) e₁ e₂ ((==_iff m _).0 t₂) e₃ e₄
                              (bytes_eq→eq service _ t₄) e₅ (method_cases method t₅) e₆
                              ((==_iff flag 1).0 t₆) e₇ e₈ (bytes_eq→eq key public_key t₈)
                              (server_key_step (bytes_eq method hostbound_method) host_key r₈ i
                                session_id a₈ h₈'),
                        )

-- A userauth request for a session with the given key, in the plain form or bound to the given
-- host key, yields its session id. Its session id, user, algorithm, key and host key are taken to
-- be shorter than 2 ^ 32.
pub userauth_session_id_complete :
    (session_id user algorithm public_key host_key : Bytes) (host_bound : Bool)
    → Fits session_id
    → Fits user
    → Fits algorithm
    → Fits public_key
    → Fits host_key
    → userauth_session_id
        (userauth session_id user algorithm public_key host_key host_bound)
        public_key
        host_key
      ≡ some session_id
unfolding userauth_session_id userauth server_key Wire.byte bytes_eq
userauth_session_id_complete i u g p k true fi fu fg fp fk = simp (
  string-wire_string i _ fi,
  string-wire_string u _ fu,
  string-wire_string (codes "ssh-connection") _ (omega arith),
  string-wire_string hostbound_method _ (omega arith),
  string-wire_string g _ fg,
  string-wire_string p _ fp,
  string-wire_string_end k fk,
  bytes_eq_refl,
)
userauth_session_id_complete i u g p k false fi fu fg fp fk = simp (
  string-wire_string i _ fi,
  string-wire_string u _ fu,
  string-wire_string (codes "ssh-connection") _ (omega arith),
  string-wire_string publickey_method _ (omega arith),
  string-wire_string g _ fg,
  string-wire_string p _ fp,
  bytes_eq_refl,
)
