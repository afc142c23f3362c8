-- ===== src/Signing/Tests.antt =====
-- The theorems on src/signing.rs at concrete requests.
use lastpass_ssh_agent.Ssh.Sample.{sample}
use lastpass_ssh_agent.Signing.{userauth_session_id, session_bind, SessionBindRequest, server_key}
use lastpass_ssh_agent.Signing.Wire
use lastpass_ssh_agent.Signing.Keys.{bound_host_key, is_certificate, ends_with, finish}
use lastpass_ssh_agent.Signing.Bound.{HasSigned, bound_host_key_iff}
use lastpass_ssh_agent.Signing.Format.{AreBytes, userauth, bind_request, wire_string, u32_be}
use lastpass_ssh_agent.Signing.Exact.{
  session_bind_sound, userauth_session_id_sound, userauth_session_id_complete,
}
use lastpass_ssh_agent.Prelude.{
  ok, ◌↔◌, ℕ, ◌≡◌, refl, Bool, true, not, ◌&&◌, some, [], ◌∷◌, ◌++◌, arith, ltb, ◌==◌, Bytes,
  bytes_eq,
}

abbrev session : Bytes
session = 7 ∷ 8 ∷ []

abbrev host : Bytes
host = 1 ∷ 2 ∷ 3 ∷ []

abbrev key : Bytes
key = 4 ∷ 5 ∷ []

abbrev bind : SessionBindRequest
bind = record {
  host_key = host;
  session_id = session;
  signature = host ++ session;
  is_forwarding = true;
}

session_bind_complete_run : session_bind (bind_request host session (host ++ session) 1) ≡ some bind
unfolding session_bind bind_request wire_string u32_be Wire.string Wire.byte
session_bind_complete_run = refl

userauth_run :
    userauth_session_id (userauth session (9 ∷ []) (6 ∷ []) key host true) key host ≡ some session
unfolding userauth_session_id userauth wire_string u32_be Wire.string Wire.byte server_key bytes_eq
userauth_run = refl

userauth_session_id_complete_example :
    userauth_session_id (userauth session (9 ∷ []) (6 ∷ []) key host true) key host ≡ some session
userauth_session_id_complete_example =
    userauth_session_id_complete session (9 ∷ []) (6 ∷ []) key host true (omega arith) (omega arith)
      (omega arith) (omega arith) (omega arith)

all_bytes : Bytes → Bool
all_bytes [] = true
all_bytes (b ∷ s) = ltb b 256 && all_bytes s

all_bytes-AreBytes : (s : Bytes) → all_bytes s ≡ true → AreBytes s
unfolding all_bytes
all_bytes-AreBytes [] h = tt
all_bytes-AreBytes (b ∷ s) h = (ground arith, all_bytes-AreBytes s (ground arith))

session_bind_sound_example :
    (forwarding : ℕ) × (bind_request host session (host ++ session) 1
      ≡ bind_request host session (host ++ session) forwarding)
    × (true ≡ not (forwarding == 0))
unfolding all_bytes bind_request wire_string u32_be
session_bind_sound_example =
    session_bind_sound (bind_request host session (host ++ session) 1) bind
      (all_bytes-AreBytes (bind_request host session (host ++ session) 1) refl)
      session_bind_complete_run

userauth_session_id_sound_example :
    (user : Bytes) × (algorithm : Bytes) × (host_bound : Bool) × (userauth session
        (9 ∷ [])
        (6 ∷ [])
        key
        host
        true
      ≡ userauth session user algorithm key host host_bound)
unfolding all_bytes userauth wire_string u32_be
userauth_session_id_sound_example =
    userauth_session_id_sound (userauth session (9 ∷ []) (6 ∷ []) key host true) key host session
      (all_bytes-AreBytes (userauth session (9 ∷ []) (6 ∷ []) key host true) refl) userauth_run

bound_run : bound_host_key sample bind ≡ ok host
unfolding bound_host_key is_certificate ends_with finish Wire.string bytes_eq
bound_run = refl

bound_host_key_iff_example : (bound_host_key sample bind ≡ ok host) ↔ HasSigned sample bind host
bound_host_key_iff_example = bound_host_key_iff sample bind host
