-- ===== src/Signing.antt =====
-- src/signing.rs: what `ssh` asks the agent to sign or to bind to, and the
-- signature itself.
mod Tests
pub mod Wire
pub mod Format
pub mod Reads
pub mod Keys
pub mod Bound
pub mod Exact
use lastpass_ssh_agent.Prelude.{
  ℕ, Bool, true, false, not, ◌||◌, Option, some, ◌==◌, ◌>>=◌, ◌>>◌, guard, is_empty, Bytes, codes,
  bytes_eq,
}

abbrev pub userauth_request : ℕ
userauth_request = 50

abbrev pub hostbound_method : Bytes
hostbound_method = codes "publickey-hostbound-v00@openssh.com"

abbrev pub publickey_method : Bytes
publickey_method = codes "publickey"

-- The host-bound form names the server's host key, which has to be the one bound to.
unfoldable pub server_key : Bool → Bytes → Bytes → Option Bytes
server_key true host_key r = do (named, r) ← Wire.string r; guard (bytes_eq named host_key); some r
server_key false host_key r = some r

-- The session id a userauth request is for, when `data` is one.
unfoldable pub userauth_session_id : (request public_key host_key : Bytes) → Option Bytes
unfolding server_key
userauth_session_id request public_key host_key = do
  (session_id, r₁) ← Wire.string request
  (message, r₂) ← Wire.byte r₁
  guard (message == userauth_request)
  (user, r₃) ← Wire.string r₂
  (service, r₄) ← Wire.string r₃
  guard (bytes_eq service (codes "ssh-connection"))
  (method, r₅) ← Wire.string r₄
  let host_bound = bytes_eq method hostbound_method
  guard (host_bound || bytes_eq method publickey_method)
  (flag, r₆) ← Wire.byte r₅
  guard (flag == 1)
  (algorithm, r₇) ← Wire.string r₆
  (key, r₈) ← Wire.string r₇
  guard (bytes_eq key public_key)
  r₉ ← server_key host_bound host_key r₈
  guard (is_empty r₉)
  some session_id

-- A `session-bind@openssh.com` request as OpenSSH lays it out.
pub record SessionBindRequest : Type 0 where
  pub host_key : Bytes
  pub session_id : Bytes
  pub signature : Bytes
  pub is_forwarding : Bool

pub session_bind : Bytes → Option SessionBindRequest
session_bind request = do
  (host_key, r₁) ← Wire.string request
  (session_id, r₂) ← Wire.string r₁
  (signature, r₃) ← Wire.string r₂
  (forwarding, r₄) ← Wire.byte r₃
  guard (is_empty r₄)
  some (record {
    host_key = host_key;
    session_id = session_id;
    signature = signature;
    is_forwarding = not (forwarding == 0);
  })
