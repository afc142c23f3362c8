-- ===== src/Signing/Format.antt =====
-- The formats that src/signing.rs reads, as their senders write them: SSH wire strings (RFC 4251
-- section 5), the userauth request (RFC 4252 section 7 and OpenSSH's host-bound form) and the
-- `session-bind@openssh.com` request. They are written down
-- independently of the code.
use lastpass_ssh_agent.Signing.{userauth_request, hostbound_method, publickey_method}
use lastpass_ssh_agent.Prelude.{
  ℕ, ◌/◌, ◌%◌, ◌^◌, ◌<◌, Bool, true, false, [], ◌∷◌, ◌++◌, length, All, Bytes, codes,
}

-- A byte string, and a length that 32 bits hold.
abbrev pub AreBytes : Bytes → Type 0
AreBytes = All (λ b. b < 256)

abbrev pub Fits : Bytes → Type 0
Fits v = length v < 2 ^ 32

unfoldable pub u32_be : ℕ → Bytes
u32_be n = (n / 2 ^ 24) ∷ (n / 2 ^ 16 % 256) ∷ (n / 2 ^ 8 % 256) ∷ (n % 256) ∷ []

unfoldable pub wire_string : Bytes → Bytes
wire_string v = u32_be (length v) ++ v

-- The end of the host-bound form.
abbrev pub hostbound_suffix : Bool → Bytes → Bytes
hostbound_suffix true host_key = wire_string host_key
hostbound_suffix false host_key = []

abbrev pub method_name : Bool → Bytes
method_name true = hostbound_method
method_name false = publickey_method

-- A request for `session_id` with `public_key`, host-bound to `host_key` or not.
unfoldable pub userauth :
    (session_id user algorithm public_key host_key : Bytes) (host_bound : Bool) → Bytes
userauth session_id user algorithm public_key host_key host_bound =
    wire_string session_id
    ++ (userauth_request ∷ wire_string user
        ++ (wire_string (codes "ssh-connection")
            ++ (wire_string (method_name host_bound)
                ++ (1 ∷ wire_string algorithm
                    ++ (wire_string public_key ++ hostbound_suffix host_bound host_key)))))

-- A binding with the byte that says whether the agent is forwarded, any but 0 for yes.
unfoldable pub bind_request : (host_key session_id signature : Bytes) (forwarding : ℕ) → Bytes
bind_request host_key session_id signature forwarding =
    wire_string host_key ++ (wire_string session_id ++ (wire_string signature ++ forwarding ∷ []))
