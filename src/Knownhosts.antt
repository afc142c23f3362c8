-- ===== src/Knownhosts.antt =====
-- src/knownhosts.rs: the names that `known_hosts` files record for a host key. A file is what opening
-- and reading it yields; a set is a list whose order nothing reads.
pub mod Fields
pub mod Reference
mod Tests
pub mod Recorded
use lastpass_ssh_agent.Prelude.{
  ℕ, ◌+◌, ◌*◌, Bool, true, false, not, ◌&&◌, ◌||◌, Option, none, some, List, [], ◌∷◌, ◌++◌, map,
  ltb, if◌then◌else◌, take, any, is_empty, Bytes, Text, codes, bytes_eq, ◌>>=◌, Result, ok, err,
}
use lastpass_ssh_agent.Prelude.Maps.{lookup, insert}
use lastpass_ssh_agent.Ssh.{SshLibrary}
use lastpass_ssh_agent.Text.Separated.{join}
use lastpass_ssh_agent.Text.Search.{trim, lines, split_whitespace, starts_with}

-- `Line`.
pub data Line : Type 0 where
  named_line : (fingerprint hosts : Text) → Line
  revoked_line : (fingerprint : Text) → Line
  hashed_line : Line

pub record Index : Type 0 where
  pub names : List (Text × List Text)
  pub revoked : List Text
  pub hashed : ℕ

unfoldable pub no_lines : Index
no_lines = record { names = []; revoked = []; hashed = 0 }

name_unless : Bool → Option (List Text) → Option Text
name_unless true names = none
name_unless false none = none
name_unless false (some names) = some (join (codes ", ") names)

unfoldable pub name_for : Index → Text → Option Text
unfolding name_unless
name_for index fingerprint =
    name_unless (any (bytes_eq fingerprint) index.revoked) (lookup fingerprint index.names)

-- `entry(..).or_default()`.
names_or_default : Option (List Text) → List Text
names_or_default none = []
names_or_default (some names) = names

pub push_new : Text → List Text → List Text
push_new hosts names = if any (bytes_eq hosts) names then names else names ++ hosts ∷ []

unfoldable pub add_line : Index → Option Line → Index
unfolding names_or_default push_new
add_line index none = index
add_line index (some hashed_line) = record index { hashed = index.hashed + 1 }
add_line index (some (revoked_line fingerprint)) = record index {
  revoked = fingerprint ∷ index.revoked;
}
add_line index (some (named_line fingerprint hosts)) = record index {
  names =
      insert fingerprint (push_new hosts (names_or_default (lookup fingerprint index.names)))
        index.names;
}

-- A file that could be opened.
pub record Handle : Type 0 where
  pub is_file : Bool
  pub len : ℕ
  pub contents : Result Text Bytes

abbrev max_known_hosts_bytes : ℕ
max_known_hosts_bytes = 8 * 1024 * 1024

-- `?`, and `next()?`.
pub next_field : {A : Type 0} → List Text → (Text → List Text → Option A) → Option A
next_field [] k = none
next_field (field ∷ fields) k = k field fields

module _ (ssh : SshLibrary) where
  -- `from_openssh(..).ok()?` and the fingerprint.
  key_fingerprint : Result Text ssh.PublicKey → Option Text
  key_fingerprint (err e) = none
  key_fingerprint (ok key) = some (ssh.fingerprint (ssh.key_data key))

  key_of : (algorithm key : Text) → Option Text
  unfolding key_fingerprint
  key_of algorithm key = key_fingerprint (ssh.from_openssh (algorithm ++ (codes " " ++ key)))

  -- What stands behind the hosts.
  entry : (revoked : Bool) → (hosts : Text) → List Text → Option Line
  unfolding key_of next_field
  entry revoked hosts fields =
      if not revoked && starts_with (codes "|1|") hosts
      then some hashed_line
      else next_field fields λ algorithm behind. next_field behind λ key rest.
        key_of algorithm key >>= λ fingerprint.
        some (if revoked then revoked_line fingerprint else named_line fingerprint hosts)

  marked : Text → List Text → Option Line
  unfolding entry next_field
  marked first fields =
      if bytes_eq first (codes "@revoked")
      then next_field fields (entry true)
      else if starts_with (codes "@") first
      then none
      else entry false first fields

  pub parse_line : Text → Option Line
  unfolding next_field
  parse_line text =
      let line = trim text in
      if is_empty line || starts_with (codes "#") line
      then none
      else next_field (split_whitespace line) marked

  add_lines : Index → List Text → Index
  unfolding add_line parse_line
  add_lines index [] = index
  add_lines index (line ∷ lines) = add_lines (add_line index (parse_line line)) lines

  pub add : Index → Text → Index
  unfolding add_lines
  add index contents = add_lines index (lines contents)

  -- `String::from_utf8_lossy`.
  module _ (text_of : Bytes → Text) where
    decoded : Result Text Bytes → Option Text
    decoded (err e) = none
    decoded (ok bytes) = some (text_of (take max_known_hosts_bytes bytes))

    pub read_small : Option Handle → Option Text
    unfolding decoded
    read_small none = none
    read_small (some file) =
        if not file.is_file
        then none
        else if ltb max_known_hosts_bytes file.len
        then none
        else decoded file.contents

    add_file : Index → Option Text → Index
    unfolding add
    add_file index none = index
    add_file index (some contents) = add index contents

    index_onto : Index → List (Option Handle) → Index
    unfolding add_file
    index_onto index [] = index
    index_onto index (file ∷ files) = index_onto (add_file index (read_small file)) files

    pub index_files : List (Option Handle) → Index
    unfolding index_onto no_lines
    index_files files = index_onto no_lines files

    -- `names_for`; whether the lookup ends in time, and without a panic, is the runtime's.
    pub names_for : (in_time : Bool) → List (Option Handle) → List Text → List (Option Text)
    unfolding index_files
    names_for in_time files fingerprints =
        if is_empty fingerprints
        then []
        else if in_time
        then map (name_for (index_files files)) fingerprints
        else []
