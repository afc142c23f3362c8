-- ===== src/Identities.antt =====
-- src/identities.rs: the served identities as they are written down between starts. `Remembered` is the
-- list of its keys. TOML, UTF-8 and the file system are outside: a path holds what opening it finds,
-- and a write either puts the text there or leaves what was (src/files.rs renames a staging file).
pub mod Loaded
use lastpass_ssh_agent.Prelude.{
  ℕ, ◌+◌, ◌*◌, not, Option, none, some, List, ltb, if◌then◌else◌, length, take, Bytes, Text, codes,
  Result, ok, err, and_then,
}
use lastpass_ssh_agent.Config.{is_item_id, all}
use lastpass_ssh_agent.Keystore.{RememberedKey}

-- What a path holds, as `open_regular` and a read of the file find it.
pub data Held : Type 0 where
  absent not_regular : Held
  unreadable : Text → Held
  holds : Bytes → Held

pub data FileError : Type 0 where
  refused_path : FileError
  io : Text → FileError
  cannot_encode : Text → FileError

-- `open_regular`: nothing where there is no file.
pub open_regular : Held → Result FileError (Option (Result Text Bytes))
open_regular absent = ok none
open_regular not_regular = err refused_path
open_regular (unreadable why) = ok (some (err why))
open_regular (holds bytes) = ok (some (ok bytes))

abbrev pub max_bytes : ℕ
max_bytes = 1024 * 1024

-- The toml crate and `String::from_utf8`.
pub record Toml : Type 0 where
  pub from_utf8 : Bytes → Result Text Text
  pub as_bytes : Text → Bytes
  pub from_str : Text → Result Text (List RememberedKey)
  pub to_string : List RememberedKey → Result Text Text

module _ (toml : Toml) where
  with_ids : List RememberedKey → Result Text (List RememberedKey)
  with_ids keys =
      if all (λ key. is_item_id key.id) keys
      then ok keys
      else err (codes "an item id that is not one")

  unfoldable pub decoded : Bytes → Result Text (List RememberedKey)
  unfolding with_ids
  decoded bytes =
      if ltb max_bytes (length bytes)
      then err (codes "larger than anything this writes")
      else and_then (toml.from_utf8 bytes) λ text. and_then (toml.from_str text) with_ids

  -- What does not decode reads as absent; what cannot be read is an error.
  or_absent : Result Text (List RememberedKey) → Option (List RememberedKey)
  or_absent (ok keys) = some keys
  or_absent (err why) = none

  loaded :
      Result FileError (Option (Result Text Bytes)) → Result FileError (Option (List RememberedKey))
  unfolding decoded or_absent
  loaded (err e) = err e
  loaded (ok none) = ok none
  loaded (ok (some (err why))) = err (io why)
  loaded (ok (some (ok bytes))) = ok (or_absent (decoded (take (max_bytes + 1) bytes)))

  unfoldable pub load : Held → Result FileError (Option (List RememberedKey))
  unfolding open_regular loaded
  load file = loaded (open_regular file)

  -- What a write of the text comes to.
  written : (write : Result Text (Unit {0})) → Text → Held → Result FileError (Unit {0}) × Held
  written (ok done) text file = (ok tt, holds (toml.as_bytes text))
  written (err why) text file = (err (io why), file)

  encoded :
      (write : Result Text (Unit {0}))
      → Result Text Text
      → Held
      → Result FileError (Unit {0}) × Held
  unfolding written
  encoded write (err why) file = (err (cannot_encode why), file)
  encoded write (ok text) file = written write text file

  unfoldable pub save :
      (write : Result Text (Unit {0}))
      → List RememberedKey
      → Held
      → Result FileError (Unit {0}) × Held
  unfolding encoded
  save write keys file = encoded write (toml.to_string keys) file

  unfoldable pub save_best_effort :
      (write : Result Text (Unit {0})) → List RememberedKey → Held → Held
  unfolding save
  save_best_effort write keys file = (save write keys file).1

  -- `remove`; a file that is not there is removed.
  pub remove : (unlink : Result Text (Unit {0})) → Held → Result FileError (Unit {0}) × Held
  remove unlink absent = (ok tt, absent)
  remove (ok done) file = (ok tt, absent)
  remove (err why) file = (err (io why), file)
