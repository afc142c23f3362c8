-- ===== src/Lpass/Cli/Output.antt =====
-- What a process of `lpass` leaves behind, as `exec`, `read_output` and `read_diagnostics` of
-- src/lpass/cli.rs read it. An I/O error is its text.
pub mod Bounded
pub mod Ends
use lastpass_ssh_agent.Prelude.{
  is_empty, ℕ, ◌+◌, ◌-◌, ◌*◌, Bool, true, false, Option, none, some, List, [], ◌∷◌, ◌++◌, ltb, leb,
  ◌==◌, if◌then◌else◌, length, take, last, Bytes, Text, ◌>>=◌, Result, ok, err, map_err,
}
use lastpass_ssh_agent.Lpass.{LpassError, timeout, field_too_large, spawn}
use lastpass_ssh_agent.Text.{escape_for_display}
use lastpass_ssh_agent.Text.Search.{trim}

pub record ExitStatus : Type 0 where
  pub success : Bool
  pub code : Option ℕ

-- What each `read` of a pipe returns, in turn; a read of nothing, like the end of the list, is the
-- end of the output.
abbrev pub Reads : Type 0
Reads = List (Result Text Bytes)

pub record Ended : Type 0 where
  pub stdout : Reads
  pub stderr : Reads
  -- Which of the two pipes is finished with first; a `try_join` fails with the first failure.
  pub stderr_first : Bool
  pub status : Result Text ExitStatus

pub data Process : Type 0 where
  not_started : (why : Text) → Process
  timed_out : Process
  ended : Ended → Process

pub record CmdOutput : Type 0 where
  pub success : Bool
  pub code : Option ℕ
  pub fed : Bool
  pub stdout : Bytes
  pub stderr : Text

abbrev pub max_field_bytes : ℕ
max_field_bytes = 64 * 1024

-- In seconds.
abbrev default_timeout : ℕ
default_timeout = 30

unfoldable pub read_onto : (max_bytes : ℕ) → Bytes → Reads → Result LpassError Bytes
read_onto max_bytes out [] = ok out
read_onto max_bytes out (err e ∷ reads) = err (spawn e)
read_onto max_bytes out (ok chunk ∷ reads) =
    let rest = read_onto max_bytes (out ++ chunk) reads in
    if is_empty chunk
    then ok out
    else if ltb max_bytes (length out + length chunk)
    then err (field_too_large max_bytes)
    else rest

unfoldable pub read_output : (max_bytes : ℕ) → Reads → Result LpassError Bytes
unfolding read_onto
read_output max_bytes reads = read_onto max_bytes [] reads

-- `take(limit)` and `read_to_end`: no read once the limit is reached.
pub read_to_end : (limit : ℕ) → Bytes → Reads → Result Text Bytes
read_to_end limit out [] = ok out
read_to_end limit out (r ∷ reads) = elim (leb limit (length out)) [
  | true ↦ ok out
  | false ↦ elim r [
    | err e ↦ err e
    | ok chunk ↦
        if is_empty chunk
        then ok out
        else read_to_end limit (out ++ take (limit - length out) chunk) reads
  ]
]

pub read_diagnostics : Reads → Result LpassError Bytes
unfolding read_to_end
read_diagnostics reads = map_err spawn (read_to_end max_field_bytes [] reads)

-- `try_join!` of the two readers.
join :
    (stderr_first : Bool)
    → Result LpassError Bytes
    → Result LpassError Bytes
    → Result LpassError (Bytes × Bytes)
join stderr_first (ok out) (ok diagnostics) = ok (out, diagnostics)
join stderr_first (err e) (ok diagnostics) = err e
join stderr_first (ok out) (err f) = err f
join stderr_first (err e) (err f) = err (if stderr_first then f else e)

-- `last() == Some(b)` and `pop`.
unfoldable pub pop_if : ℕ → Bytes → Bytes
pop_if b [] = []
pop_if b (x ∷ []) = if x == b then [] else x ∷ []
pop_if b (x ∷ y ∷ xs) = x ∷ pop_if b (y ∷ xs)

-- One `\n` at the end, with one `\r` before it.
pub without_newline : Bytes → Bytes
unfolding pop_if
without_newline out = elim (last out) [
  | none ↦ out
  | some b ↦ if b == 0x0a then pop_if 0x0d (pop_if 0x0a out) else out
]

-- `String::from_utf8_lossy`.
module _ (text_of : Bytes → Text) where
  pub diagnosis : Bytes → Text
  diagnosis stderr = take 300 (escape_for_display (trim (text_of stderr)))

  gathered :
      (fed : Bool)
      → Result Text ExitStatus
      → Result LpassError (Bytes × Bytes)
      → Result LpassError CmdOutput
  unfolding without_newline diagnosis
  gathered fed status (err e) = err e
  gathered fed (err e) (ok pipes) = err (spawn e)
  gathered fed (ok status) (ok (stdout, stderr)) = ok (record {
    success = status.success;
    code = status.code;
    fed = fed;
    stdout = without_newline stdout;
    stderr = diagnosis stderr;
  })

  unfoldable pub outcome : (fed : Bool) (max_bytes : ℕ) → Process → Result LpassError CmdOutput
  unfolding read_output read_diagnostics join gathered
  outcome fed max_bytes (not_started why) = err (spawn why)
  outcome fed max_bytes timed_out = err (timeout default_timeout)
  outcome fed max_bytes (ended p) =
      gathered fed p.status
        (join p.stderr_first (read_output max_bytes p.stdout) (read_diagnostics p.stderr))

-- What a pipe delivers: its bytes up to the end, if no read fails before it.
pub delivered : Reads → Option Bytes
delivered [] = some []
delivered (err e ∷ reads) = none
delivered (ok [] ∷ reads) = some []
delivered (ok (b ∷ chunk) ∷ reads) = delivered reads >>= λ rest. some ((b ∷ chunk) ++ rest)
