-- ===== src/Lpass/Cli/Output/Ends.antt =====
-- What an outcome of src/lpass/cli.rs says of the process it is of.
use lastpass_ssh_agent.Prelude.{
  ℕ, ◌+◌, ◌≡◌, inl, inr, Bool, true, false, [], ◌∷◌, ◌++◌, arith, ltb, Bool-cases, length, is_empty,
  Bytes, Text, Result, ok, err, map_err,
}
use lastpass_ssh_agent.Lpass.{LpassError, spawn}
use lastpass_ssh_agent.Lpass.Cli.Output.{
  Process, CmdOutput, outcome, ExitStatus, not_started, timed_out, ended, join, gathered,
  read_output, read_diagnostics, read_onto, Reads,
}

-- A process that could not be run or read.
abbrev pub IsFailure : LpassError → Type 0
IsFailure (LpassError.timeout t) = Unit
IsFailure (LpassError.field_too_large n) = Unit
IsFailure (LpassError.spawn why) = Unit
IsFailure _ = ⊥

abbrev Fails : {A : Type 0} → Result LpassError A → Type 0
Fails (ok a) = Unit
Fails (err e) = IsFailure e

read_onto-Fails :
    (max_bytes : ℕ) (acc : Bytes) (reads : Reads) → Fails (read_onto max_bytes acc reads)
unfolding read_onto
read_onto-Fails max_bytes acc [] = tt
read_onto-Fails max_bytes acc (err e ∷ reads) = tt
read_onto-Fails max_bytes acc (ok chunk ∷ reads) = elim (Bool-cases (is_empty chunk)) [
  | inl e ↦ rw e tt
  | inr e ↦ elim (Bool-cases (ltb max_bytes (length acc + length chunk))) [
    | inl f ↦ rw (e, f) tt
    | inr f ↦ rw (e, f) (read_onto-Fails max_bytes (acc ++ chunk) reads)
  ]
]

spawn-Fails : (r : Result Text Bytes) → Fails (map_err spawn r)
spawn-Fails (ok a) = tt
spawn-Fails (err e) = tt

join-Fails :
    (first : Bool) (r s : Result LpassError Bytes) → Fails r → Fails s → Fails (join first r s)
unfolding join
join-Fails first (ok a) (ok b) h k = tt
join-Fails first (err e) (ok b) h k = h
join-Fails first (ok a) (err f) h k = k
join-Fails true (err e) (err f) h k = k
join-Fails false (err e) (err f) h k = h

module _ (text_of : Bytes → Text) where
  gathered-Fails :
      (fed : Bool) (status : Result Text ExitStatus) (pipes : Result LpassError (Bytes × Bytes))
      → Fails pipes
      → Fails (gathered text_of fed status pipes)
  unfolding gathered
  gathered-Fails fed status (err e) h = h
  gathered-Fails fed (err e) (ok pipes) h = tt
  gathered-Fails fed (ok status) (ok (stdout, stderr)) h = tt

  outcome-Fails :
      (fed : Bool) (max_bytes : ℕ) (p : Process) → Fails (outcome text_of fed max_bytes p)
  unfolding outcome read_output read_diagnostics
  outcome-Fails fed max_bytes (not_started why) = tt
  outcome-Fails fed max_bytes timed_out = tt
  outcome-Fails fed max_bytes (ended p) =
      gathered-Fails fed p.status _
        (join-Fails p.stderr_first _ _ (read_onto-Fails max_bytes [] p.stdout) (spawn-Fails _))

  pub outcome-eq-err :
      (fed : Bool) (max_bytes : ℕ) (p : Process) (e : LpassError)
      → outcome text_of fed max_bytes p ≡ err e
      → IsFailure e
  outcome-eq-err fed max_bytes p e h = rw h at (outcome-Fails fed max_bytes p)

  gathered-fed :
      (fed : Bool) (status : Result Text ExitStatus) (pipes : Result LpassError (Bytes × Bytes))
      (out : CmdOutput)
      → gathered text_of fed status pipes ≡ ok out
      → out.fed ≡ fed
  unfolding gathered
  gathered-fed fed status (err e) out h = cc
  gathered-fed fed (err e) (ok pipes) out h = cc
  gathered-fed fed (ok status) (ok (stdout, stderr)) out h = ground arith

  pub outcome-fed :
      (fed : Bool) (max_bytes : ℕ) (p : Process) (out : CmdOutput)
      → outcome text_of fed max_bytes p ≡ ok out
      → out.fed ≡ fed
  unfolding outcome
  outcome-fed fed max_bytes (not_started why) out h = cc
  outcome-fed fed max_bytes timed_out out h = cc
  outcome-fed fed max_bytes (ended p) out h = gathered-fed fed p.status _ out h
