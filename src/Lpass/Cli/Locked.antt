-- ===== src/Lpass/Cli/Locked.antt =====
-- When a call of src/lpass/cli.rs comes back as locked.
use lastpass_ssh_agent.Prelude.{
  ℕ, ◌≡◌, refl, ap, ◌≢◌, inl, inr, true, false, Option, none, some, List, arith, Bool-cases,
  Option-cases, Bytes, Text, Result, ok, err, map_err,
}
use lastpass_ssh_agent.Lpass.{LpassError, locked, no_master_password}
use lastpass_ssh_agent.Lpass.Cli.{
  Client, unlock, classify, locked_out, show_field, ls, listed, shown_field, run, retried, noted,
  again, exec, source_asked, of_item, about_item, missing_field,
}
use lastpass_ssh_agent.Lpass.Cli.Output.{Process, CmdOutput, outcome}
use lastpass_ssh_agent.Lpass.Cli.Output.Ends.{IsFailure, outcome-eq-err, outcome-fed}

-- Only an unfed run that misses the key.
classify-eq-locked :
    (id : Option Text) (out : CmdOutput)
    → classify id out ≡ locked
    → out.success ≡ false
    → locked_out out ≡ true
unfolding classify about_item of_item locked_out
classify-eq-locked none out h s = ground arith
classify-eq-locked (some id) out h s = elim (Option-cases (missing_field out.stderr)) [
  | inl e ↦ ground (arith, e)
  | inr (f, e) ↦ ground (arith, e)
]

-- An error that is not `locked`, or an output that is not.
abbrev IsOpen : Result LpassError CmdOutput → Type 0
IsOpen (ok out) = locked_out out ≡ false
IsOpen (err e) = e ≢ locked

fed-IsOpen : (out : CmdOutput) → out.fed ≡ true → locked_out out ≡ false
unfolding locked_out
fed-IsOpen out h = ground arith

not-failure : (e : LpassError) → IsFailure e → e ≢ locked
not-failure e f h = rw h at f

module _ {W : Type 0} (client : Client W) (vars : List (Text × Text)) where
  fed_run :
      (max_bytes : ℕ) (p : Process) (r : Result LpassError CmdOutput)
      → outcome client.text_of true max_bytes p ≡ r
      → IsOpen r
  fed_run max_bytes p (ok out) h =
      fed-IsOpen out (outcome-fed client.text_of true max_bytes p out h)
  fed_run max_bytes p (err e) h = not-failure e (outcome-eq-err client.text_of true max_bytes p e h)

  again-IsOpen :
      (args : List Text) (max_bytes : ℕ) (out : CmdOutput)
      (a : Result LpassError (Option Bytes) × W)
      → a.0 ≢ ok none
      → a.0 ≢ err locked
      → IsOpen (again client vars args max_bytes out a).0
  unfolding again exec
  again-IsOpen args max_bytes out (err e, w) n l = λ h. l (ap err h)
  again-IsOpen args max_bytes out (ok none, w) n l = absurd (n refl)
  again-IsOpen args max_bytes out (ok (some password), w) n l = fed_run max_bytes _ _ refl

  module _ (asks : (w : W) → (client.password true w).0 ≢ ok none) where
    asked_given :
        (w : W)
        → ((source_asked client vars unlock w).0 ≢ ok none)
          × ((source_asked client vars unlock w).0 ≢ err locked)
    unfolding source_asked
    asked_given w = given (client.password true w).0 (asks w)
      where
        given :
            (r : Result Text (Option Bytes))
            → r ≢ ok none
            → (◌≢◌ {A = Result LpassError (Option Bytes)} (map_err no_master_password r) (ok none))
              × (◌≢◌ {A = Result LpassError (Option Bytes)}
                  (map_err no_master_password r)
                  (err locked))
        given (ok o) h = (λ e. h (ground arith), λ e. cc)
        given (err t) h = (λ e. cc, λ e. cc)

    retried-IsOpen :
        (args : List Text) (max_bytes : ℕ) (r : Result LpassError CmdOutput × W)
        → ((e : LpassError) → r.0 ≡ err e → e ≢ locked)
        → IsOpen (retried client vars unlock args max_bytes r).0
    unfolding retried
    retried-IsOpen args max_bytes (err e, w) h = h e refl
    retried-IsOpen args max_bytes (ok out, w) h = elim (Bool-cases (locked_out out)) [
      | inl l ↦
          let (n, m) = asked_given w in
          rw l (again-IsOpen args max_bytes out (source_asked client vars unlock w) n m)
      | inr l ↦ rw l l
    ]

    noted-IsOpen :
        (r : Result LpassError CmdOutput × W) → IsOpen r.0 → IsOpen (noted client vars unlock r).0
    unfolding noted
    noted-IsOpen (err e, w) h = h
    noted-IsOpen (ok out, w) h = h

    run-IsOpen :
        (args : List Text) (max_bytes : ℕ) (w : W)
        → IsOpen (run client vars unlock args max_bytes w).0
    unfolding run exec
    run-IsOpen args max_bytes w = noted-IsOpen _ (
        retried-IsOpen args max_bytes _
          λ e h. not-failure e (outcome-eq-err client.text_of _ max_bytes _ e h))

    shown_field-open :
        (id : Text) (r : Result LpassError CmdOutput)
        → IsOpen r
        → shown_field client vars id r ≢ err locked
    unfolding shown_field
    shown_field-open id (err e) h k = h (ground arith)
    shown_field-open id (ok out) h k = elim (Bool-cases out.success) [
      | inl s ↦ cc (rw s at k)
      | inr s ↦ cc (classify-eq-locked (some id) out (ground arith) s)
    ]

    listed-open : (r : Result LpassError CmdOutput) → IsOpen r → listed client vars r ≢ err locked
    unfolding listed
    listed-open (err e) h k = h (ground arith)
    listed-open (ok out) h k = elim (Bool-cases out.success) [
      | inl s ↦ cc (rw s at k)
      | inr s ↦ cc (classify-eq-locked none out (ground arith) s)
    ]

    pub show_field-asks :
        (id field : Text) (w : W) → (show_field client vars unlock id field w).0 ≢ err locked
    unfolding show_field
    show_field-asks id field w = shown_field-open id _ (run-IsOpen _ _ w)

    pub ls-asks : (w : W) → (ls client vars unlock w).0 ≢ err locked
    unfolding ls
    ls-asks w = listed-open _ (run-IsOpen _ _ w)
