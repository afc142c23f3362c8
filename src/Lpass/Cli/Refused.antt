-- ===== src/Lpass/Cli/Refused.antt =====
-- What src/lpass/cli.rs does about a password that LastPass refuses.
use lastpass_ssh_agent.Prelude.{
  ℕ, ◌≡◌, refl, ap, ◌≢◌, inl, inr, true, Option, none, some, List, arith, Bool-cases, Option-cases,
  Bytes, Text, Result, ok, err, map_err,
}
use lastpass_ssh_agent.Lpass.{LpassError, wrong_master_password, no_master_password}
use lastpass_ssh_agent.Lpass.Cli.{
  Client, MasterPasswordSource, unlock, held_only, fixed, without, says_refused, classify,
  locked_out, show_field, ls, listed, shown_field, run, retried, noted, again, exec, source_asked,
  source_used, source_rejected, of_item, about_item, missing_field,
}
use lastpass_ssh_agent.Lpass.Cli.Output.{CmdOutput}
use lastpass_ssh_agent.Lpass.Cli.Output.Ends.{IsFailure, outcome-eq-err}

classify-eq-wrong :
    (id : Option Text) (out : CmdOutput)
    → classify id out ≡ wrong_master_password
    → says_refused out ≡ true
unfolding classify about_item of_item
classify-eq-wrong none out h = ground arith
classify-eq-wrong (some id) out h = elim (Option-cases (missing_field out.stderr)) [
  | inl e ↦ ground (arith, e)
  | inr (f, e) ↦ ground (arith, e)
]

-- A source that shares the held password.
abbrev pub IsShared : MasterPasswordSource → Type 0
IsShared unlock = Unit
IsShared held_only = Unit
IsShared _ = ⊥

module _ {W : Type 0} (client : Client W) (vars : List (Text × Text)) where
  -- A result that says the password was wrong only if its output does.
  abbrev Honest : Result LpassError CmdOutput → Type 0
  Honest (ok out) = Unit
  Honest (err e) = e ≢ wrong_master_password

  exec-Honest :
      (args : List Text) (password : Option Bytes) (max_bytes : ℕ) (w : W)
      → Honest (exec client vars args password max_bytes w).0
  unfolding exec
  exec-Honest args password max_bytes w =
      honest _ (λ e h. outcome-eq-err client.text_of _ max_bytes _ e h)
    where
      honest :
          (r : Result LpassError CmdOutput)
          → ((e : LpassError) → r ≡ err e → IsFailure e)
          → Honest r
      honest (ok out) h = tt
      honest (err e) h = λ k. rw k at (h e refl)

  source_asked-Honest :
      (source : MasterPasswordSource) (w : W)
      → (source_asked client vars source w).0 ≢ err wrong_master_password
  unfolding source_asked
  source_asked-Honest unlock w = mapped (client.password true w).0
    where
      mapped :
          (r : Result Text (Option Bytes))
          → ◌≢◌ {A = Result LpassError (Option Bytes)}
              (map_err no_master_password r)
              (err wrong_master_password)
      mapped (ok o) h = cc
      mapped (err e) h = cc
  source_asked-Honest without w = λ h. cc
  source_asked-Honest (fixed s) w = λ h. cc
  source_asked-Honest held_only w = λ h. cc

  again-Honest :
      (args : List Text) (max_bytes : ℕ) (out : CmdOutput)
      (a : Result LpassError (Option Bytes) × W)
      → a.0 ≢ err wrong_master_password
      → Honest (again client vars args max_bytes out a).0
  unfolding again
  again-Honest args max_bytes out (err e, w) h = λ k. h (ap err k)
  again-Honest args max_bytes out (ok none, w) h = tt
  again-Honest args max_bytes out (ok (some password), w) h =
      exec-Honest args (some password) max_bytes w

  retried-Honest :
      (source : MasterPasswordSource) (args : List Text) (max_bytes : ℕ)
      (r : Result LpassError CmdOutput × W)
      → Honest r.0
      → Honest (retried client vars source args max_bytes r).0
  unfolding retried
  retried-Honest source args max_bytes (err e, w) h = h
  retried-Honest source args max_bytes (ok out, w) h = elim (Bool-cases (locked_out out)) [
    | inl l ↦ rw l (again-Honest args max_bytes out _ (source_asked-Honest source w))
    | inr l ↦ rw l tt
  ]

  module _ (P : W → Type 0) (drops : (w : W) → P (client.rejected w))
      (kept : (w : W) → P w → P (client.touch w)) where
    -- What a call whose output refuses the password leaves.
    abbrev Dropped : Result LpassError CmdOutput × W → Type 0
    Dropped (ok out, w) = says_refused out ≡ true → P w
    Dropped (err e, w) = e ≢ wrong_master_password

    noted-Dropped :
        (source : MasterPasswordSource) (r : Result LpassError CmdOutput × W)
        → IsShared source
        → Honest r.0
        → Dropped (noted client vars source r)
    unfolding noted source_rejected source_used
    noted-Dropped source (err e, w) s h = h
    noted-Dropped unlock (ok out, w) s h = λ k. rw k (kept _ (drops w))
    noted-Dropped held_only (ok out, w) s h = λ k. rw k (drops w)
    noted-Dropped without (ok out, w) s h = absurd s
    noted-Dropped (fixed secret) (ok out, w) s h = absurd s

    run-Dropped :
        (source : MasterPasswordSource) (args : List Text) (max_bytes : ℕ) (w : W)
        → IsShared source
        → Dropped (run client vars source args max_bytes w)
    unfolding run
    run-Dropped source args max_bytes w s =
        noted-Dropped source _ s
          (retried-Honest source args max_bytes _ (exec-Honest args _ max_bytes _))

    show_dropped :
        (id : Text) (r : Result LpassError CmdOutput × W)
        → Dropped r
        → shown_field client vars id r.0 ≡ err wrong_master_password
        → P r.1
    unfolding shown_field
    show_dropped id (err e, w) d h = absurd (d (ground arith))
    show_dropped id (ok out, w) d h = elim (Bool-cases out.success) [
      | inl s ↦ absurd (cc (rw s at h))
      | inr s ↦ d (classify-eq-wrong (some id) out (ground arith))
    ]

    list_dropped :
        (r : Result LpassError CmdOutput × W)
        → Dropped r
        → listed client vars r.0 ≡ err wrong_master_password
        → P r.1
    unfolding listed
    list_dropped (err e, w) d h = absurd (d (ground arith))
    list_dropped (ok out, w) d h = elim (Bool-cases out.success) [
      | inl s ↦ absurd (cc (rw s at h))
      | inr s ↦ d (classify-eq-wrong none out (ground arith))
    ]

    pub show_field-refused :
        (source : MasterPasswordSource) (id field : Text) (w : W)
        → IsShared source
        → (show_field client vars source id field w).0 ≡ err wrong_master_password
        → P (show_field client vars source id field w).1
    unfolding show_field
    show_field-refused source id field w s h = show_dropped id _ (run-Dropped source _ _ w s) h

    pub ls-refused :
        (source : MasterPasswordSource) (w : W)
        → IsShared source
        → (ls client vars source w).0 ≡ err wrong_master_password
        → P (ls client vars source w).1
    unfolding ls
    ls-refused source w s h = list_dropped _ (run-Dropped source _ _ w s) h
