-- ===== src/Approvals.antt =====
-- src/approvals.rs: approvals remembered until the vault locks. The counters are `u64` atomics; the
-- agent runs on one thread, so what a function does between two awaits is one step.
mod Tests
pub mod Lifetime
pub mod History
pub mod Standing
use lastpass_ssh_agent.Prelude.Maps.{lookup, insert, retain_values}
use lastpass_ssh_agent.Prelude.{
  ℕ, ◌+◌, ◌%◌, ◌^◌, Bool, true, false, not, ◌||◌, Option, none, some, List, [], ◌==◌, if◌then◌else◌,
  ◌>>=◌, ◌>>◌, guard, Text, Result, ok, err,
}

abbrev pub u64_mod : ℕ
u64_mod = 2 ^ 64

pub record LockEpoch : Type 0 where
  pub locks : ℕ
  pub unlocks : ℕ

-- `LockEpoch::default`.
abbrev pub no_locks : LockEpoch
no_locks = record { locks = 0; unlocks = 0 }

-- `fetch_add(1)` wraps around.
abbrev pub bump : LockEpoch → LockEpoch
bump e = record e { locks = (e.locks + 1) % u64_mod }

abbrev pub unlocked : LockEpoch → LockEpoch
unlocked e = record e { unlocks = (e.unlocks + 1) % u64_mod }

pub data Answer : Type 0 where
  not_needed : Answer
  remembered_answer : ℕ → Answer
  given : Option Text → ℕ → Answer

pub data Voided : Type 0 where
  voided : Voided

pub record Approvals : Type 0 where
  pub enabled : Bool
  pub epoch : LockEpoch
  pub remembered : List (Text × ℕ)

abbrev pub new : Bool → LockEpoch → Approvals
new enabled epoch = record { enabled = enabled; epoch = epoch; remembered = [] }

abbrev pub off : Approvals
off = new false no_locks

-- The epoch a question was approved in, if that is the current one.
pub remembered_in : Approvals → Text → Option ℕ
remembered_in a question = do
  answered_in ← lookup question a.remembered
  guard (answered_in == a.epoch.locks)
  some answered_in

pub remember_in : Approvals → Text → ℕ → Approvals
remember_in a question epoch =
    if not a.enabled || not (epoch == a.epoch.locks) then a else record a {
      remembered = insert question epoch (retain_values (λ e. e == epoch) a.remembered);
    }

-- What an answer comes to when the epoch is up to date; `epoch + 1` is checked, and stays below the
-- counter's bound.
unfoldable pub file :
    Approvals → Answer → (asked signed : Bool) → Result Voided (Unit {0}) × Approvals
unfolding remember_in
file a not_needed asked signed = (ok tt, a)
file a (remembered_answer epoch) asked signed =
    if asked || not (epoch == a.epoch.locks) then (err voided, a) else (ok tt, a)
file a (given (some question) epoch) asked true =
    (ok tt, remember_in a question (if asked then epoch + 1 else epoch))
file a (given (some question) epoch) asked false = (ok tt, a)
file a (given none epoch) asked signed = (ok tt, a)

unfoldable pub settle :
    Approvals → Answer → (asked signed : Bool) → Result Voided (Unit {0}) × Approvals
unfolding file
settle a answer asked signed =
    file (if asked then record a { epoch = bump a.epoch } else a) answer asked signed
