-- ===== src/Approvals/Standing.antt =====
-- `settle` of src/approvals.rs on an answer from memory.
use lastpass_ssh_agent.Approvals.{Approvals, remembered_answer, settle, file}
use lastpass_ssh_agent.Prelude.{ℕ, ◌≡◌, refl, Bool, true, false, arith, ==_iff, ok}

-- An answer from memory that `settle` lets stand is from the current epoch, and no password was
-- asked for under it.
pub settle-remembered :
    (a : Approvals) (n : ℕ) (asked signed : Bool)
    → (settle a (remembered_answer n) asked signed).0 ≡ ok tt
    → (n ≡ a.epoch.locks) × (asked ≡ false)
unfolding settle file
settle-remembered a n true signed h = ground arith
settle-remembered a n false signed h = (ground (arith, ==_iff n a.epoch.locks), refl)
