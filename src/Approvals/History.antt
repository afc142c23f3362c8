-- ===== src/Approvals/History.antt =====
-- src/approvals.rs over a whole run: the vault locks, passwords are asked for, requests settle.
use lastpass_ssh_agent.Approvals.{
  not_needed, remembered_answer, u64_mod, bump, unlocked, Answer, given, Approvals, settle,
}
use lastpass_ssh_agent.Approvals.Lifetime.{
  honoured-unlocked, settle_frame, honoured, IsValid, approves, bump-IsValid, settle-IsValid,
  honoured-bump, honoured-settle,
}
use lastpass_ssh_agent.Prelude.{
  sym, ℕ, ◌+◌, ◌%◌, ◌<◌, ◌≡◌, refl, sym, ◌∙◌, Bool, true, false, not, ◌&&◌, ◌||◌, none, some, List,
  [], ◌∷◌, arith, ◌==◌, if◌then◌else◌, length, Text, bytes_eq,
}

pub data Event : Type 0 where
  locks asks : Event
  settles : Answer → (asked signed : Bool) → Event

pub step : Approvals → Event → Approvals
step a locks = record a { epoch = bump a.epoch }
step a asks = record a { epoch = unlocked a.epoch }
step a (settles answer asked signed) = (settle a answer asked signed).1

pub run : Approvals → List Event → Approvals
unfolding step
run a [] = a
run a (e ∷ es) = run (step a e) es

-- One question over the same events: how often the vault has locked, and whether the question is
-- approved. No map, no dead entries, no counter that wraps.
pub approved : (enabled : Bool) (question : Text) → ℕ → Bool → List Event → Bool
approved on q n b [] = b
approved on q n b (locks ∷ es) = approved on q (n + 1) false es
approved on q n b (asks ∷ es) = approved on q n b es
approved on q n b (settles (given (some p) e) asked true ∷ es) =
    approved on q (if asked then n + 1 else n)
      ((on && (e == n && bytes_eq p q)) || (not asked && b)) es
approved on q n b (settles answer asked signed ∷ es) =
    approved on q (if asked then n + 1 else n) (not asked && b) es

settles-locks :
    (a : Approvals) (answer : Answer) (asked signed : Bool)
    → a.epoch.locks + 1 < u64_mod
    → (settle a answer asked signed).1.epoch.locks
      ≡ (if asked then a.epoch.locks + 1 else a.epoch.locks)
settles-locks a answer asked signed h = ground (arith, (settle_frame a answer asked signed).1)

approved-settles :
    (q : Text) (a : Approvals) (b : Bool) (answer : Answer) (asked signed : Bool) (es : List Event)
    → approved a.enabled q a.epoch.locks b (settles answer asked signed ∷ es)
      ≡ approved a.enabled q
          (if asked then a.epoch.locks + 1 else a.epoch.locks)
          (approves a answer signed q || (not asked && b))
          es
unfolding approved approves
approved-settles q a b not_needed asked signed es = refl
approved-settles q a b (remembered_answer n) asked signed es = refl
approved-settles q a b (given none n) asked signed es = refl
approved-settles q a b (given (some p) n) asked false es = refl
approved-settles q a b (given (some p) n) asked true es = refl

approved_after :
    (q : Text) (es : List Event) {on on' : Bool} (n n' : ℕ) {b b' : Bool}
    → on ≡ on'
    → n ≡ n'
    → b ≡ b'
    → approved on q n b es ≡ approved on' q n' b' es
approved_after q es n n' e f g = cc

-- From any well-formed state and over any events, fewer than it takes for the lock counter to wrap
-- around, a question is honoured at the end exactly when the events since the last lock approve
-- it, or when it was honoured at the start and nothing has ended that.
pub honoured-run :
    (a : Approvals) (es : List Event) (q : Text)
    → IsValid a
    → a.epoch.locks + length es < u64_mod
    → honoured (run a es) q ≡ approved a.enabled q a.epoch.locks (honoured a q) es
unfolding run approved
honoured-run a [] q v h = refl
honoured-run a (locks ∷ es) q v h =
    honoured-run (step a locks) es q (bump-IsValid a v (omega arith)) (omega arith)
    ∙ approved_after q es ((a.epoch.locks + 1) % u64_mod) (a.epoch.locks + 1) refl (omega arith)
        (honoured-bump a q v (omega arith))
honoured-run a (asks ∷ es) q v h =
    honoured-run (step a asks) es q (record { keys = v.keys; past = v.past }) (omega arith)
    ∙ approved_after q es a.epoch.locks a.epoch.locks refl refl (honoured-unlocked a q)
honoured-run a (settles answer asked signed ∷ es) q v h =
    honoured-run (settle a answer asked signed).1 es q
      (settle-IsValid a answer asked signed v (omega arith))
      (ground (arith, settles-locks a answer asked signed))
    ∙ approved_after q es _ _ (settle_frame a answer asked signed).0
        (settles-locks a answer asked signed (omega arith))
        (honoured-settle a answer asked signed q v (omega arith))
    ∙ sym (approved-settles q a (honoured a q) answer asked signed es)
