-- ===== src/Approvals/Tests.antt =====
-- The theorems on src/approvals.rs over concrete events.
use lastpass_ssh_agent.Approvals.{Approvals, given, new, no_locks}
use lastpass_ssh_agent.Approvals.Lifetime.{honoured, IsValid}
use lastpass_ssh_agent.Approvals.History.{Event, locks, asks, settles, run, approved, honoured-run}
use lastpass_ssh_agent.Prelude.{◌≡◌, true, false, some, List, [], ◌∷◌, arith, Text, codes}

abbrev question : Text
question = codes "deploy key"

abbrev fresh : Approvals
fresh = new true no_locks

fresh-IsValid : IsValid fresh
fresh-IsValid = record { keys = tt; past = tt }

-- Approved, and then the screen locks.
abbrev morning : List Event
morning = settles (given (some question) 0) false true ∷ asks ∷ locks ∷ []

honoured-run_example :
    honoured (run fresh morning) question
    ≡ approved true question 0 (honoured fresh question) morning
honoured-run_example = honoured-run fresh morning question fresh-IsValid (omega arith)
