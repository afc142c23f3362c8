-- ===== src/Unlock/Tests.antt =====
-- The theorems on src/unlock.rs over concrete events.
use lastpass_ssh_agent.Config.{touch_id}
use lastpass_ssh_agent.Unlock.{locked_vault}
use lastpass_ssh_agent.Unlock.Held.{
  Event, asks, rejects, IsSound, store_refused, step, run, run-IsSound,
}
use lastpass_ssh_agent.Prelude.{refl, ◌≡◌, false, true, some, List, [], ◌∷◌, ok}

-- The store's password is taken, turns out to be wrong, and a typed one takes its place.
abbrev replaced : List Event
replaced =
    asks true 0 (ok (some (1 ∷ []))) (ok (2 ∷ []))
    ∷ rejects
    ∷ asks true 1 (ok (some (1 ∷ []))) (ok (2 ∷ []))
    ∷ []

locked_vault-IsSound : IsSound touch_id (some 3600) false locked_vault
locked_vault-IsSound = (refl, λ h e. cc)

run-IsSound_example :
    IsSound touch_id
      (some 3600)
      (store_refused touch_id (some 3600) false locked_vault replaced)
      (run touch_id (some 3600) locked_vault replaced)
run-IsSound_example =
    run-IsSound touch_id (some 3600) false locked_vault replaced locked_vault-IsSound

-- The rejection is part of that run's history.
replaced_refused : store_refused touch_id (some 3600) false locked_vault replaced ≡ true
unfolding step
replaced_refused = refl
