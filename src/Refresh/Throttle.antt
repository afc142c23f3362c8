-- ===== src/Refresh/Throttle.antt =====
-- How often signatures start a scan.
use mathlib.Core.Path.{subst}
use lastpass_ssh_agent.Refresh.{
  Refresher, too_soon, due, spawn, if_due, after_signature, at_startup, finished,
}
use lastpass_ssh_agent.Prelude.{
  ℕ, ◌-◌, ◌≤◌, ◌≡◌, ◌⊎◌, inl, inr, true, false, Option, none, some, List, [], ◌∷◌, arith,
  if◌then◌else◌, Bool-cases,
}

pub data Event : Type 0 where
  signature : (now : ℕ) → Event
  startup finish : Event

-- The times at which a signature started a scan.
pub starts : (interval : ℕ) → Refresher → List Event → List ℕ
unfolding after_signature at_startup finished
starts interval r [] = []
starts interval r (signature now ∷ es) =
    let (begun, r') = after_signature interval now r in
    let later = starts interval r' es in if begun then now ∷ later else later
starts interval r (startup ∷ es) = starts interval (at_startup r).1 es
starts interval r (finish ∷ es) = starts interval (finished r) es

-- Each is the interval after the one before it.
abbrev pub Spaced : (interval : ℕ) → Option ℕ → List ℕ → Type 0
Spaced interval before [] = Unit
Spaced interval none (now ∷ later) = Spaced interval (some now) later
Spaced interval (some began) (now ∷ later) =
    (interval ≤ now - began) × Spaced interval (some now) later

last-at_startup : (r : Refresher) → (at_startup r).1.last ≡ r.last
unfolding at_startup spawn
last-at_startup r = ground arith

-- What a signature leaves: no start and the same last attempt, or a start that is an attempt.
after_signature_lem :
    (interval now : ℕ) (r : Refresher)
    → ((after_signature interval now r).0 ≡ false)
        × ((after_signature interval now r).1.last ≡ r.last)
      ⊎ ((after_signature interval now r).0 ≡ true)
        × ((after_signature interval now r).1.last ≡ some now)
        × (too_soon interval now r.last ≡ false)
unfolding after_signature due if_due spawn
after_signature_lem interval now r = elim (Bool-cases r.running) [
  | inl e ↦ inl (ground arith, ground arith)
  | inr e ↦ elim (Bool-cases (too_soon interval now r.last)) [
    | inl s ↦ inl (ground arith, ground arith)
    | inr s ↦ inr (ground arith, ground arith, s)
  ]
]

too_soon-Spaced :
    (interval now : ℕ) (o : Option ℕ) (later : List ℕ)
    → too_soon interval now o ≡ false
    → Spaced interval (some now) later
    → Spaced interval o (now ∷ later)
unfolding too_soon
too_soon-Spaced interval now none later h s = s
too_soon-Spaced interval now (some began) later h s = (ground arith, s)

-- The scans that signatures start are at least the interval apart, the first of them from the last
-- attempt before the run if there was one, whatever scans start otherwise and end in between.
pub starts-Spaced :
    (interval : ℕ) (r : Refresher) (es : List Event) → Spaced interval r.last (starts interval r es)
unfolding starts
starts-Spaced interval r [] = tt
starts-Spaced interval r (signature now ∷ es) =
    let ih = starts-Spaced interval (after_signature interval now r).1 es in
    elim (after_signature_lem interval now r) [
      | inl (quiet, same) ↦ rw quiet (
          subst (λ o. Spaced interval o (starts interval (after_signature interval now r).1 es))
            same ih)
      | inr (loud, begun, long) ↦ rw loud (
          too_soon-Spaced interval now r.last _ long (
            subst (λ o. Spaced interval o (starts interval (after_signature interval now r).1 es))
              begun ih))
    ]
starts-Spaced interval r (startup ∷ es) =
    subst (λ o. Spaced interval o (starts interval (at_startup r).1 es)) (last-at_startup r)
      (starts-Spaced interval (at_startup r).1 es)
starts-Spaced interval r (finish ∷ es) = starts-Spaced interval (finished r) es
