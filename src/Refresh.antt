-- ===== src/Refresh.antt =====
-- `Refresher` of src/refresh.rs: when a background scan starts. A time is a natural number. What a
-- scan does is in Refresh.Scan; here it is between its start and its end.
pub mod Throttle
pub mod Scan
pub mod Restart
mod Tests
use lastpass_ssh_agent.Prelude.{
  ℕ, ◌-◌, Bool, true, false, Option, none, some, ltb, if◌then◌else◌, last,
}

pub record Refresher : Type 0 where
  pub last : Option ℕ
  pub running : Bool

-- `began.elapsed() < interval`.
too_soon : (interval now : ℕ) → Option ℕ → Bool
too_soon interval now none = false
too_soon interval now (some began) = ltb (now - began) interval

-- `due`: whether an attempt is due, and if so, that one has begun.
pub due : (interval now : ℕ) → Refresher → Bool × Refresher
unfolding too_soon
due interval now r =
    if too_soon interval now r.last then (false, r) else (true, record r { last = some now })

-- `spawn`: whether a scan starts.
pub spawn : Refresher → Bool × Refresher
spawn r = if r.running then (false, r) else (true, record r { running = true })

pub if_due : Bool × Refresher → Bool × Refresher
unfolding spawn
if_due (true, r) = spawn r
if_due (false, r) = (false, r)

pub after_signature : (interval now : ℕ) → Refresher → Bool × Refresher
unfolding due if_due
after_signature interval now r = if r.running then (false, r) else if_due (due interval now r)

pub at_startup : Refresher → Bool × Refresher
unfolding spawn
at_startup r = spawn r

-- The end of a scan.
pub finished : Refresher → Refresher
finished r = record r { running = false }
