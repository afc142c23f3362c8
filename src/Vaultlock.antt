-- ===== src/Vaultlock.antt =====
-- `watch` of src/vaultlock.rs: the screen sampled at an interval, and the password forgotten when it
-- locks. A run is the list of the samples, `none` where the screen could not be read; it ends with
-- the process. What is returned is how often the password was forgotten.
pub mod Rises
mod Tests
use lastpass_ssh_agent.Prelude.{
  ℕ, suc, ◌+◌, Bool, true, false, not, ◌&&◌, Option, none, some, List, [], ◌∷◌, leb, if◌then◌else◌,
}

abbrev pub max_unreadable_in_a_row : ℕ
max_unreadable_in_a_row = 3

pub locking_now : (previous current : Bool) → Bool
locking_now previous current = current && not previous

pub watching : (previous current : Bool) → (unreadable : ℕ) → List (Option Bool) → ℕ
unfolding locking_now
watching previous current unreadable [] = if locking_now previous current then 1 else 0
watching previous current unreadable (some next ∷ samples) =
    let rest = watching current next 0 samples in
    if locking_now previous current then suc rest else rest
watching previous current unreadable (none ∷ samples) =
    let later = watching current current (unreadable + 1) samples in
    let rest = if leb max_unreadable_in_a_row (unreadable + 1) then 0 else later in
    if locking_now previous current then suc rest else rest

pub watch : (enabled : Bool) → List (Option Bool) → ℕ
unfolding watching
watch false samples = 0
watch true [] = 0
watch true (none ∷ samples) = 0
watch true (some locked ∷ samples) = watching false locked 0 samples
