-- ===== src/Vaultlock/Rises.antt =====
-- What the watch counts.
use lastpass_ssh_agent.Vaultlock.{watch, watching, locking_now}
use lastpass_ssh_agent.Prelude.{
  ℕ, suc, ◌≡◌, refl, Bool, true, false, not, ◌&&◌, Option, none, some, List, [], ◌∷◌, arith, leb,
  if◌then◌else◌,
}

-- The readings that a run acts on: those up to the third sample in a row that could not be read.
pub readings : (unreadable : ℕ) → List (Option Bool) → List Bool
readings n [] = []
readings n (some b ∷ samples) = b ∷ readings 0 samples
readings n (none ∷ samples) =
    let rest = readings (suc n) samples in if leb 3 (suc n) then [] else rest

-- How often the screen goes from unlocked to locked.
pub rises : Bool → List Bool → ℕ
rises before [] = 0
rises before (now ∷ later) =
    let rest = rises now later in if now && not before then suc rest else rest

-- A reading that repeats the one before it is no rise.
rises_same : (c : Bool) (bs : List Bool) → rises c (c ∷ bs) ≡ rises c bs
unfolding rises
rises_same true bs = refl
rises_same false bs = refl

watching-rises :
    (p c : Bool) (n : ℕ) (samples : List (Option Bool))
    → watching p c n samples ≡ rises p (c ∷ readings n samples)
unfolding watching locking_now rises readings
watching-rises p c n [] = ground arith
watching-rises p c n (some b ∷ samples) = ground (arith, watching-rises c b 0 samples)
watching-rises p c n (none ∷ samples) =
    ground (arith, watching-rises c c (suc n) samples, rises_same c (readings (suc n) samples))

-- An enabled watch whose first sample can be read forgets the password once for each time the screen
-- goes from unlocked to locked, taking it as unlocked before the first sample, until three samples
-- in a row cannot be read.
pub watch-rises :
    (first : Bool) (samples : List (Option Bool))
    → watch true (some first ∷ samples) ≡ rises false (first ∷ readings 0 samples)
unfolding watch
watch-rises first samples = watching-rises false first 0 samples
