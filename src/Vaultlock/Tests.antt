-- ===== src/Vaultlock/Tests.antt =====
-- The theorem on src/vaultlock.rs at a screen that locks twice.
use lastpass_ssh_agent.Vaultlock.{watch}
use lastpass_ssh_agent.Vaultlock.Rises.{readings, rises, watch-rises}
use lastpass_ssh_agent.Prelude.{◌≡◌, Bool, true, false, Option, none, some, List, [], ◌∷◌}

abbrev samples : List (Option Bool)
samples = none ∷ some false ∷ some true ∷ some true ∷ []

watch-rises_example : watch true (some true ∷ samples) ≡ rises false (true ∷ readings 0 samples)
watch-rises_example = watch-rises true samples
