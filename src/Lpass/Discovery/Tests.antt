-- ===== src/Lpass/Discovery/Tests.antt =====
-- The theorems on the discovery of src/lpass/mod.rs at a vault of ten items, whose probes end last in
-- first out.
use lastpass_ssh_agent.Prelude.{
  ℕ, ◌-◌, ◌≤◌, ◌≡◌, refl, ◌↔◌, ◌⊎◌, ◌||◌, none, some, List, [], ◌∷◌, if◌then◌else◌, length, retain,
  All, Bytes, Text, codes, bytes_eq, Result, ok, err,
}
use lastpass_ssh_agent.Lpass.{LpassError, ItemSummary, field_not_found, not_logged_in}
use lastpass_ssh_agent.Prelude.Sorting.{sort_by}
use lastpass_ssh_agent.Lpass.Discovery.{
  item_le, Probes, fill, candidates, discover_ssh_key_items, max_discovery_probes,
}
use lastpass_ssh_agent.Lpass.Discovery.Answers.{by_name, is_ssh_key, Answered, FailsWith}
use lastpass_ssh_agent.Lpass.Discovery.Exact.{discover_found, discover_fails, discover_ends}
use lastpass_ssh_agent.Lpass.Discovery.Window.{start, Reach-IsFull}

abbrev item : ℕ → ItemSummary
item digit = record { id = digit ∷ []; name = (0x69 - digit) ∷ [] }

abbrev vault : List ItemSummary
vault =
    item 0x30
    ∷ item 0x31
    ∷ item 0x32
    ∷ item 0x33
    ∷ item 0x34
    ∷ item 0x35
    ∷ item 0x36
    ∷ item 0x37
    ∷ item 0x38
    ∷ item 0x39
    ∷ []

-- Two of the items are keys, and one is no note.
abbrev show_field : Text → Result LpassError Bytes
show_field id =
    if bytes_eq id (codes "3") || bytes_eq id (codes "9")
    then ok (codes "SSH Key")
    else if bytes_eq id (codes "4")
    then err (field_not_found id (codes "NoteType"))
    else ok (codes "Server")

abbrev broken : Text → Result LpassError Bytes
broken id = if bytes_eq id (codes "5") then err not_logged_in else show_field id

abbrev last_first : ℕ → ℕ
last_first n = 7

found_in_order :
    discover_ssh_key_items (λ s. s) last_first (ok vault) show_field none
    ≡ some (ok (item 0x39 ∷ item 0x33 ∷ []))
unfolding discover_ssh_key_items bytes_eq sort_by item_le
found_in_order = refl

discover_found_example :
    (discover_ssh_key_items (λ s. s) last_first (ok vault) show_field none
      ≡ some (ok (item 0x39 ∷ item 0x33 ∷ [])))
    ↔ (All (Answered show_field) (candidates (λ s. s) none vault)
        × (item 0x39 ∷ item 0x33 ∷ []
            ≡ by_name (retain (is_ssh_key show_field) (candidates (λ s. s) none vault))))
discover_found_example =
    discover_found (λ s. s) last_first show_field none vault (item 0x39 ∷ item 0x33 ∷ [])

discover_fails_example :
    (e : LpassError) × (discover_ssh_key_items (λ s. s) last_first (ok vault) broken none
      ≡ some (err e))
    × FailsWith broken e (candidates (λ s. s) none vault)
unfolding candidates bytes_eq
discover_fails_example = discover_fails (λ s. s) last_first broken none vault (λ h. h.1.1.1.1.1.0)

discover_ends_example :
    (r : Result LpassError (List ItemSummary)) × (discover_ssh_key_items
        (λ s. s)
        last_first
        (ok vault)
        broken
        none
      ≡ some r)
discover_ends_example = discover_ends (λ s. s) last_first (ok vault) broken none

abbrev first_round : Probes
first_round = fill (record { running = []; queued = vault; found = [] })

Reach-IsFull_example :
    (length first_round.running ≤ max_discovery_probes)
    × ((first_round.queued ≡ []) ⊎ (length first_round.running ≡ max_discovery_probes))
Reach-IsFull_example = Reach-IsFull show_field vault start
