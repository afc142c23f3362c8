-- ===== src/Lpass/Discovery.antt =====
-- `discover_ssh_key_items` of src/lpass/mod.rs: the vault's items that are SSH keys, found by one probe
-- an item, of which a bounded number runs at a time. Which running probe ends next is up to `next`,
-- an arbitrary schedule. The answer to a probe is a function of the item, as each is probed once.
pub mod Order
pub mod Window
pub mod Answers
pub mod Exact
mod Tests
use lastpass_ssh_agent.Prelude.{
  ℕ, zero, suc, Bool, true, false, Option, none, some, List, [], ◌∷◌, ◌++◌, ltb, if◌then◌else◌,
  length, retain, Bytes, Text, codes, bytes_eq, ◌>>=◌, Result, ok, err,
}
use Prim.Native.Nat.{compare, Ordering}
use lastpass_ssh_agent.Lpass.{LpassError, ItemSummary, field_not_found, item_not_found}
use lastpass_ssh_agent.Prelude.Sorting.{sort_by}
use lastpass_ssh_agent.Text.Search.{contains}

abbrev pub max_discovery_probes : ℕ
max_discovery_probes = 8

-- `is_none_or(|needle| item.name.to_lowercase().contains(needle))`; `lowercase` is `to_lowercase`.
matching : (lowercase : Text → Text) → Option Text → ItemSummary → Bool
matching lowercase none item = true
matching lowercase (some needle) item = contains (lowercase needle) (lowercase item.name)

unfoldable pub candidates :
    (lowercase : Text → Text) → Option Text → List ItemSummary → List ItemSummary
unfolding matching
candidates lowercase name_filter items = retain (matching lowercase name_filter) items

-- What a probe makes of the answer: an item without the field, or gone, is not a key.
unfoldable pub probed :
    ItemSummary → Result LpassError Bytes → Result LpassError (ItemSummary × Bool)
probed item (ok note_type) = ok (item, bytes_eq note_type (codes "SSH Key"))
probed item (err (field_not_found id field)) = ok (item, false)
probed item (err (item_not_found id)) = ok (item, false)
probed item (err e) = err e

pub record Probes : Type 0 where
  pub running : List ItemSummary
  pub queued : List ItemSummary
  pub found : List ItemSummary

-- The probes that run and those that wait, once the window is full.
spawned : List ItemSummary → List ItemSummary → List ItemSummary × List ItemSummary
spawned running [] = (running, [])
spawned running (item ∷ queued) =
    let more = spawned (running ++ item ∷ []) queued in
    if ltb (length running) max_discovery_probes then more else (running, item ∷ queued)

unfoldable pub fill : Probes → Probes
unfolding spawned
fill p =
    let (running, queued) = spawned p.running p.queued in
    record p { running = running; queued = queued }

-- The one of a list that comes at a place, and the others; the last where there are too few.
pub taken : ℕ → ItemSummary → List ItemSummary → ItemSummary × List ItemSummary
taken zero x rest = (x, rest)
taken (suc n) x [] = (x, [])
taken (suc n) x (y ∷ rest) = let (z, others) = taken n y rest in (z, x ∷ others)

module _ (show_field : (item_id : Text) → Result LpassError Bytes) where
  note_type : ItemSummary → Result LpassError (ItemSummary × Bool)
  unfolding probed
  note_type item = probed item (show_field item.id)

  -- `?`, and `push`.
  collected : Probes → Result LpassError (ItemSummary × Bool) → Result LpassError Probes
  collected p (err e) = err e
  collected p (ok (item, is_ssh_key)) =
      ok (record p { found = if is_ssh_key then p.found ++ item ∷ [] else p.found })

  joined : ℕ → Probes → List ItemSummary → Option (Result LpassError Probes)
  unfolding taken note_type collected
  joined n p [] = none
  joined n p (item ∷ running) =
      let (done, others) = taken n item running in
      some (collected (record p { running = others }) (note_type done))

  -- `join_next`: nothing where no probe runs.
  unfoldable pub join_next : ℕ → Probes → Option (Result LpassError Probes)
  unfolding joined
  join_next n p = joined n p p.running

  continued :
      (Probes → Option (Result LpassError (List ItemSummary)))
      → Option (Result LpassError Probes)
      → List ItemSummary
      → Option (Result LpassError (List ItemSummary))
  continued rest none found = some (ok found)
  continued rest (some (err e)) found = some (err e)
  continued rest (some (ok p)) found = rest p

  -- The loop; `none` where the rounds run out.
  unfoldable pub discover_loop :
      (rounds : ℕ) → (next : ℕ → ℕ) → Probes → Option (Result LpassError (List ItemSummary))
  unfolding fill join_next continued
  discover_loop zero next p = none
  discover_loop (suc rounds) next p =
      let p' = fill p in continued (discover_loop rounds next) (join_next (next rounds) p') p'.found

-- `Ordering::then_with`, and what a sort reads of a comparison.
abbrev pub then_with : Ordering → Ordering → Ordering
then_with Ordering.eq other = other
then_with Ordering.lt other = Ordering.lt
then_with Ordering.gt other = Ordering.gt

abbrev pub not_greater : Ordering → Bool
not_greater Ordering.gt = false
not_greater _ = true

-- `a.cmp(b)` of two strings: by their bytes, which is by their code points.
unfoldable pub text_cmp : Text → Text → Ordering
text_cmp [] [] = Ordering.eq
text_cmp [] (d ∷ t) = Ordering.lt
text_cmp (c ∷ s) [] = Ordering.gt
text_cmp (c ∷ s) (d ∷ t) = then_with (compare c d) (text_cmp s t)

unfoldable pub item_le : ItemSummary → ItemSummary → Bool
unfolding text_cmp
item_le a b = not_greater (then_with (text_cmp a.name b.name) (text_cmp a.id b.id))

sorted : Result LpassError (List ItemSummary) → Result LpassError (List ItemSummary)
sorted (err e) = err e
sorted (ok found) = ok (sort_by item_le found)

-- One round for each candidate and one to see that none is left.
unfoldable pub discover_ssh_key_items :
    (lowercase : Text → Text)
    → (next : ℕ → ℕ) → Result LpassError (List ItemSummary)
    → (show_field : Text → Result LpassError Bytes) → (name_filter : Option Text)
    → Option (Result LpassError (List ItemSummary))
unfolding candidates discover_loop sorted
discover_ssh_key_items lowercase next (err e) show_field name_filter = some (err e)
discover_ssh_key_items lowercase next (ok items) show_field name_filter =
    let probes = candidates lowercase name_filter items in
    discover_loop show_field (suc (length probes)) next
      (record { running = []; queued = probes; found = [] })
    >>= λ result. some (sorted result)
