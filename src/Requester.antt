-- ===== src/Requester.antt =====
-- src/requester.rs: who is asking. Reading a process's executable and parent is the platform's, and
-- comes as the two lookups that `origin_chain_from` takes; a pid is a natural number, which a
-- process's always is.
mod Tests
pub mod Chain
use lastpass_ssh_agent.Text.{escape_for_display}
use lastpass_ssh_agent.Text.Separated.{split}
use lastpass_ssh_agent.Prelude.{
  ℕ, zero, suc, ◌-◌, not, ◌&&◌, Option, none, some, List, [], ◌∷◌, ◌++◌, ltb, leb, if◌then◌else◌,
  ◌>>=◌, ◌>>◌, guard, length, take, drop, last, Text, codes, bytes_eq,
}

pub record Ancestor : Type 0 where
  pub name : Text
  pub path : Text

pub record Requester : Type 0 where
  pub process : Text
  pub origin : List Ancestor

abbrev pub max_origin_depth : ℕ
max_origin_depth = 8

-- `strip_suffix(".app")`.
strip_app : Text → Option Text
strip_app part =
    let stem = length part - 4 in
    if leb 4 (length part) && bytes_eq (drop stem part) (codes ".app")
    then some (take stem part)
    else none

find_app : List Text → Option Text
find_app [] = none
find_app (part ∷ parts) =
    let rest = find_app parts in elim (strip_app part) [ some stem ↦ some stem | none ↦ rest ]

nonempty : Text → Option Text
nonempty [] = none
nonempty (c ∷ s) = some (c ∷ s)

-- The app bundle that a path runs from, and the file name otherwise.
unfoldable pub display_name : Text → Text
unfolding strip_app find_app nonempty
display_name path =
    let parts = split b'/' path in
    let file_name : Text = elim (last parts) [ some part ↦ part | none ↦ path ] in
    elim (find_app parts >>= nonempty) [ some stem ↦ stem | none ↦ file_name ]

module _ (parent : ℕ → Option ℕ) (path : ℕ → Option Text) where
  -- An ancestor is kept unless it repeats the one before it.
  keep_new : List Ancestor → Text → List Ancestor
  keep_new ancestors p =
      let kept = ancestors ++ (record { name = display_name p; path = p }) ∷ [] in
      elim (last ancestors) [
        | none ↦ kept
        | some a ↦ if not (bytes_eq a.path p) then kept else ancestors
      ]

  -- The next process up that is not the tree's root, and its executable.
  above : ℕ → Option (ℕ × Text)
  above current = do next ← parent current; guard (ltb 1 next); p ← path next; some (next, p)

  -- The rounds left bound the ancestors walked.
  walk : ℕ → ℕ → List Ancestor → List Ancestor
  walk zero current ancestors = ancestors
  walk (suc rounds) current ancestors = elim (above current) [
    | none ↦ ancestors
    | some (next, p) ↦ walk rounds next (keep_new ancestors (escape_for_display p))
  ]

  unfoldable pub origin_chain_from : ℕ → List Ancestor
  unfolding walk above keep_new
  origin_chain_from pid = walk max_origin_depth pid []

  -- `Requester::of`.
  unfoldable pub requester_of : ℕ → Option Requester
  requester_of pid = do
    p ← path pid
    some (record { process = escape_for_display p; origin = origin_chain_from pid })
