-- ===== src/Lpass/Discovery/Answers.antt =====
-- What the vault says of the items that src/lpass/mod.rs probes, and what is found among them.
use lastpass_ssh_agent.Prelude.{
  AnyOf-middle, retain-middle, All-middle, AnyOf, retain-append, ◌≡◌, refl, sym, ap, ◌∙◌, ◌⊎◌, inl,
  inr, Bool, false, List, [], ◌∷◌, ◌++◌, append_assoc, if◌then◌else◌, Bool-cases, retain, All,
  Bytes, Text, codes, bytes_eq, Result, ok, err,
}
use lastpass_ssh_agent.Prelude.Sorting.{sort_by, insert_sorted, sort_by-middle}
use lastpass_ssh_agent.Lpass.{
  not_logged_in, locked, wrong_master_password, no_master_password, timeout, field_too_large, spawn,
  command_failed, field_not_found, item_not_found, LpassError, ItemSummary,
}
use lastpass_ssh_agent.Lpass.Discovery.{note_type, item_le, probed}
use lastpass_ssh_agent.Lpass.Discovery.Order.{item_le_total, item_le_trans, item_le_antisymm}

-- The order by name, and by id among items of one name.
abbrev pub by_name : List ItemSummary → List ItemSummary
by_name = sort_by item_le

by_name-middle :
    (xs : List ItemSummary) (x : ItemSummary) (ys : List ItemSummary)
    → by_name (xs ++ x ∷ ys) ≡ insert_sorted item_le x (by_name (xs ++ ys))
by_name-middle = sort_by-middle item_le item_le_total item_le_trans item_le_antisymm

-- The vault's word on an item: what it has, or that it has no such field or no such item.
abbrev pub IsAnswer : Result LpassError Bytes → Type 0
IsAnswer (ok note_type) = Unit
IsAnswer (err (field_not_found item field)) = Unit
IsAnswer (err (item_not_found item)) = Unit
IsAnswer (err e) = ⊥

abbrev pub is_key : Result LpassError Bytes → Bool
is_key (ok note_type) = bytes_eq note_type (codes "SSH Key")
is_key (err e) = false

pub probed_cases :
    (item : ItemSummary) (r : Result LpassError Bytes)
    → ((probed item r ≡ ok (item, is_key r)) × IsAnswer r)
      ⊎ ((e : LpassError) × (probed item r ≡ err e) × (r ≡ err e) × ¬ IsAnswer r)
unfolding probed
probed_cases item (ok note_type) = inl (refl, tt)
probed_cases item (err (field_not_found id field)) = inl (refl, tt)
probed_cases item (err (item_not_found id)) = inl (refl, tt)
probed_cases item (err not_logged_in) = inr (not_logged_in, refl, refl, λ h. h)
probed_cases item (err locked) = inr (locked, refl, refl, λ h. h)
probed_cases item (err wrong_master_password) = inr (wrong_master_password, refl, refl, λ h. h)
probed_cases item (err (no_master_password why)) = inr (no_master_password why, refl, refl, λ h. h)
probed_cases item (err (timeout t)) = inr (timeout t, refl, refl, λ h. h)
probed_cases item (err (field_too_large n)) = inr (field_too_large n, refl, refl, λ h. h)
probed_cases item (err (spawn why)) = inr (spawn why, refl, refl, λ h. h)
probed_cases item (err (command_failed code why)) =
    inr (command_failed code why, refl, refl, λ h. h)

module _ (show_field : Text → Result LpassError Bytes) where
  abbrev pub is_ssh_key : ItemSummary → Bool
  is_ssh_key item = is_key (show_field item.id)

  abbrev pub Answered : ItemSummary → Type 0
  Answered item = IsAnswer (show_field item.id)

  -- One of the items gets no answer but the error.
  abbrev pub FailsWith : LpassError → List ItemSummary → Type 0
  FailsWith e = AnyOf (λ item. (show_field item.id ≡ err e) × ¬ Answered item)

  -- What the loop returns for the items that are still to be probed.
  abbrev pub Settles :
      List ItemSummary → List ItemSummary → Result LpassError (List ItemSummary) → Type 0
  Settles items found (ok out) =
      All Answered items × (by_name out ≡ by_name (found ++ retain is_ssh_key items))
  Settles items found (err e) = FailsWith e items

  -- A key that was found stands where the order puts it.
  by_name-found :
      (before : List ItemSummary) (item : ItemSummary) (after found : List ItemSummary)
      → by_name (
          (if is_ssh_key item then found ++ item ∷ [] else found)
          ++ retain is_ssh_key (before ++ after))
        ≡ by_name (found ++ retain is_ssh_key (before ++ item ∷ after))
  by_name-found before item after found = elim (Bool-cases (is_ssh_key item)) [
    | inl e ↦ rw e (kept (rw e at (retain-middle is_ssh_key before item after)))
    | inr e ↦ rw e (
        ap (λ l. by_name (found ++ l))
          (retain-append is_ssh_key before after
            ∙ sym (rw e at (retain-middle is_ssh_key before item after))))
  ]
    where
      kept :
          retain is_ssh_key (before ++ item ∷ after)
            ≡ retain is_ssh_key before ++ item ∷ retain is_ssh_key after
          → by_name ((found ++ item ∷ []) ++ retain is_ssh_key (before ++ after))
            ≡ by_name (found ++ retain is_ssh_key (before ++ item ∷ after))
      kept split =
          ap by_name (append_assoc found (item ∷ []) (retain is_ssh_key (before ++ after)))
          ∙ by_name-middle found item (retain is_ssh_key (before ++ after))
          ∙ ap (λ l. insert_sorted item_le item (by_name (found ++ l)))
              (retain-append is_ssh_key before after)
          ∙ ap (λ l. insert_sorted item_le item (by_name l))
              (sym (append_assoc found (retain is_ssh_key before) (retain is_ssh_key after)))
          ∙ sym (by_name-middle (found ++ retain is_ssh_key before) item (retain is_ssh_key after))
          ∙ ap by_name
              (append_assoc found (retain is_ssh_key before) (item ∷ retain is_ssh_key after))
          ∙ ap (λ l. by_name (found ++ l)) (sym split)

  -- One probe more.
  pub Settles-middle :
      (before : List ItemSummary) (item : ItemSummary) (after found : List ItemSummary)
      (r : Result LpassError (List ItemSummary))
      → Answered item
      → Settles (before ++ after) (if is_ssh_key item then found ++ item ∷ [] else found) r
      → Settles (before ++ item ∷ after) found r
  Settles-middle before item after found (ok out) a (all, e) =
      (All-middle Answered before item after a all, e ∙ by_name-found before item after found)
  Settles-middle before item after found (err e) a f = AnyOf-middle _ before item after f
