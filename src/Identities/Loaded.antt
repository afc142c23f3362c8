-- ===== src/Identities/Loaded.antt =====
-- What src/identities.rs reads back.
use mathlib.Core.Path.{subst}
use lastpass_ssh_agent.Prelude.{
  err, take_all, ◌↔◌, length-take, some-eq, ap, some, ◌+◌, Result, Text, false, take, ◌∙◌, ◌≤◌, ◌≡◌,
  refl, inl, inr, true, List, [], ◌∷◌, arith, ltb, ltb→ge, Bool-cases, length, All, Bytes, ok,
  and_then-eq-ok,
}
use lastpass_ssh_agent.Config.{is_item_id, all}
use lastpass_ssh_agent.Keystore.{RememberedKey}
use lastpass_ssh_agent.Identities.{
  Held, save_best_effort, save, encoded, written, holds, loaded, load, or_absent, Toml, decoded,
  with_ids, max_bytes,
}

all_ids :
    (keys : List RememberedKey)
    → all (λ key. is_item_id key.id) keys ≡ true
    → All (λ key. is_item_id key.id ≡ true) keys
unfolding all
all_ids [] h = tt
all_ids (key ∷ keys) h = (ground arith, all_ids keys (ground arith))

ids_all :
    (keys : List RememberedKey)
    → All (λ key. is_item_id key.id ≡ true) keys
    → all (λ key. is_item_id key.id) keys ≡ true
unfolding all
ids_all [] h = refl
ids_all (key ∷ keys) h = rw (h.0, ids_all keys h.1)

ok-eq : {E A : Type 0} {a b : A} → ◌≡◌ {A = Result E A} (ok a) (ok b) → a ≡ b
ok-eq h = ground arith

module _ (toml : Toml) where
  -- The bytes are a text in which the keys are written.
  abbrev pub Spells : Bytes → List RememberedKey → Type 0
  Spells bytes keys =
      (text : Text) × (toml.from_utf8 bytes ≡ ok text) × (toml.from_str text ≡ ok keys)

  decoded-Spells :
      (bytes : Bytes) (keys : List RememberedKey)
      → length bytes ≤ max_bytes
      → Spells bytes keys
      → All (λ key. is_item_id key.id ≡ true) keys
      → decoded toml bytes ≡ ok keys
  unfolding decoded with_ids
  decoded-Spells bytes keys h (text, e, f) ids =
      let fits : ltb max_bytes (length bytes) ≡ false = ground arith in
      rw (fits, e, f, ids_all keys ids)

  spelled-decoded :
      (bytes : Bytes) (keys : List RememberedKey)
      → decoded toml bytes ≡ ok keys
      → (length bytes ≤ max_bytes) × Spells bytes keys × All (λ key. is_item_id key.id ≡ true) keys
  unfolding decoded with_ids
  spelled-decoded bytes keys h = elim (Bool-cases (ltb max_bytes (length bytes))) [
    | inl over ↦ absurd (cc (rw over at h))
    | inr fits ↦
        let (text, e, h') = and_then-eq-ok (toml.from_utf8 bytes) _ (rw fits at h) in
        let (out, f, h'') = and_then-eq-ok (toml.from_str text) _ h' in
        elim (Bool-cases (all (λ key. is_item_id key.id) out)) [
          | inl e' ↦
              let same : out ≡ keys = ok-eq (rw e' at h'') in
              (
                ltb→ge max_bytes (length bytes) fits,
                (text, e, f ∙ ap ok same),
                rw (← same) (all_ids out e'),
              )
          | inr e' ↦ absurd (cc (rw e' at h''))
        ]
  ]

  or_absent-eq-some :
      (r : Result Text (List RememberedKey)) (keys : List RememberedKey)
      → or_absent toml r ≡ some keys
      → r ≡ ok keys
  unfolding or_absent
  or_absent-eq-some (ok k) keys h = ap ok (some-eq h)
  or_absent-eq-some (err e) keys h = cc

  -- What a bounded read decodes is the whole file.
  whole :
      (bytes : Bytes) (keys : List RememberedKey)
      → decoded toml (take (max_bytes + 1) bytes) ≡ ok keys
      → (length bytes ≤ max_bytes) × Spells bytes keys × All (λ key. is_item_id key.id ≡ true) keys
  whole bytes keys h =
      let (few, spells, ids) = spelled-decoded (take (max_bytes + 1) bytes) keys h in
      let short : length bytes ≤ max_bytes = omega (arith, length-take (max_bytes + 1) bytes) in
      let same : take (max_bytes + 1) bytes ≡ bytes =
        take_all (max_bytes + 1) bytes (omega arith) in
      (short, subst (λ b. Spells b keys) same spells, ids)

  -- A file is loaded as a list of remembered keys exactly if it has at most the largest size, its
  -- bytes are a text in which TOML spells these keys, and all their ids are item ids.
  pub load_exactly :
      (bytes : Bytes) (keys : List RememberedKey)
      → (load toml (holds bytes) ≡ ok (some keys)) ↔ (
          (length bytes ≤ max_bytes)
          × Spells bytes keys
          × All (λ key. is_item_id key.id ≡ true) keys)
  unfolding load loaded or_absent
  load_exactly bytes keys = (
    λ h. whole bytes keys (or_absent-eq-some _ keys (ok-eq h)),
    λ h. rw (
      take_all (max_bytes + 1) bytes (omega (arith, h.0)),
      decoded-Spells bytes keys h.0 h.1 h.2,
    ),
  )

  -- A write that works puts the printed keys there.
  pub save_best_effort-holds :
      (keys : List RememberedKey) (text : Text) (file : Held)
      → toml.to_string keys ≡ ok text
      → save_best_effort toml (ok tt) keys file ≡ holds (toml.as_bytes text)
  unfolding save_best_effort save encoded written
  save_best_effort-holds keys text file h = ap (λ r. (encoded toml (ok tt) r file).1) h
