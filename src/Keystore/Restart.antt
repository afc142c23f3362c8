-- ===== src/Keystore/Restart.antt =====
-- src/keystore.rs: a set that was written down and rebuilt.
use lastpass_ssh_agent.Prelude.{
  ◌≡◌, refl, sym, ap, ◌∙◌, true, false, none, some, List, [], ◌∷◌, ◌++◌, map, append_assoc,
  append-nil, arith, if◌then◌else◌, find, is_empty, All, Bytes, Text, bytes_eq, bytes_eq_refl, ok,
}
use lastpass_ssh_agent.Ssh.{SshLibrary}
use lastpass_ssh_agent.Config.{
  display_name, Config, KeyConfig, confirm_required, passphrase_fallback,
}
use lastpass_ssh_agent.Text.{escape_for_display}
use lastpass_ssh_agent.Text.Safety.{escape_for_display_clean, escape_for_display-IsClean}
use lastpass_ssh_agent.Keystore.{
  KeyEntry, RememberedKey, FromRemembered, Seen, holder, check_unique, accept, entry_of, known_key,
  place, rebuild, unpinned, from_remembered, remember,
}
use lastpass_ssh_agent.Keystore.Unique.{Distinct, Signs, Fresh, unique_new}

escape_twice : (t : Text) → escape_for_display (escape_for_display t) ≡ escape_for_display t
escape_twice t = escape_for_display_clean (escape_for_display t) (escape_for_display-IsClean t)

module _ (ssh : SshLibrary) where
  open ssh use {PublicKey, KeyData, key_data, algorithm, key_eq, from_openssh, to_openssh}

  abbrev written_down : KeyEntry ssh → RememberedKey
  written_down e = record { id = e.item_id; name = e.name; public = to_openssh e.public }

  -- No two entries are of one item.
  abbrev pub DistinctItems : List (KeyEntry ssh) → Type 0
  DistinctItems [] = Unit
  DistinctItems (e ∷ es) =
      All (λ (d : KeyEntry ssh). bytes_eq e.item_id d.item_id ≡ false) es × DistinctItems es

  holder-snoc :
      (seen : Seen ssh) (k key : KeyData) (id : Text)
      → holder ssh seen key ≡ none
      → key_eq k key ≡ false
      → holder ssh (seen ++ (k, id) ∷ []) key ≡ none
  unfolding holder
  holder-snoc [] k key id h n = ground arith
  holder-snoc ((j, i) ∷ seen) k key id h n = ground (arith, holder-snoc seen k key id)

  Fresh-snoc :
      (seen : Seen ssh) (k : KeyData) (id : Text) (es : List (KeyEntry ssh))
      → All (Fresh ssh seen) es
      → All (λ (d : KeyEntry ssh). key_eq k (key_data d.public) ≡ false) es
      → All (Fresh ssh (seen ++ (k, id) ∷ [])) es
  Fresh-snoc seen k id [] f d = tt
  Fresh-snoc seen k id (e ∷ es) f d =
      (holder-snoc seen k (key_data e.public) id f.0 d.0, Fresh-snoc seen k id es f.1 d.1)

  module _ (text_of : Bytes → Text) (config : Config) (bytes_of : Text → Bytes) where
    -- An entry as a scan without pinned keys makes it.
    abbrev pub IsPlain : KeyEntry ssh → Type 0
    IsPlain e =
        entry_of ssh config (unpinned ssh text_of config bytes_of (written_down e)) e.public ≡ e

    -- A public key that is printed and parsed again.
    abbrev pub ReadsBack : KeyEntry ssh → Type 0
    ReadsBack e =
        (is_empty (bytes_of (to_openssh e.public)) ≡ false)
        × (from_openssh (text_of (bytes_of (to_openssh e.public))) ≡ ok e.public)

    abbrev Known : List RememberedKey → KeyEntry ssh → Type 0
    Known rem e =
        known_key ssh text_of config bytes_of rem
          (unpinned ssh text_of config bytes_of (written_down e))
        ≡ some (written_down e)

    accept-ReadsBack :
        (e : KeyEntry ssh)
        → ReadsBack e
        → Signs ssh e
        → accept ssh text_of (bytes_of (to_openssh e.public)) ≡ ok e.public
    unfolding accept
    accept-ReadsBack e (nonempty, back) s = rw (nonempty, back, s)

    rebuild-known :
        (rem : List RememberedKey) (seen seen' : Seen ssh) (r : FromRemembered ssh)
        (key : KeyConfig) (keys : List KeyConfig) (known : RememberedKey) (public : PublicKey)
        → known_key ssh text_of config bytes_of rem key ≡ some known
        → check_unique ssh seen (accept ssh text_of (bytes_of known.public)) key.id
          ≡ (ok public, seen')
        → rebuild ssh text_of config bytes_of rem seen r (key ∷ keys)
          ≡ rebuild ssh text_of config bytes_of rem seen'
              (record r { store = r.store ++ entry_of ssh config key public ∷ [] })
              keys
    unfolding place rebuild
    rebuild-known rem seen seen' r key keys known public h k = rw (rebuild, h, k)

    checked :
        (seen : Seen ssh) (d : KeyEntry ssh)
        → ReadsBack d
        → Signs ssh d
        → Fresh ssh seen d
        → check_unique ssh seen (accept ssh text_of (bytes_of (to_openssh d.public))) d.item_id
          ≡ (ok d.public, seen ++ (key_data d.public, d.item_id) ∷ [])
    unfolding check_unique
    checked seen d back signs fresh =
        rw (accept-ReadsBack d back signs) (unique_new ssh seen d.public d.item_id fresh)

    rebuild_nil :
        (rem : List RememberedKey) (seen : Seen ssh) (r : FromRemembered ssh)
        → rebuild ssh text_of config bytes_of rem seen r [] ≡ record r { store = r.store ++ [] }
    unfolding rebuild
    rebuild_nil rem seen r = ap (λ l. record r { store = l }) (sym (append-nil r.store))

    -- The entries that are left are rebuilt as they are.
    rebuild-map :
        (rem : List RememberedKey) (ds : List (KeyEntry ssh)) (seen : Seen ssh)
        (r : FromRemembered ssh)
        → All (Known rem) ds
        → All (Fresh ssh seen) ds
        → Distinct ssh ds
        → All (Signs ssh) ds
        → All IsPlain ds
        → All ReadsBack ds
        → rebuild ssh text_of config bytes_of rem seen r
            (map (unpinned ssh text_of config bytes_of) (map written_down ds))
          ≡ record r { store = r.store ++ ds }
    unfolding unpinned
    rebuild-map rem [] seen r known fresh distinct signs plain back = rebuild_nil rem seen r
    rebuild-map rem (d ∷ ds) seen r known fresh distinct signs plain back =
        let seen' = seen ++ (key_data d.public, d.item_id) ∷ [] in
        let r' = record r { store = r.store ++ d ∷ [] } in
        rebuild-known rem seen seen' r (unpinned ssh text_of config bytes_of (written_down d)) _
          (written_down d) d.public known.0 (checked seen d back.0 signs.0 fresh.0)
        ∙ ap
            (λ e.
              rebuild ssh text_of config bytes_of rem seen' (record r { store = r.store ++ e ∷ [] })
                (map (unpinned ssh text_of config bytes_of) (map written_down ds)))
            plain.0
        ∙ rebuild-map rem ds seen' r' known.1
            (Fresh-snoc seen (key_data d.public) d.item_id ds fresh.1 distinct.0) distinct.1 signs.1
            plain.1 back.1
        ∙ ap (λ l. record r { store = l }) (append_assoc r.store (d ∷ []) ds)

    Known-skip :
        (e : KeyEntry ssh) (es ds : List (KeyEntry ssh))
        → All (λ (d : KeyEntry ssh). bytes_eq e.item_id d.item_id ≡ false) ds
        → All (Known (map written_down es)) ds
        → All (Known (map written_down (e ∷ es))) ds
    unfolding known_key unpinned
    Known-skip e es [] other known = tt
    Known-skip e es (d ∷ ds) other known = (
      ap
            (λ b.
              if b
              then some (written_down e)
              else find (λ k. bytes_eq k.id d.item_id) (map written_down es))
            other.0
          ∙ known.0,
      Known-skip e es ds other.1 known.1,
    )

    -- Each is found again by its item.
    Known-DistinctItems :
        (es : List (KeyEntry ssh)) → DistinctItems es → All (Known (map written_down es)) es
    unfolding known_key unpinned
    Known-DistinctItems [] d = tt
    Known-DistinctItems (e ∷ es) d = (
      ap
          (λ b.
            if b
            then some (written_down e)
            else find (λ k. bytes_eq k.id e.item_id) (map written_down es))
          (bytes_eq_refl e.item_id),
      Known-skip e es es d.0 (Known-DistinctItems es d.1),
    )

    remember-map : (es : List (KeyEntry ssh)) → remember ssh es ≡ map written_down es
    unfolding remember
    remember-map es = refl

    -- A key without settings of its own.
    abbrev pub HasDefaults : KeyConfig → Type 0
    HasDefaults key = (key.confirm ≡ none) × (key.passphrase_fallback ≡ none)

    pub entry_of-IsPlain :
        (key : KeyConfig) (p : PublicKey) → HasDefaults key → IsPlain (entry_of ssh config key p)
    unfolding entry_of unpinned confirm_required passphrase_fallback display_name
    entry_of-IsPlain key p (c, f) = ground (arith, escape_twice (display_name key))

    all_fresh : (es : List (KeyEntry ssh)) → All (Fresh ssh []) es
    unfolding holder
    all_fresh [] = tt
    all_fresh (e ∷ es) = (refl, all_fresh es)

    pub from_remembered-remember :
        (es : List (KeyEntry ssh))
        → is_empty config.keys ≡ true
        → DistinctItems es
        → Distinct ssh es
        → All (Signs ssh) es
        → All IsPlain es
        → All ReadsBack es
        → from_remembered ssh text_of config bytes_of (remember ssh es)
          ≡ record { store = es; missing = [] }
    unfolding from_remembered
    from_remembered-remember es none_pinned items distinct signs plain back =
        rw (none_pinned, remember-map es)
          (rebuild-map (map written_down es) es [] (record { store = []; missing = [] })
            (Known-DistinctItems es items) (all_fresh es) distinct signs plain back)
