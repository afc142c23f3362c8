-- ===== src/Keystore/Complete.antt =====
-- `load_complete` of src/keystore.rs against `load`: the scan that may replace a served set.
use lastpass_ssh_agent.Ssh.{SshLibrary}
use lastpass_ssh_agent.Signing.Keys.{can_sign}
use lastpass_ssh_agent.Config.{Config, KeyConfig}
use lastpass_ssh_agent.Lpass.{
  LpassError, not_logged_in, locked, wrong_master_password, no_master_password, item_not_found,
  field_not_found, timeout, field_too_large, spawn, command_failed,
}
use lastpass_ssh_agent.Lpass.Discovery.Answers.{IsAnswer}
use lastpass_ssh_agent.Keystore.{
  KeyIssue, fetch, empty, malformed, unsupported, duplicate, KeyEntry, KeyInspection, usable,
  unusable, Seen, inspect_keys, inspect_onto, inspection, fetched, accept, check_unique, unique,
  claim, holder, refuses, refused, load_onto, load_complete_onto, load, load_complete, is_verdict,
}
use lastpass_ssh_agent.Keystore.Policy.{refused-eq-ok, verdict_of, load_complete_onto-eq-some}
use lastpass_ssh_agent.Prelude.{
  ◌≡◌, refl, ◌↔◌, inl, inr, true, Option, none, some, List, [], ◌∷◌, arith, if◌then◌else◌,
  Bool-cases, is_empty, All, Bytes, Text, Result, ok, err, map_err, and_then,
}

module _ (ssh : SshLibrary) where
  open ssh use {PublicKey, algorithm, KeyData, from_openssh, key_data}

  -- Nothing is missing of the key but what the vault says itself.
  abbrev Settled : KeyInspection ssh → Type 0
  Settled (usable e) = Unit
  Settled (unusable id name issue) = is_verdict ssh issue ≡ true

  abbrev IsNew : KeyInspection ssh → Type 0
  IsNew (unusable id name (duplicate other)) = ⊥
  IsNew i = Unit

  module _ (text_of : Bytes → Text) (config : Config) where
    load_complete_onto-Settled :
        (l : List (KeyInspection ssh)) (entries es : List (KeyEntry ssh))
        → load_complete_onto ssh text_of config entries l ≡ some es
        → All Settled l
    unfolding load_complete_onto
    load_complete_onto-Settled [] entries es h = tt
    load_complete_onto-Settled (usable e ∷ rest) entries es h =
        (tt, load_complete_onto-Settled rest _ es h)
    load_complete_onto-Settled (unusable id name issue ∷ rest) entries es h =
        let (verdict, complete) = verdict_of ssh text_of config (is_verdict ssh issue) _ h in
        (verdict, load_complete_onto-Settled rest entries es complete)

    -- A start that skips only such keys is a complete scan.
    load_onto-Settled :
        (l : List (KeyInspection ssh)) (entries es : List (KeyEntry ssh))
        → load_onto ssh text_of config entries l ≡ ok es
        → All Settled l
        → load_complete_onto ssh text_of config entries l ≡ some es
    unfolding load_onto load_complete_onto refused
    load_onto-Settled [] entries es h s = ground arith
    load_onto-Settled (usable e ∷ rest) entries es h s = load_onto-Settled rest _ es h s.1
    load_onto-Settled (unusable id name issue ∷ rest) entries es h s = rw s.0 (
        load_onto-Settled rest entries es
          (refused-eq-ok ssh text_of config (refuses ssh text_of config id name issue) _ h) s.1)

    load_onto-IsNew :
        (l : List (KeyInspection ssh)) (entries es : List (KeyEntry ssh))
        → load_onto ssh text_of config entries l ≡ ok es
        → All IsNew l
    unfolding load_onto refused refuses
    load_onto-IsNew [] entries es h = tt
    load_onto-IsNew (usable e ∷ rest) entries es h = (tt, load_onto-IsNew rest _ es h)
    load_onto-IsNew (unusable id name issue ∷ rest) entries es h = (
      new issue h,
      load_onto-IsNew rest entries es
          (refused-eq-ok ssh text_of config (refuses ssh text_of config id name issue) _ h),
    )
      where
        new :
            (i : KeyIssue)
            → load_onto ssh text_of config entries (unusable id name i ∷ rest) ≡ ok es
            → IsNew (unusable id name i)
        new (duplicate other) k = cc
        new (fetch e) k = tt
        new empty k = tt
        new (malformed why) k = tt
        new (unsupported a) k = tt

    -- What a key's bytes can be refused for is the vault's word on it.
    abbrev Judged : Result KeyIssue PublicKey → Type 0
    Judged (ok public) = Unit
    Judged (err issue) = is_verdict ssh issue ≡ true

    accept-Judged : (raw : Bytes) → Judged (accept ssh text_of raw)
    unfolding accept is_verdict
    accept-Judged raw = elim (Bool-cases (is_empty raw)) [
      | inl e ↦ rw e
      | inr e ↦ rw e (parsed (from_openssh (text_of raw)))
    ]
      where
        parsed :
            (r : Result Text PublicKey)
            → Judged (
                and_then (map_err malformed r) λ public.
                  if can_sign (algorithm public)
                  then ok public
                  else err (unsupported (algorithm public)))
        parsed (err why) = refl
        parsed (ok public) = elim (Bool-cases (can_sign (algorithm public))) [
          | inl c ↦ rw c tt
          | inr c ↦ rw c
        ]

    Judged-Settled :
        (key : KeyConfig) (seen : Seen ssh) (a : Result KeyIssue PublicKey)
        → Judged a
        → IsNew (inspection ssh config key (check_unique ssh seen a key.id).0)
        → Settled (inspection ssh config key (check_unique ssh seen a key.id).0)
    unfolding check_unique unique inspection
    Judged-Settled key seen (err issue) j n = j
    Judged-Settled key seen (ok public) j n = claimed (holder ssh seen (key_data public)) n
      where
        claimed :
            (o : Option (KeyData × Text))
            → IsNew (inspection ssh config key (claim ssh o seen public key.id).0)
            → Settled (inspection ssh config key (claim ssh o seen public key.id).0)
        claimed none m = tt
        claimed (some (k, other)) m = absurd m

    answer-Settled :
        (key : KeyConfig) (seen : Seen ssh) (r : Result LpassError Bytes)
        → IsAnswer r
        → IsNew (
            inspection ssh config key
              (check_unique ssh seen (and_then (map_err fetch r) (accept ssh text_of)) key.id).0)
        → Settled (
            inspection ssh config key
              (check_unique ssh seen (and_then (map_err fetch r) (accept ssh text_of)) key.id).0)
    unfolding check_unique inspection is_verdict
    answer-Settled key seen (ok raw) a n = Judged-Settled key seen _ (accept-Judged raw) n
    answer-Settled key seen (err (item_not_found id)) a n = refl
    answer-Settled key seen (err (field_not_found id field)) a n = refl
    answer-Settled key seen (err not_logged_in) a n = absurd a
    answer-Settled key seen (err locked) a n = absurd a
    answer-Settled key seen (err wrong_master_password) a n = absurd a
    answer-Settled key seen (err (no_master_password why)) a n = absurd a
    answer-Settled key seen (err (timeout t)) a n = absurd a
    answer-Settled key seen (err (field_too_large k)) a n = absurd a
    answer-Settled key seen (err (spawn why)) a n = absurd a
    answer-Settled key seen (err (command_failed code why)) a n = absurd a

    Settled-IsAnswer :
        (key : KeyConfig) (seen : Seen ssh) (r : Result LpassError Bytes)
        → Settled (
            inspection ssh config key
              (check_unique ssh seen (and_then (map_err fetch r) (accept ssh text_of)) key.id).0)
        → IsAnswer r
    unfolding check_unique inspection is_verdict
    Settled-IsAnswer key seen (ok raw) s = tt
    Settled-IsAnswer key seen (err (item_not_found id)) s = tt
    Settled-IsAnswer key seen (err (field_not_found id field)) s = tt
    Settled-IsAnswer key seen (err not_logged_in) s = cc
    Settled-IsAnswer key seen (err locked) s = cc
    Settled-IsAnswer key seen (err wrong_master_password) s = cc
    Settled-IsAnswer key seen (err (no_master_password why)) s = cc
    Settled-IsAnswer key seen (err (timeout t)) s = cc
    Settled-IsAnswer key seen (err (field_too_large n)) s = cc
    Settled-IsAnswer key seen (err (spawn why)) s = cc
    Settled-IsAnswer key seen (err (command_failed code why)) s = cc

    module _ (show_field : Text → Result LpassError Bytes) where
      -- The vault has a word on the key, be it that there is none.
      abbrev pub Answered : KeyConfig → Type 0
      Answered key = IsAnswer (show_field key.id)

      all-Answered :
          (keys : List KeyConfig) (seen : Seen ssh)
          → All Settled (inspect_onto ssh text_of config show_field seen keys)
          → All Answered keys
      unfolding inspect_onto fetched
      all-Answered [] seen s = tt
      all-Answered (key ∷ keys) seen (s, rest) =
          (Settled-IsAnswer key seen (show_field key.id) s, all-Answered keys _ rest)

      all-Settled :
          (keys : List KeyConfig) (seen : Seen ssh)
          → All Answered keys
          → All IsNew (inspect_onto ssh text_of config show_field seen keys)
          → All Settled (inspect_onto ssh text_of config show_field seen keys)
      unfolding inspect_onto fetched
      all-Settled [] seen a n = tt
      all-Settled (key ∷ keys) seen (a, later) (n, fresh) =
          (answer-Settled key seen (show_field key.id) a n, all-Settled keys _ later fresh)

      -- A scan is complete with some entries exactly if a start on the same vault would serve
      -- these entries and the vault has a word on every key that is asked for: its public key, or
      -- that there is no such item or field. A key that the vault could not be asked for, be it
      -- shut, slow or failing, keeps a scan from being complete.
      pub load_complete_iff :
          (keys : List KeyConfig) (es : List (KeyEntry ssh))
          → (load_complete ssh text_of config show_field keys ≡ some es)
            ↔ ((load ssh text_of config show_field keys ≡ ok es) × All Answered keys)
      unfolding load load_complete inspect_keys
      load_complete_iff keys es = (
        λ h. (
          load_complete_onto-eq-some ssh text_of config _ [] es h,
          all-Answered keys [] (load_complete_onto-Settled _ [] es h),
        ),
        λ (h, a). load_onto-Settled _ [] es h (all-Settled keys [] a (load_onto-IsNew _ [] es h)),
      )
