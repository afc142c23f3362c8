-- ===== src/Keystore/Unique.antt =====
-- src/keystore.rs, `unique`: the keys of a scan, and the lookup among those served.
use lastpass_ssh_agent.Ssh.{SshLibrary}
use lastpass_ssh_agent.Signing.Keys.{can_sign}
use lastpass_ssh_agent.Config.{Config, KeyConfig}
use lastpass_ssh_agent.Lpass.{LpassError}
use lastpass_ssh_agent.Keystore.{
  fetch, claim, KeyIssue, duplicate, KeyEntry, KeyInspection, Seen, holder, unique, check_unique,
  accept, entry_of, inspection, fetched, inspect_onto, inspect_keys, load, lookup,
}
use lastpass_ssh_agent.Prelude.{
  ◌≡◌, refl, ap, ◌∙◌, inl, inr, true, false, none, some, List, [], ◌∷◌, ◌++◌, arith, if◌then◌else◌,
  Option-cases, All, Bytes, Text, Result, ok, err, map_err, and_then-eq-ok,
}
use lastpass_ssh_agent.Keystore.Policy.{usables, load-eq-ok}
use mathlib.Core.Path.{subst}

module _ (ssh : SshLibrary) where
  open ssh use {PublicKey, KeyData, key_data, algorithm, key_eq, key_eq_iff, from_openssh}

  -- No two entries have one key.
  abbrev pub Distinct : List (KeyEntry ssh) → Type 0
  Distinct [] = Unit
  Distinct (e ∷ es) =
      All (λ (d : KeyEntry ssh). key_eq (key_data e.public) (key_data d.public) ≡ false) es
      × Distinct es

  abbrev pub Signs : KeyEntry ssh → Type 0
  Signs e = can_sign (algorithm e.public) ≡ true

  abbrev pub Fresh : Seen ssh → KeyEntry ssh → Type 0
  Fresh seen e = holder ssh seen (key_data e.public) ≡ none

  both :
      (P Q : KeyEntry ssh → Type 0) (es : List (KeyEntry ssh))
      → All P es
      → All Q es
      → All (λ (e : KeyEntry ssh). P e × Q e) es
  both P Q [] p q = tt
  both P Q (e ∷ es) p q = ((p.0, q.0), both P Q es p.1 q.1)

  holder-append :
      (seen : Seen ssh) (k key : KeyData) (id : Text)
      → holder ssh (seen ++ (k, id) ∷ []) key ≡ none
      → (holder ssh seen key ≡ none) × (key_eq k key ≡ false)
  unfolding holder
  holder-append [] k key id h = (refl, ground arith)
  holder-append ((j, i) ∷ seen) k key id h = ground (arith, holder-append seen k key id)

  Fresh-append :
      (seen : Seen ssh) (k : KeyData) (id : Text) (es : List (KeyEntry ssh))
      → All (Fresh (seen ++ (k, id) ∷ [])) es
      → All (Fresh seen) es × All (λ (d : KeyEntry ssh). key_eq k (key_data d.public) ≡ false) es
  Fresh-append seen k id [] h = (tt, tt)
  Fresh-append seen k id (e ∷ es) h =
      let (p, q) = holder-append seen k (key_data e.public) id h.0 in
      let (r, s) = Fresh-append seen k id es h.1 in ((p, r), (q, s))

  accept-Signs :
      (text_of : Bytes → Text) (raw : Bytes) (p : PublicKey)
      → accept ssh text_of raw ≡ ok p
      → can_sign (algorithm p) ≡ true
  unfolding accept
  accept-Signs text_of raw p h = ground arith

  pub record Good (seen : Seen ssh) (es : List (KeyEntry ssh)) : Type 0 where
    pub fresh : All (Fresh seen) es
    pub distinct : Distinct es
    pub signs : All Signs es

  pub unique_new :
      (seen : Seen ssh) (p : PublicKey) (id : Text)
      → holder ssh seen (key_data p) ≡ none
      → unique ssh seen p id ≡ (ok p, seen ++ (key_data p, id) ∷ [])
  unfolding unique claim
  unique_new seen p id h = ap (λ o. claim ssh o seen p id) h

  unique_taken :
      (seen : Seen ssh) (p : PublicKey) (id : Text) (s : KeyData × Text)
      → holder ssh seen (key_data p) ≡ some s
      → unique ssh seen p id ≡ (err (duplicate s.1), seen)
  unfolding unique claim
  unique_taken seen p id s h = ap (λ o. claim ssh o seen p id) h

  abbrev OneMore :
      Config → KeyConfig → Seen ssh → PublicKey → (Seen ssh → List (KeyInspection ssh)) → Type 0
  OneMore config key seen p tail =
      let (r, seen') = unique ssh seen p key.id in
      Good seen (usables ssh (inspection ssh config key r ∷ tail seen'))

  -- One more key, checked against those seen.
  unique-Good :
      (config : Config) (key : KeyConfig) (seen : Seen ssh) (p : PublicKey)
      (tail : Seen ssh → List (KeyInspection ssh))
      → can_sign (algorithm p) ≡ true
      → ((s : Seen ssh) → Good s (usables ssh (tail s)))
      → OneMore config key seen p tail
  unfolding usables inspection entry_of
  unique-Good config key seen p tail s ih = elim (Option-cases (holder ssh seen (key_data p))) [
    | inl h ↦ rw (unique_new seen p key.id h) (
        let after = ih (seen ++ (key_data p, key.id) ∷ []) in
        let (older, distinct) = Fresh-append seen (key_data p) key.id _ after.fresh in
        record {
          fresh = (h, older);
          distinct = (distinct, after.distinct);
          signs = (s, after.signs);
        })
    | inr (x, h) ↦ rw (unique_taken seen p key.id x h) (ih seen)
  ]

  module _ (text_of : Bytes → Text) (config : Config) where
    module _ (show_field : Text → Result LpassError Bytes) where
      fetched-Signs :
          (key : KeyConfig) (p : PublicKey)
          → fetched ssh text_of config show_field key ≡ ok p
          → can_sign (algorithm p) ≡ true
      unfolding fetched
      fetched-Signs key p h =
          let (raw, shown, a) =
            and_then-eq-ok (map_err (λ e. fetch e) (show_field key.id)) (accept ssh text_of) h in
          accept-Signs text_of raw p a

      one :
          (seen : Seen ssh) (key : KeyConfig) (tail : Seen ssh → List (KeyInspection ssh))
          (r : Result KeyIssue PublicKey)
          → fetched ssh text_of config show_field key ≡ r
          → ((s : Seen ssh) → Good s (usables ssh (tail s)))
          → (let (public, seen') = check_unique ssh seen r key.id in
              Good seen (usables ssh (inspection ssh config key public ∷ tail seen')))
      unfolding check_unique usables inspection
      one seen key tail (ok p) h ih = unique-Good config key seen p tail (fetched-Signs key p h) ih
      one seen key tail (err e) h ih = ih seen

      -- What a scan calls usable can sign, and no two of it have one key.
      pub inspect_onto-Good :
          (seen : Seen ssh) (keys : List KeyConfig)
          → Good seen (usables ssh (inspect_onto ssh text_of config show_field seen keys))
      unfolding inspect_onto usables
      inspect_onto-Good seen [] = record { fresh = tt; distinct = tt; signs = tt }
      inspect_onto-Good seen (key ∷ keys) =
          one seen key (λ s. inspect_onto ssh text_of config show_field s keys)
            (fetched ssh text_of config show_field key) refl (λ s. inspect_onto-Good s keys)

      lookup-skip :
          (e : KeyEntry ssh) (es ds : List (KeyEntry ssh))
          → All (λ (d : KeyEntry ssh). key_eq (key_data e.public) (key_data d.public) ≡ false) ds
          → All (λ (d : KeyEntry ssh). lookup ssh es (key_data d.public) ≡ some d) ds
          → All (λ (d : KeyEntry ssh). lookup ssh (e ∷ es) (key_data d.public) ≡ some d) ds
      unfolding lookup
      lookup-skip e es [] other found = tt
      lookup-skip e es (d ∷ ds) other found = (
        ap (λ b. if b then some e else lookup ssh es (key_data d.public)) other.0 ∙ found.0,
        lookup-skip e es ds other.1 found.1,
      )

      -- Found by its own key.
      lookup-Distinct :
          (es : List (KeyEntry ssh))
          → Distinct es
          → All (λ (e : KeyEntry ssh). lookup ssh es (key_data e.public) ≡ some e) es
      unfolding lookup
      lookup-Distinct [] d = tt
      lookup-Distinct (e ∷ es) d =
          let self = (key_eq_iff (key_data e.public) (key_data e.public)).1 refl in
          (
            ap (λ b. if b then some e else lookup ssh es (key_data e.public)) self,
            lookup-skip e es es d.0 (lookup-Distinct es d.1),
          )

      -- Where a start serves any keys, every served key is of an algorithm the agent can sign
      -- with, and a lookup of its key data finds that very entry.
      pub load-lookup :
          (keys : List KeyConfig) (es : List (KeyEntry ssh))
          → load ssh text_of config show_field keys ≡ ok es
          → All (λ (e : KeyEntry ssh). (lookup ssh es (key_data e.public) ≡ some e) × Signs e) es
      unfolding inspect_keys
      load-lookup keys es h =
          let good =
            subst (Good []) (load-eq-ok ssh text_of config show_field keys es h)
              (inspect_onto-Good [] keys) in
          both _ _ es (lookup-Distinct es good.distinct) good.signs
