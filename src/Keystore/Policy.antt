-- ===== src/Keystore/Policy.antt =====
-- src/keystore.rs: what a start keeps of the scanned items, and when a scan is complete.
use lastpass_ssh_agent.Ssh.{SshLibrary}
use lastpass_ssh_agent.Config.{Config, KeyConfig}
use lastpass_ssh_agent.Lpass.{LpassError}
use lastpass_ssh_agent.Keystore.{
  KeyIssue, LoadError, no_usable_keys, KeyEntry, KeyInspection, usable, unusable, inspect_keys,
  refuses, refused, load_onto, load_complete_onto, load, load_complete, is_verdict,
}
use lastpass_ssh_agent.Prelude.{
  is_empty, ◌≡◌, refl, sym, ◌∙◌, Bool, true, false, not, Option, none, some, List, [], ◌∷◌, ◌++◌,
  append_assoc, append-nil, arith, if◌then◌else◌, Bytes, Text, Result, ok, err,
}

module _ (ssh : SshLibrary) where
  -- The usable ones of what was inspected.
  unfoldable pub usables : List (KeyInspection ssh) → List (KeyEntry ssh)
  usables [] = []
  usables (usable e ∷ rest) = e ∷ usables rest
  usables (unusable id name issue ∷ rest) = usables rest

module _ (ssh : SshLibrary) (text_of : Bytes → Text) (config : Config) where
  if_some : {A : Type 0} (b : Bool) (a c : A) → (if b then none else some a) ≡ some c → a ≡ c
  if_some b a c h = ground arith

  if_ok : {E A : Type 0} (b : Bool) (e : E) (a c : A) → (if b then err e else ok a) ≡ ok c → a ≡ c
  if_ok b e a c h = ground arith

  pub verdict_of :
      {A : Type 0} (b : Bool) (o : Option A) {a : A}
      → (if not b then none else o) ≡ some a
      → (b ≡ true) × (o ≡ some a)
  verdict_of true o h = (refl, h)
  verdict_of false o h = cc

  pub refused-eq-ok :
      {A : Type 0} (o : Option LoadError) (r : Result LoadError A) {a : A}
      → refused ssh text_of config o r ≡ ok a
      → r ≡ ok a
  unfolding refused
  refused-eq-ok none r h = h
  refused-eq-ok (some e) r h = cc

  pub load_onto-eq-ok :
      (l : List (KeyInspection ssh)) (entries es : List (KeyEntry ssh))
      → load_onto ssh text_of config entries l ≡ ok es
      → entries ++ usables ssh l ≡ es
  unfolding load_onto usables
  load_onto-eq-ok [] entries es h = append-nil entries ∙ if_ok _ _ _ _ h
  load_onto-eq-ok (usable e ∷ rest) entries es h =
      sym (append_assoc entries (e ∷ []) (usables ssh rest)) ∙ load_onto-eq-ok rest _ es h
  load_onto-eq-ok (unusable id name issue ∷ rest) entries es h =
      load_onto-eq-ok rest entries es (refused-eq-ok (refuses ssh text_of config id name issue) _ h)

  load_onto-nonempty :
      (l : List (KeyInspection ssh)) (entries es : List (KeyEntry ssh))
      → load_onto ssh text_of config entries l ≡ ok es
      → is_empty es ≡ false
  unfolding load_onto
  load_onto-nonempty [] [] es h = cc
  load_onto-nonempty [] (e ∷ entries) es h =
      let same : e ∷ entries ≡ es = if_ok false no_usable_keys _ _ h in rw (← same)
  load_onto-nonempty (usable e ∷ rest) entries es h = load_onto-nonempty rest _ es h
  load_onto-nonempty (unusable id name issue ∷ rest) entries es h =
      load_onto-nonempty rest entries es
        (refused-eq-ok (refuses ssh text_of config id name issue) _ h)

  -- A verdict of the vault on one key does not end a start.
  verdict-skips :
      (id name : Text) (issue : KeyIssue)
      → is_verdict ssh issue ≡ true
      → refuses ssh text_of config id name issue ≡ none
  unfolding refuses is_verdict
  verdict-skips id name issue h = ground arith

  -- A scan that is complete is what a start serves: `load_complete` and `load` agree wherever the
  -- first has an answer.
  pub load_complete_onto-eq-some :
      (l : List (KeyInspection ssh)) (entries es : List (KeyEntry ssh))
      → load_complete_onto ssh text_of config entries l ≡ some es
      → load_onto ssh text_of config entries l ≡ ok es
  unfolding load_onto load_complete_onto refused
  load_complete_onto-eq-some [] entries es h = ground arith
  load_complete_onto-eq-some (usable e ∷ rest) entries es h = load_complete_onto-eq-some rest _ es h
  load_complete_onto-eq-some (unusable id name issue ∷ rest) entries es h =
      let (verdict, complete) = verdict_of (is_verdict ssh issue) _ h in
      rw (verdict-skips id name issue verdict) (load_complete_onto-eq-some rest entries es complete)

  module _ (show_field : Text → Result LpassError Bytes) where
    -- Where a start serves any keys, it serves the usable items of the scan, all of them and in
    -- their order.
    pub load-eq-ok :
        (keys : List KeyConfig) (es : List (KeyEntry ssh))
        → load ssh text_of config show_field keys ≡ ok es
        → usables ssh (inspect_keys ssh text_of config show_field keys) ≡ es
    unfolding load
    load-eq-ok keys es h = load_onto-eq-ok _ [] es h

    -- Where a scan is complete, an ordinary start on the same vault serves the same entries.
    pub load_complete-eq-some :
        (keys : List KeyConfig) (es : List (KeyEntry ssh))
        → load_complete ssh text_of config show_field keys ≡ some es
        → load ssh text_of config show_field keys ≡ ok es
    unfolding load load_complete
    load_complete-eq-some keys es h = load_complete_onto-eq-some _ [] es h

    -- A start serves at least one key.
    pub load-nonempty :
        (keys : List KeyConfig) (es : List (KeyEntry ssh))
        → load ssh text_of config show_field keys ≡ ok es
        → is_empty es ≡ false
    unfolding load
    load-nonempty keys es h = load_onto-nonempty _ [] es h
