-- ===== src/Text/Search/Fields.antt =====
-- The fields of a text, and the whitespace round it.
use lastpass_ssh_agent.Prelude.{
  ℕ, ◌≡◌, refl, sym, ap, ◌∙◌, ◌⊎◌, inl, inr, Bool, true, false, ◌&&◌, List, [], ◌∷◌, ◌++◌, arith,
  if◌then◌else◌, Bool-cases, is_empty, Text,
}
use lastpass_ssh_agent.Text.Search.{
  is_whitespace, trim, trim_start, trim_end, fields_onto, split_whitespace,
}

empty_nil : (s : Text) → is_empty s ≡ true → s ≡ []
empty_nil [] h = refl
empty_nil (c ∷ s) h = cc

fields_onto-trim_end : (field s : Text) → fields_onto field (trim_end s) ≡ fields_onto field s
unfolding fields_onto trim_end
fields_onto-trim_end field [] = refl
fields_onto-trim_end field (c ∷ s) = elim (Bool-cases (is_empty (trim_end s) && is_whitespace c)) [
  | inl e ↦
      let w : is_whitespace c ≡ true = ground arith in
      let blank : fields_onto [] s ≡ [] =
        sym (fields_onto-trim_end [] s)
        ∙ ap (fields_onto []) (empty_nil (trim_end s) (ground arith)) in
      rw (e, w, blank)
  | inr e ↦
      rw e (ground (arith, fields_onto-trim_end [] s, fields_onto-trim_end (field ++ c ∷ []) s))
]

fields_onto-trim_start : (s : Text) → fields_onto [] (trim_start s) ≡ fields_onto [] s
unfolding fields_onto trim_start
fields_onto-trim_start [] = refl
fields_onto-trim_start (c ∷ s) = ground (arith, fields_onto-trim_start s)

pub split_whitespace-trim : (s : Text) → split_whitespace (trim s) ≡ split_whitespace s
unfolding split_whitespace trim
split_whitespace-trim s = fields_onto-trim_end [] (trim_start s) ∙ fields_onto-trim_start s

-- A text that whitespace was cut from the start of is empty or starts with a character that is none.
pub trim_start-head :
    (s : Text)
    → (trim_start s ≡ [])
      ⊎ ((c : ℕ) × (t : Text) × (trim_start s ≡ c ∷ t) × (is_whitespace c ≡ false))
unfolding trim_start
trim_start-head [] = inl refl
trim_start-head (c ∷ s) = elim (Bool-cases (is_whitespace c)) [
  | inl e ↦ rw e (trim_start-head s)
  | inr e ↦ rw e (inr (c, s, refl, e))
]

kept : (b : Bool) (c : ℕ) (t : Text) → (if b && false then [] else c ∷ t) ≡ c ∷ t
kept true c t = refl
kept false c t = refl

pub trim-head :
    (s : Text)
    → (trim s ≡ []) ⊎ ((c : ℕ) × (t : Text) × (trim s ≡ c ∷ t) × (is_whitespace c ≡ false))
unfolding trim trim_end
trim-head s = elim (trim_start-head s) [
  | inl e ↦ inl (rw e)
  | inr (c, t, e, w) ↦
      inr (c, trim_end t, rw (e, w) (kept (is_empty (trim_end t)) c (trim_end t)), w)
]

-- The first field starts with what was begun.
fields_onto-head :
    (c : ℕ) (f s : Text) → (g : Text) × (fs : List Text) × (fields_onto (c ∷ f) s ≡ (c ∷ g) ∷ fs)
unfolding fields_onto
fields_onto-head c f [] = (f, [], refl)
fields_onto-head c f (d ∷ s) = elim (Bool-cases (is_whitespace d)) [
  | inl e ↦ (f, fields_onto [] s, rw e)
  | inr e ↦ rw e (fields_onto-head c (f ++ d ∷ []) s)
]

pub split_whitespace-head :
    (c : ℕ) (s : Text)
    → is_whitespace c ≡ false
    → (g : Text) × (fs : List Text) × (split_whitespace (c ∷ s) ≡ (c ∷ g) ∷ fs)
unfolding split_whitespace fields_onto
split_whitespace-head c s h = rw h (fields_onto-head c [] s)
