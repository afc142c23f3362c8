-- ===== src/Text/Separated.antt =====
-- Texts joined and split at a separator, as `join`, `split` and `rsplit` do.
use lastpass_ssh_agent.Prelude.{
  ℕ, ◌≡◌, refl, sym, ◌≢◌, inl, inr, List, [], ◌∷◌, ◌++◌, arith, ◌==◌, if◌then◌else◌, Bool-cases,
  All, All-append, Text,
}

-- `join`.
unfoldable pub join : Text → List Text → Text
join sep [] = []
join sep (s ∷ []) = s
join sep (s ∷ t ∷ ss) = s ++ (sep ++ join sep (t ∷ ss))

-- `split` at one character: one part more than there are separators.
split_onto : ℕ → Text → Text → List Text
split_onto sep part [] = part ∷ []
split_onto sep part (c ∷ s) =
    let next = part ∷ split_onto sep [] s in
    let longer = split_onto sep (part ++ c ∷ []) s in if c == sep then next else longer

unfoldable pub split : ℕ → Text → List Text
unfolding split_onto
split sep s = split_onto sep [] s

abbrev pub Lacks : ℕ → Text → Type 0
Lacks c = All (λ d. d ≢ c)

-- What stands before the first separator, and after it, is determined by the text.
pub cut_unique :
    (sep : ℕ) (u v r s : Text)
    → Lacks sep u
    → Lacks sep v
    → u ++ sep ∷ r ≡ v ++ sep ∷ s
    → (u ≡ v) × (r ≡ s)
cut_unique sep [] [] r s hu hv e = (refl, ground arith)
cut_unique sep [] (d ∷ v) r s hu hv e = absurd (hv.0 (ground arith))
cut_unique sep (c ∷ u) [] r s hu hv e = absurd (hu.0 (ground arith))
cut_unique sep (c ∷ u) (d ∷ v) r s hu hv e =
    let (p, q) = cut_unique sep u v r s hu.1 hv.1 (ground arith) in (ground arith, q)

no_separator : (sep : ℕ) (u r : Text) → Lacks sep (u ++ sep ∷ r) → ⊥
no_separator sep [] r h = h.0 refl
no_separator sep (c ∷ u) r h = no_separator sep u r h.1

-- A part that a separator may follow.
abbrev pub IsPart : ℕ → Text → Type 0
IsPart sep s = Lacks sep s × (s ≢ [])

join-nonempty : (sep : ℕ) (s : Text) (ss : List Text) → s ≢ [] → join (sep ∷ []) (s ∷ ss) ≢ []
unfolding join
join-nonempty sep s [] h e = h e
join-nonempty sep [] (t ∷ ss) h e = h refl
join-nonempty sep (c ∷ s) (t ∷ ss) h e = cc

-- Lists of parts with the same join are the same.
pub join-injective :
    (sep : ℕ) (ss ts : List Text)
    → All (IsPart sep) ss
    → All (IsPart sep) ts
    → join (sep ∷ []) ss ≡ join (sep ∷ []) ts
    → ss ≡ ts
unfolding join
join-injective sep [] [] hs ht e = refl
join-injective sep [] (t ∷ ts) hs ht e = absurd (join-nonempty sep t ts ht.0.1 (sym e))
join-injective sep (s ∷ ss) [] hs ht e = absurd (join-nonempty sep s ss hs.0.1 e)
join-injective sep (s ∷ []) (t ∷ []) hs ht e = ground arith
join-injective sep (s ∷ []) (t ∷ t' ∷ ts) hs ht e =
    absurd (no_separator sep t (join (sep ∷ []) (t' ∷ ts)) (rw e at hs.0.0))
join-injective sep (s ∷ s' ∷ ss) (t ∷ []) hs ht e =
    absurd (no_separator sep s (join (sep ∷ []) (s' ∷ ss)) (rw (← e) at ht.0.0))
join-injective sep (s ∷ s' ∷ ss) (t ∷ t' ∷ ts) hs ht e =
    let (p, q) = cut_unique sep s t _ _ hs.0.0 ht.0.0 e in
    cc (p, join-injective sep (s' ∷ ss) (t' ∷ ts) hs.1 ht.1 q)

-- What holds of the characters of the parts and of the separator holds of those of the join.
pub All-join {κ} :
    (P : ℕ → Type κ) (sep : Text) (ss : List Text)
    → All P sep
    → All (All P) ss
    → All P (join sep ss)
unfolding join
All-join P sep [] hp h = tt
All-join P sep (s ∷ []) hp h = h.0
All-join P sep (s ∷ t ∷ ss) hp h =
    All-append P s _ h.0 (All-append P sep _ hp (All-join P sep (t ∷ ss) hp h.1))

All-split_onto {κ} :
    (P : ℕ → Type κ) (sep : ℕ) (part s : Text)
    → All P part
    → All P s
    → All (All P) (split_onto sep part s)
unfolding split_onto
All-split_onto P sep part [] hp h = (hp, tt)
All-split_onto P sep part (c ∷ s) hp h = elim (Bool-cases (c == sep)) [
  | inl e ↦ rw e (hp, All-split_onto P sep [] s tt h.1)
  | inr e ↦ rw e (All-split_onto P sep (part ++ c ∷ []) s (All-append P part _ hp (h.0, tt)) h.1)
]

-- The parts of a text have its characters.
pub All-split {κ} : (P : ℕ → Type κ) (sep : ℕ) (s : Text) → All P s → All (All P) (split sep s)
unfolding split
All-split P sep s h = All-split_onto P sep [] s tt h
