-- ===== src/Text/Search/Laws.antt =====
-- What the searches of `str` find, and where.
use lastpass_ssh_agent.Prelude.{
  ◌==◌, ℕ, ◌≡◌, refl, ap, ◌≢◌, inl, inr, false, ◌&&◌, none, some, [], ◌∷◌, ◌++◌, arith,
  if◌then◌else◌, Bool-cases, Option-cases, length, is_empty, length-append, Text, bytes_eq,
  bytes_eq_refl, bytes_eq→eq, some-eq, some_pair,
}
use lastpass_ssh_agent.Text.Separated.{Lacks}
use lastpass_ssh_agent.Prelude.{append-nil, append_assoc, ◌≢◌, ==_iff}
use lastpass_ssh_agent.Text.Search.{
  lines, split_lines, without_return, is_whitespace, strip_prefix, strip_suffix, rsplit_once,
  trim_end,
}

pub strip_prefix-eq-some : (p s r : Text) → strip_prefix p s ≡ some r → s ≡ p ++ r
unfolding strip_prefix
strip_prefix-eq-some [] s r h = some-eq h
strip_prefix-eq-some (c ∷ p) [] r h = cc
strip_prefix-eq-some (c ∷ p) (d ∷ s) r h = ground (arith, strip_prefix-eq-some p s r)

pub strip_prefix-append : (p s : Text) → strip_prefix p (p ++ s) ≡ some s
unfolding strip_prefix
strip_prefix-append [] s = refl
strip_prefix-append (c ∷ p) s = ground (arith, strip_prefix-append p s)

pub strip_suffix-eq-some : (suffix s r : Text) → strip_suffix suffix s ≡ some r → s ≡ r ++ suffix
unfolding strip_suffix
strip_suffix-eq-some [] [] r h = ground arith
strip_suffix-eq-some (c ∷ suffix) [] r h = cc
strip_suffix-eq-some suffix (c ∷ s) r h = elim (Bool-cases (bytes_eq (c ∷ s) suffix)) [
  | inl e ↦ let q : [] ≡ r = some-eq (rw e at h) in rw (← q) (bytes_eq→eq (c ∷ s) suffix e)
  | inr e ↦ elim (Option-cases (strip_suffix suffix s)) [
    | inl n ↦ absurd (cc (rw (e, n) at h))
    | inr (t, m) ↦
        let q : c ∷ t ≡ r = some-eq (rw (e, m) at h) in
        rw (← q) (ap (λ l. c ∷ l) (strip_suffix-eq-some suffix s t m))
  ]
]

pub rsplit_once-eq-some :
    (p s before after : Text) → rsplit_once p s ≡ some (before, after) → s ≡ before ++ (p ++ after)
unfolding rsplit_once
rsplit_once-eq-some [] [] before after h = let (e, f) = some_pair h in rw (← e, ← f)
rsplit_once-eq-some (c ∷ p) [] before after h = cc
rsplit_once-eq-some p (c ∷ s) before after h = elim (Option-cases (rsplit_once p s)) [
  | inr ((b, a), m) ↦
      let (e, f) = some_pair (rw m at h) in
      rw (← e, ← f) (ap (λ l. c ∷ l) (rsplit_once-eq-some p s b a m))
  | inl n ↦ elim (Option-cases (strip_prefix p (c ∷ s))) [
    | inl m ↦ absurd (cc (rw (n, m) at h))
    | inr (r, m) ↦
        let (e, f) = some_pair (rw (n, m) at h) in
        rw (← e, ← f) (strip_prefix-eq-some p (c ∷ s) r m)
  ]
]

-- Where there is no match behind it, a match is the last one.
pub rsplit_once-append :
    (before : Text) (c : ℕ) (p after : Text)
    → rsplit_once (c ∷ p) (p ++ after) ≡ none
    → rsplit_once (c ∷ p) (before ++ (c ∷ p) ++ after) ≡ some (before, after)
unfolding rsplit_once
rsplit_once-append [] c p after h = rw (h, strip_prefix-append (c ∷ p) after)
rsplit_once-append (d ∷ before) c p after h = rw (rsplit_once-append before c p after h)

pub strip_suffix-append :
    (s suffix : Text) → suffix ≢ [] → strip_suffix suffix (s ++ suffix) ≡ some s
unfolding strip_suffix
strip_suffix-append [] [] n = absurd (n refl)
strip_suffix-append [] (c ∷ suffix) n = rw (bytes_eq_refl (c ∷ suffix))
strip_suffix-append (d ∷ s) suffix n = elim (Bool-cases (bytes_eq (d ∷ s ++ suffix) suffix)) [
  | inl e ↦ absurd (longer (ap length (bytes_eq→eq (d ∷ s ++ suffix) suffix e)))
  | inr e ↦ rw (e, strip_suffix-append s suffix n)
]
  where
    longer : length (d ∷ s ++ suffix) ≡ length suffix → ⊥
    longer q = omega (arith, length-append s suffix)

-- A text that ends in no whitespace is not trimmed there.
pub trim_end-snoc :
    (s : Text) (c : ℕ) → is_whitespace c ≡ false → trim_end (s ++ c ∷ []) ≡ s ++ c ∷ []
unfolding trim_end
trim_end-snoc [] c h = rw h
trim_end-snoc (d ∷ s) c h = rw (trim_end-snoc s c h) (kept s)
  where
    kept :
        (t : Text)
        → (if is_empty (t ++ c ∷ []) && is_whitespace d then [] else d ∷ t ++ c ∷ [])
          ≡ d ∷ t ++ c ∷ []
    kept [] = refl
    kept (e ∷ t) = refl

pub without_return-snoc : (s : Text) (c : ℕ) → c ≢ 0x0d → without_return (s ++ c ∷ []) ≡ s ++ c ∷ []
without_return-snoc [] c h = ground arith
without_return-snoc (d ∷ []) c h = ground arith
without_return-snoc (d ∷ e ∷ s) c h = ap (λ l. d ∷ l) (without_return-snoc (e ∷ s) c h)

lines_onto-cons :
    (line s rest : Text)
    → Lacks 0x0a s
    → split_lines line (s ++ 0x0a ∷ rest) ≡ without_return (line ++ s) ∷ split_lines [] rest
unfolding split_lines
lines_onto-cons line [] rest h = rw append-nil
lines_onto-cons line (c ∷ s) rest h = elim (Bool-cases (c == 0x0a)) [
  | inl e ↦ absurd (h.0 ((==_iff c 0x0a).0 e))
  | inr e ↦ rw (e, lines_onto-cons (line ++ c ∷ []) s rest h.1, append_assoc line (c ∷ []) s)
]

-- The first line, and the lines behind it.
pub lines-cons :
    (s rest : Text) → Lacks 0x0a s → lines (s ++ 0x0a ∷ rest) ≡ without_return s ∷ lines rest
unfolding lines
lines-cons s rest h = lines_onto-cons [] s rest h
