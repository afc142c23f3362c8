-- ===== src/Text/Safety.antt =====
-- src/text.rs, `escape_for_display`: the characters that come out.
use lastpass_ssh_agent.Text.{
  is_control, invisible_ranges, is_invisible, escape_char, escape_onto, escape_for_display, digits,
  IsDigit, digits-IsDigit,
}
use lastpass_ssh_agent.Prelude.{
  ◌≢◌, ℕ, ◌≤◌, ◌<◌, ◌≡◌, refl, sym, ap, ◌∙◌, inl, inr, false, not, ◌&&◌, [], ◌∷◌, ◌++◌,
  append_assoc, append-nil, arith, leb, Bool-cases, All, All-append, Text, codes,
}

-- A character that neither drives a terminal nor hides from the reader.
abbrev pub IsClean : ℕ → Type 0
IsClean c = (is_control c ≡ false) × (is_invisible c ≡ false)

escape_onto-append : (out s : Text) → escape_onto out s ≡ out ++ escape_onto [] s
unfolding escape_onto
escape_onto-append out [] = sym (append-nil out)
escape_onto-append out (c ∷ s) =
    escape_onto-append (out ++ escape_char c) s
    ∙ append_assoc out (escape_char c) (escape_onto [] s)
    ∙ ap (◌++◌ out) (sym (escape_onto-append (escape_char c) s))

pub escape-cons :
    (c : ℕ) (s : Text) → escape_for_display (c ∷ s) ≡ escape_char c ++ escape_for_display s
unfolding escape_for_display
escape-cons c s = escape_onto-append (escape_char c) s

pub escape-nil : escape_for_display [] ≡ []
unfolding escape_for_display
escape-nil = refl

-- Printable ASCII is clean.
pub printable-IsClean : (c : ℕ) → 0x20 ≤ c → c < 0x7f → IsClean c
unfolding is_control is_invisible invisible_ranges
printable-IsClean c h k = (ground arith, ground arith)

pub digits-IsClean : (s : Text) → All IsDigit s → All IsClean s
digits-IsClean [] h = tt
digits-IsClean (c ∷ s) h = (printable-IsClean c (omega arith) (omega arith), digits-IsClean s h.1)

short_escape-IsClean : (c : ℕ) → All IsClean (codes "\\x" ++ digits 16 2 c)
short_escape-IsClean c =
    All-append IsClean (codes "\\x") _
      (
        printable-IsClean b'\\' (omega arith) (omega arith),
        (printable-IsClean b'x' (omega arith) (omega arith), tt),
      )
      (digits-IsClean _ (digits-IsDigit 16 2 c (omega arith) (omega arith)))

long_escape-IsClean : (c : ℕ) → All IsClean (codes "\\u{" ++ digits 16 4 c ++ codes "}")
long_escape-IsClean c =
    All-append IsClean (codes "\\u{" ++ digits 16 4 c) _
      (All-append IsClean (codes "\\u{") _
        (
          printable-IsClean b'\\' (omega arith) (omega arith),
          (
            printable-IsClean b'u' (omega arith) (omega arith),
            (printable-IsClean b'{' (omega arith) (omega arith), tt),
          ),
        )
        (digits-IsClean _ (digits-IsDigit 16 4 c (omega arith) (omega arith))))
      (printable-IsClean b'}' (omega arith) (omega arith), tt)

escape_char-IsClean : (c : ℕ) → All IsClean (escape_char c)
unfolding escape_char
escape_char-IsClean c = elim (Bool-cases (not (is_control c) && not (is_invisible c))) [
  | inl e ↦ rw e (ground arith)
  | inr e ↦ rw e (elim (Bool-cases (leb c 0xff)) [
    | inl s ↦ rw s (short_escape-IsClean c)
    | inr l ↦ rw l (long_escape-IsClean c)
  ])
]

-- Whatever the text, what is displayed has no control character and no invisible one.
pub escape_for_display-IsClean : (s : Text) → All IsClean (escape_for_display s)
escape_for_display-IsClean [] = rw escape-nil tt
escape_for_display-IsClean (c ∷ s) =
    rw escape-cons
      (All-append _ (escape_char c) _ (escape_char-IsClean c) (escape_for_display-IsClean s))

-- A text without control characters and invisible ones is displayed as it is.
pub escape_for_display_clean : (s : Text) → All IsClean s → escape_for_display s ≡ s
unfolding escape_char
escape_for_display_clean [] h = escape-nil
escape_for_display_clean (c ∷ s) h =
    escape-cons c s ∙ ground (arith, escape_for_display_clean s h.1)

length-escape : (c : ℕ) → escape_char c ≢ []
unfolding escape_char
length-escape c h = ground arith

pub escape-nonempty : (s : Text) → s ≢ [] → escape_for_display s ≢ []
escape-nonempty [] h e = h refl
escape-nonempty (c ∷ s) h e = go (escape_char c) (length-escape c) (rw escape-cons at e)
  where
    go : (u : Text) → u ≢ [] → u ++ escape_for_display s ≢ []
    go [] h e = h refl
    go (d ∷ u) h e = cc
