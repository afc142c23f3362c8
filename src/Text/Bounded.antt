-- ===== src/Text/Bounded.antt =====
-- src/text.rs, `display_bounded`: the length and the beginning of what a prompt shows.
use lastpass_ssh_agent.Text.{
  is_control, invisible_ranges, is_invisible, escape_for_display, display_bounded,
  max_display_chars, decimal, digits-IsDigit, length-decimal,
}
use lastpass_ssh_agent.Text.Safety.{
  IsClean, printable-IsClean, digits-IsClean, escape_for_display-IsClean,
}
use lastpass_ssh_agent.Prelude.{
  take-append_le, take_all, length-take, ◌∙◌, All-take, ℕ, ◌+◌, ◌-◌, ◌^◌, ◌≤◌, ◌<◌, ◌≡◌, refl, ◌∙◌,
  inl, inr, ◌++◌, arith, leb, Bool-cases, length, take, length-append, length-take, All, All-append,
  Text, codes, take-append_le, take_all, All-take,
}

-- What `display_bounded` puts behind the first characters of `k` more.
abbrev marker : ℕ → Text
marker k = codes "… [" ++ decimal k ++ codes " more]"

abbrev cut : Text → Text
cut escaped = take max_display_chars escaped ++ marker (length escaped - max_display_chars)

ellipsis-IsClean : IsClean 0x2026
unfolding is_control is_invisible invisible_ranges
ellipsis-IsClean = (refl, refl)

marker-IsClean : (k : ℕ) → All IsClean (marker k)
unfolding decimal
marker-IsClean k =
    All-append IsClean (codes "… [" ++ decimal k) (codes " more]")
      (All-append IsClean (codes "… [") (decimal k)
        (ellipsis-IsClean, (clean b' ' (omega arith), (clean b'[' (omega arith), tt)))
        (digits-IsClean _ (digits-IsDigit 10 1 k (omega arith) (omega arith))))
      (
        clean b' ' (omega arith),
        (
          clean b'm' (omega arith),
          (
            clean b'o' (omega arith),
            (clean b'r' (omega arith), (clean b'e' (omega arith), (clean b']' (omega arith), tt))),
          ),
        ),
      )
  where
    clean : (c : ℕ) → (0x20 ≤ c) × (c < 0x7f) → IsClean c
    clean c h = printable-IsClean c h.0 h.1

length-marker : (k : ℕ) → k < 10 ^ 20 → length (marker k) ≤ 29
length-marker k h = omega (
  arith,
  length-decimal 19 k h,
  length-append (codes "… [" ++ decimal k) (codes " more]"),
  length-append (codes "… [") (decimal k),
)

abbrev pub IsBounded : Text → Text → Type 0
IsBounded escaped shown =
    All IsClean shown
    × (length shown ≤ max_display_chars + 29)
    × (take max_display_chars shown ≡ take max_display_chars escaped)
    × (length escaped ≤ max_display_chars → shown ≡ escaped)

short-IsBounded : (s : Text) → All IsClean s → length s ≤ max_display_chars → IsBounded s s
short-IsBounded s c h = (c, omega arith, refl, λ _. refl)

cut-IsBounded :
    (s : Text)
    → All IsClean s
    → length s < 10 ^ 20
    → max_display_chars < length s
    → IsBounded s (cut s)
cut-IsBounded s c small h = (
  All-append IsClean (take max_display_chars s) _ (All-take IsClean max_display_chars s c)
      (marker-IsClean over),
  omega (
    arith,
    length-append (take max_display_chars s) (marker over),
    length-take max_display_chars s,
    length-marker over (omega arith),
  ),
  take-append_le max_display_chars (take max_display_chars s) (marker over)
        (omega (arith, length-take max_display_chars s))
      ∙ take_all max_display_chars (take max_display_chars s)
          (omega (arith, length-take max_display_chars s)),
  λ g. absurd (omega arith),
)
  where
    over : ℕ
    over = length s - max_display_chars

-- Whatever the text, what a prompt shows of it is inert, at most 229 characters long, begins as the
-- escaped text does for 200 characters, and is the escaped text where that has no more than 200. The
-- escaped text is taken to be shorter than 10 ^ 20, as any text in memory is.
pub display_bounded-IsBounded :
    (text : Text)
    → length (escape_for_display text) < 10 ^ 20
    → IsBounded (escape_for_display text) (display_bounded text)
unfolding display_bounded
display_bounded-IsBounded text small =
    elim (Bool-cases (leb (length (escape_for_display text)) max_display_chars)) [
      | inl e ↦ rw e (short-IsBounded _ (escape_for_display-IsClean text) (ground arith))
      | inr e ↦ rw e (cut-IsBounded _ (escape_for_display-IsClean text) small (ground arith))
    ]

-- So it is inert, without a bound.
pub display_bounded-IsClean : (text : Text) → All IsClean (display_bounded text)
unfolding display_bounded
display_bounded-IsClean text =
    elim (Bool-cases (leb (length (escape_for_display text)) max_display_chars)) [
      | inl e ↦ rw e (escape_for_display-IsClean text)
      | inr e ↦ rw e (
          All-append IsClean (take max_display_chars (escape_for_display text)) _
            (All-take IsClean max_display_chars _ (escape_for_display-IsClean text))
            (marker-IsClean (length (escape_for_display text) - max_display_chars)))
    ]
