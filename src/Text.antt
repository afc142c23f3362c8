-- ===== src/Text.antt =====
-- src/text.rs: what a prompt, a listing or a log line shows of an untrusted text.
-- A `char` is its code point, and `String::push_str` appends.
mod Tests
mod Numbers
pub mod Separated
pub mod Search
pub mod Safety
pub mod Bounded
pub use Numbers.{IsDigit, digits-IsDigit, decimal-injective, length-decimal}
unfoldable pub use Numbers.{digits, decimal}
use lastpass_ssh_agent.Prelude.{
  ℕ, ◌-◌, ◌≡◌, refl, Bool, not, ◌&&◌, ◌||◌, List, [], ◌∷◌, ◌++◌, ltb, leb, if◌then◌else◌, length,
  take, any, Text, codes,
}

-- `char::is_control`: the Unicode category Cc.
unfoldable pub is_control : ℕ → Bool
is_control c = ltb c 0x20 || (leb 0x7f c && leb c 0x9f)

unfoldable pub invisible_ranges : List (ℕ × ℕ)
invisible_ranges =
    (0x00ad, 0x00ad)
    ∷ (0x034f, 0x034f)
    ∷ (0x061c, 0x061c)
    ∷ (0x115f, 0x1160)
    ∷ (0x17b4, 0x17b5)
    ∷ (0x180e, 0x180e)
    ∷ (0x200b, 0x200f)
    ∷ (0x202a, 0x202e)
    ∷ (0x2060, 0x206f)
    ∷ (0x3164, 0x3164)
    ∷ (0xfeff, 0xfeff)
    ∷ (0xffa0, 0xffa0)
    ∷ (0xfff0, 0xfffb)
    ∷ (0x1bca0, 0x1bca3)
    ∷ (0x1d173, 0x1d17a)
    ∷ (0xe0000, 0xe00ff)
    ∷ (0xe01f0, 0xe0fff)
    ∷ []

in_range : ℕ → ℕ × ℕ → Bool
in_range c (start, end) = leb start c && leb c end

unfoldable pub is_invisible : ℕ → Bool
unfolding in_range
is_invisible c = any (in_range c) invisible_ranges

-- What one round of the loop appends.
unfoldable pub escape_char : ℕ → Text
escape_char c =
    if not (is_control c) && not (is_invisible c)
    then c ∷ []
    else if leb c 0xff
    then codes "\\x" ++ digits 16 2 c
    else codes "\\u{" ++ digits 16 4 c ++ codes "}"

unfoldable pub escape_onto : Text → Text → Text
escape_onto out [] = out
escape_onto out (c ∷ cs) = escape_onto (out ++ escape_char c) cs

unfoldable pub escape_for_display : Text → Text
unfolding escape_onto
escape_for_display text = escape_onto [] text

abbrev pub max_display_chars : ℕ
max_display_chars = 200

-- `char_indices().nth(MAX_DISPLAY_CHARS)` finds a character exactly when there are more.
pub display_bounded : Text → Text
display_bounded text =
    let escaped = escape_for_display text in
    if leb (length escaped) max_display_chars
    then escaped
    else take max_display_chars escaped
      ++ (codes "… [" ++ decimal (length escaped - max_display_chars) ++ codes " more]")

control_becomes_visible : escape_for_display (0x61 ∷ 0x1b ∷ 0x202e ∷ []) ≡ codes "a\\x1b\\u{202e}"
unfolding escape_for_display escape_char is_control is_invisible invisible_ranges digits
control_becomes_visible = refl
