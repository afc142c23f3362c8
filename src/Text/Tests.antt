-- ===== src/Text/Tests.antt =====
-- Runs of src/text.rs at a concrete text.
use lastpass_ssh_agent.Prelude.{◌≡◌, refl, [], ◌∷◌, Text, codes}
use lastpass_ssh_agent.Text.{
  is_control, escape_for_display, escape_char, is_invisible, invisible_ranges,
}
use lastpass_ssh_agent.Text.Numbers.{digits}

-- An escape sequence and a right-to-left override.
abbrev hostile : Text
hostile = 0x1b ∷ 0x5b ∷ 0x202e ∷ []

escaped : escape_for_display hostile ≡ codes "\\x1b[\\u{202e}"
unfolding escape_for_display escape_char is_invisible invisible_ranges is_control digits
escaped = refl
