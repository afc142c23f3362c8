-- ===== src/Text/Search.antt =====
-- The searches of `str` that the program uses: prefixes, substrings, trimming, lines and fields, as
-- the standard library documents them. A search takes the first match, one whose name starts with `r`
-- the last.
pub mod Laws
pub mod Fields
use lastpass_ssh_agent.Prelude.{
  ℕ, ◌≡◌, refl, Bool, ◌&&◌, ◌||◌, Option, none, some, List, [], ◌∷◌, ◌++◌, leb, ◌==◌, if◌then◌else◌,
  is_some, is_empty, Text, codes, bytes_eq,
}

-- `char::is_whitespace`: the Unicode property White_Space.
unfoldable pub is_whitespace : ℕ → Bool
is_whitespace c =
    (leb 0x09 c && leb c 0x0d)
    || c == 0x20
    || c == 0x85
    || c == 0xa0
    || c == 0x1680
    || (leb 0x2000 c && leb c 0x200a)
    || c == 0x2028
    || c == 0x2029
    || c == 0x202f
    || c == 0x205f
    || c == 0x3000

unfoldable pub strip_prefix : Text → Text → Option Text
strip_prefix [] s = some s
strip_prefix (p ∷ ps) [] = none
strip_prefix (p ∷ ps) (c ∷ s) = if p == c then strip_prefix ps s else none

unfoldable pub starts_with : Text → Text → Bool
unfolding strip_prefix
starts_with prefix s = is_some (strip_prefix prefix s)

abbrev pub cons_part : ℕ → Option Text → Option Text
cons_part c none = none
cons_part c (some s) = some (c ∷ s)

unfoldable pub strip_suffix : Text → Text → Option Text
strip_suffix suffix [] = if is_empty suffix then some [] else none
strip_suffix suffix (c ∷ s) =
    if bytes_eq (c ∷ s) suffix then some [] else cons_part c (strip_suffix suffix s)

abbrev pub cons_left : ℕ → Option (Text × Text) → Option (Text × Text)
cons_left c none = none
cons_left c (some (before, after)) = some (c ∷ before, after)

-- A match here, or else one further on.
abbrev pub here_or : Option Text → Option (Text × Text) → Option (Text × Text)
here_or (some after) later = some ([], after)
here_or none later = later

-- A match further on, or else one here.
abbrev pub later_or : Option (Text × Text) → Option Text → Option (Text × Text)
later_or (some parts) here = some parts
later_or none (some after) = some ([], after)
later_or none none = none

unfoldable pub split_once : Text → Text → Option (Text × Text)
unfolding strip_prefix
split_once pattern [] = here_or (strip_prefix pattern []) none
split_once pattern (c ∷ s) =
    let later = cons_left c (split_once pattern s) in here_or (strip_prefix pattern (c ∷ s)) later

unfoldable pub rsplit_once : Text → Text → Option (Text × Text)
unfolding strip_prefix
rsplit_once pattern [] = later_or none (strip_prefix pattern [])
rsplit_once pattern (c ∷ s) =
    later_or (cons_left c (rsplit_once pattern s)) (strip_prefix pattern (c ∷ s))

unfoldable pub contains : Text → Text → Bool
unfolding split_once
contains pattern s = is_some (split_once pattern s)

unfoldable pub trim_start : Text → Text
unfolding is_whitespace
trim_start [] = []
trim_start (c ∷ s) = let rest = trim_start s in if is_whitespace c then rest else c ∷ s

unfoldable pub trim_end : Text → Text
unfolding is_whitespace
trim_end [] = []
trim_end (c ∷ s) =
    let rest = trim_end s in if is_empty rest && is_whitespace c then [] else c ∷ rest

unfoldable pub trim : Text → Text
unfolding trim_start trim_end
trim s = trim_end (trim_start s)

-- One `\r` before the end of a line goes with it.
abbrev pub without_return : Text → Text
without_return [] = []
without_return (c ∷ []) = if c == 0x0d then [] else c ∷ []
without_return (c ∷ d ∷ s) = c ∷ without_return (d ∷ s)

pub split_lines : Text → Text → List Text
split_lines line [] = if is_empty line then [] else line ∷ []
split_lines line (c ∷ s) =
    let next = without_return line ∷ split_lines [] s in
    let longer = split_lines (line ++ c ∷ []) s in if c == 0x0a then next else longer

unfoldable pub lines : Text → List Text
unfolding split_lines
lines s = split_lines [] s

pub fields_onto : Text → Text → List Text
unfolding is_whitespace
fields_onto field [] = if is_empty field then [] else field ∷ []
fields_onto field (c ∷ s) =
    let next = fields_onto [] s in
    let longer = fields_onto (field ++ c ∷ []) s in
    if is_whitespace c then (if is_empty field then next else field ∷ next) else longer

unfoldable pub split_whitespace : Text → List Text
unfolding fields_onto
split_whitespace s = fields_onto [] s

fields_of_a_line :
    split_whitespace (codes " @revoked\thost  ssh-rsa ")
    ≡ codes "@revoked" ∷ codes "host" ∷ codes "ssh-rsa" ∷ []
unfolding split_whitespace
fields_of_a_line = refl

lines_of_a_text : lines (codes "a\r\n\nb") ≡ codes "a" ∷ [] ∷ codes "b" ∷ []
unfolding lines
lines_of_a_text = refl

last_match :
    rsplit_once (codes " [id: ") (codes "a [id: 1] [id: 2") ≡ some (codes "a [id: 1]", codes "2")
unfolding rsplit_once
last_match = refl
