-- ===== src/Lpass/Listing.antt =====
-- `parse_ls_line` and `ls` of src/lpass/cli.rs: the items in the listing that `lpass ls` prints.
mod Tests
use lastpass_ssh_agent.Prelude.{
  sym, ◌∙◌, ◌≡◌, refl, ap, ◌↔◌, true, Option, none, some, List, [], ◌∷◌, ◌++◌, append_assoc, arith,
  if◌then◌else◌, All, All-append, Text, codes, ◌>>=◌, >>=-eq-some,
}
use lastpass_ssh_agent.Config.{is_item_id, all, is_digit}
use lastpass_ssh_agent.Lpass.{ItemSummary}
use lastpass_ssh_agent.Text.Separated.{Lacks}
use lastpass_ssh_agent.Text.Search.{
  lines, strip_suffix, rsplit_once, trim_end, is_whitespace, strip_prefix,
}
use lastpass_ssh_agent.Text.Search.Laws.{
  rsplit_once-append, lines-cons, without_return-snoc, rsplit_once-eq-some, strip_suffix-append,
  strip_suffix-eq-some, trim_end-snoc,
}

abbrev id_mark : Text
id_mark = codes " [id: "

item_named : Text → Text → Option ItemSummary
item_named name id = if is_item_id id then some (record { id = id; name = name }) else none

unfoldable pub parse_ls_line : Text → Option ItemSummary
unfolding item_named
parse_ls_line line = strip_suffix (codes "]") (trim_end line) >>= λ rest.
    rsplit_once id_mark rest >>= λ (name, id). item_named name id

-- `filter_map(parse_ls_line)`.
parsed_lines : List Text → List ItemSummary
parsed_lines [] = []
parsed_lines (line ∷ rest) = elim (parse_ls_line line) [
  | none ↦ parsed_lines rest
  | some item ↦ item ∷ parsed_lines rest
]

unfoldable pub parse_listing : Text → List ItemSummary
unfolding parsed_lines
parse_listing text = parsed_lines (lines text)

-- How a listing shows an item.
abbrev pub shown : ItemSummary → Text
shown item = (item.name ++ id_mark ++ item.id) ++ codes "]"

digits_unmarked : (id : Text) → all is_digit id ≡ true → rsplit_once id_mark id ≡ none
unfolding rsplit_once strip_prefix all
digits_unmarked [] h = refl
digits_unmarked (c ∷ id) h = ground (arith, digits_unmarked id)

id_unmarked :
    (id : Text) → all is_digit id ≡ true → rsplit_once id_mark (codes "[id: " ++ id) ≡ none
unfolding rsplit_once strip_prefix all
id_unmarked [] h = refl
id_unmarked (c ∷ id) h = ground (arith, digits_unmarked id)

-- What `item_named` was given where it names an item.
named-eq-some :
    (name id : Text) (item : ItemSummary)
    → item_named name id ≡ some item
    → (item.name ≡ name) × (item.id ≡ id) × (is_item_id id ≡ true)
unfolding item_named
named-eq-some name id item h = ground arith

-- Item ids are digits.
item_id-digits : (id : Text) → is_item_id id ≡ true → all is_digit id ≡ true
unfolding is_item_id
item_id-digits id h = ground arith

-- What is read depends on the line up to the whitespace at its end.
parse_ls_line-shown :
    (line : Text) (item : ItemSummary)
    → trim_end line ≡ shown item
    → is_item_id item.id ≡ true
    → parse_ls_line line ≡ some item
unfolding parse_ls_line item_named
parse_ls_line-shown line item trimmed h =
    let before = item.name ++ id_mark ++ item.id in
    let stripped : strip_suffix (codes "]") (shown item) ≡ some before =
      strip_suffix-append before (codes "]") (λ e. cc) in
    let parts : rsplit_once id_mark before ≡ some (item.name, item.id) =
      rsplit_once-append item.name 0x20 (codes "[id: ") item.id
        (id_unmarked item.id (item_id-digits item.id h)) in
    rw (trimmed, stripped, parts, h)

parse_ls_line-eq-some :
    (line : Text) (item : ItemSummary)
    → parse_ls_line line ≡ some item
    → (trim_end line ≡ shown item) × (is_item_id item.id ≡ true)
unfolding parse_ls_line
parse_ls_line-eq-some line item h =
    let (rest, stripped, h') = >>=-eq-some (strip_suffix (codes "]") (trim_end line)) _ h in
    let ((name, id), parts, h'') = >>=-eq-some (rsplit_once id_mark rest) _ h' in
    let (e, f, g) = named-eq-some name id item h'' in
    let whole = strip_suffix-eq-some (codes "]") (trim_end line) rest stripped in
    let cut = rsplit_once-eq-some id_mark rest name id parts in
    (
      rw (e, f) (whole ∙ ap (λ l. l ++ codes "]") (cut ∙ sym (append_assoc name id_mark id))),
      rw f g,
    )

-- A line of the listing is read as an item exactly if, without the white space at its end, it is
-- the name, ` [id: `, the id and `]`, and the id is a numeric one; a name may itself contain such
-- a bracket.
pub parse_ls_line_iff :
    (line : Text) (item : ItemSummary)
    → (parse_ls_line line ≡ some item)
      ↔ ((trim_end line ≡ shown item) × (is_item_id item.id ≡ true))
parse_ls_line_iff line item =
    (parse_ls_line-eq-some line item, λ h. parse_ls_line-shown line item h.0 h.1)

-- What `lpass ls` prints: a line for each item.
abbrev pub printed : List ItemSummary → Text
printed [] = []
printed (item ∷ items) = shown item ++ 0x0a ∷ printed items

-- An item of the vault, on one line.
abbrev pub IsListed : ItemSummary → Type 0
IsListed item = (is_item_id item.id ≡ true) × Lacks 0x0a item.name

digits-Lacks : (id : Text) → all is_digit id ≡ true → Lacks 0x0a id
unfolding all
digits-Lacks [] h = tt
digits-Lacks (c ∷ id) h = ground (arith, digits-Lacks id)

shown-Lacks : (item : ItemSummary) → IsListed item → Lacks 0x0a (shown item)
shown-Lacks item h =
    All-append _ _ (codes "]")
      (All-append _ (item.name ++ id_mark) item.id
        (All-append _ item.name id_mark h.1 (omega arith))
        (digits-Lacks item.id (item_id-digits item.id h.0)))
      (omega arith)

lines_nil : parsed_lines (lines []) ≡ []
unfolding parsed_lines lines
lines_nil = refl

shown_read :
    (item : ItemSummary) → is_item_id item.id ≡ true → parse_ls_line (shown item) ≡ some item
unfolding is_whitespace
shown_read item h =
    parse_ls_line-shown (shown item) item
      (trim_end-snoc (item.name ++ id_mark ++ item.id) 0x5d refl) h

parsed-cons :
    (line : Text) (rest : List Text) (item : ItemSummary)
    → parse_ls_line line ≡ some item
    → parsed_lines (line ∷ rest) ≡ item ∷ parsed_lines rest
unfolding parsed_lines
parsed-cons line rest item h = rw (h, parsed_lines)

-- The listing that prints items a line each is read back as these items, in order. The ids are
-- taken to be item ids and the names to have no line break.
pub parse_listing-printed :
    (items : List ItemSummary) → All IsListed items → parse_listing (printed items) ≡ items
unfolding parse_listing
parse_listing-printed [] h = lines_nil
parse_listing-printed (item ∷ items) h =
    let line = lines-cons (shown item) (printed items) (shown-Lacks item h.0) in
    let kept = without_return-snoc (item.name ++ id_mark ++ item.id) 0x5d (omega arith) in
    rw (line, kept, parsed-cons (shown item) (lines (printed items)) item (shown_read item h.0.0))
      (ap (λ l. item ∷ l) (parse_listing-printed items h.1))
