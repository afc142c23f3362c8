-- ===== src/Terminal/Lines.antt =====
-- What the loop of src/confirm/tty.rs and src/passphrase/tty.rs makes of a line.
use lastpass_ssh_agent.Prelude.{
  ◌↔◌, sym, ◌∙◌, ltb→ge, take_all, ℕ, suc, ◌+◌, ◌≤◌, ◌≡◌, refl, inl, inr, Bool, true, false, ◌||◌,
  Option, none, some, [], ◌∷◌, ◌++◌, append_assoc, append-nil, arith, ltb, ◌==◌, if◌then◌else◌,
  lt→ltb, Bool-cases, length, take, length-append, take-append, Bytes, Text, Result, ok, err,
  take_all,
}
use lastpass_ssh_agent.Terminal.{Typed, Line, read_line}

abbrev onto : ℕ → Option (Result Text (Bytes × Typed)) → Option (Result Text (Bytes × Typed))
onto b none = none
onto b (some (err e)) = some (err e)
onto b (some (ok (line, left))) = some (ok (b ∷ line, left))

-- The bytes up to the first line break, and what is behind it, if no read fails before.
unfoldable pub until_newline : Typed → Option (Result Text (Bytes × Typed))
until_newline [] = none
until_newline (err e ∷ typed) = some (err e)
until_newline (ok b ∷ typed) =
    let rest = until_newline typed in if b == 0x0a then some (ok ([], typed)) else onto b rest

abbrev pub joined_onto :
    (max_bytes : ℕ)
    → Bytes
    → Bool
    → Option (Result Text (Bytes × Typed))
    → Option (Result Text Line)
joined_onto max_bytes line too_long none = none
joined_onto max_bytes line too_long (some (err e)) = some (err e)
joined_onto max_bytes line too_long (some (ok (more, left))) = some (
    ok (record {
      bytes = take max_bytes (line ++ more);
      too_long = too_long || ltb max_bytes (length line + length more);
      left = left;
    }))

or_true : (b : Bool) → (b || true) ≡ true
or_true true = refl
or_true false = refl

or_false : (b : Bool) → (b || false) ≡ b
or_false true = refl
or_false false = refl

take_full :
    (max_bytes : ℕ) (line more : Bytes)
    → length line ≡ max_bytes
    → take max_bytes (line ++ more) ≡ line
take_full max_bytes line more h = rw (← h) (take-append line more)

onto_full :
    (max_bytes b : ℕ) (line : Bytes) (too_long : Bool) (o : Option (Result Text (Bytes × Typed)))
    → length line ≡ max_bytes
    → joined_onto max_bytes line true o ≡ joined_onto max_bytes line too_long (onto b o)
onto_full max_bytes b line too_long none h = refl
onto_full max_bytes b line too_long (some (err e)) h = refl
onto_full max_bytes b line too_long (some (ok (more, left))) h =
    let over : ltb max_bytes (length line + suc (length more)) ≡ true = lt→ltb _ _ (omega arith) in
    rw (
      take_full max_bytes line more h,
      take_full max_bytes line (b ∷ more) h,
      over,
      or_true too_long,
    )

onto_more :
    (max_bytes b : ℕ) (line : Bytes) (too_long : Bool) (o : Option (Result Text (Bytes × Typed)))
    → joined_onto max_bytes (line ++ b ∷ []) too_long o
      ≡ joined_onto max_bytes line too_long (onto b o)
onto_more max_bytes b line too_long none = refl
onto_more max_bytes b line too_long (some (err e)) = refl
onto_more max_bytes b line too_long (some (ok (more, left))) =
    let n : length (line ++ b ∷ []) + length more ≡ length line + suc (length more) =
      omega (arith, length-append line (b ∷ [])) in
    rw (append_assoc line (b ∷ []) more, n)

read_line-joined :
    (max_bytes : ℕ) (line : Bytes) (too_long : Bool) (typed : Typed)
    → length line ≤ max_bytes
    → read_line max_bytes line too_long typed
      ≡ joined_onto max_bytes line too_long (until_newline typed)
unfolding read_line until_newline
read_line-joined max_bytes line too_long [] h = refl
read_line-joined max_bytes line too_long (err e ∷ typed) h = refl
read_line-joined max_bytes line too_long (ok b ∷ typed) h = elim (Bool-cases (b == 0x0a)) [
  | inl e ↦
      let fits : ltb max_bytes (length line + 0) ≡ false = ground arith in
      rw (e, append-nil, fits, or_false too_long, take_all max_bytes line h)
  | inr e ↦ elim (Bool-cases (length line == max_bytes)) [
    | inl full ↦
        rw (e, full, read_line-joined max_bytes line true typed h)
          (onto_full max_bytes b line too_long (until_newline typed) (ground arith))
    | inr more ↦
        rw
          (
            e,
            more,
            read_line-joined max_bytes (line ++ b ∷ []) too_long typed
                (ground (arith, length-append line (b ∷ []))),
          )
          (onto_more max_bytes b line too_long (until_newline typed))
  ]
]

-- A whole line is read, its bytes up to the bound, and nothing behind it.
pub read_line-eq :
    (max_bytes : ℕ) (typed : Typed)
    → read_line max_bytes [] false typed ≡ joined_onto max_bytes [] false (until_newline typed)
read_line-eq max_bytes typed = read_line-joined max_bytes [] false typed (omega arith)

joined_fits :
    (max_bytes : ℕ) (line : Bytes) (left : Typed)
    → length line ≤ max_bytes
    → joined_onto max_bytes [] false (some (ok (line, left)))
      ≡ some (ok (record { bytes = line; too_long = false; left = left }))
joined_fits max_bytes line left fits =
    let short : ltb max_bytes (0 + length line) ≡ false = ground arith in
    rw (short, take_all max_bytes line fits)

-- A line that is not too long is what was typed.
pub read_line_iff :
    (max_bytes : ℕ) (typed : Typed) (line : Bytes) (left : Typed)
    → (read_line max_bytes [] false typed
        ≡ some (ok (record { bytes = line; too_long = false; left = left })))
      ↔ ((until_newline typed ≡ some (ok (line, left))) × (length line ≤ max_bytes))
read_line_iff max_bytes typed line left = (
  λ h. whole (until_newline typed) (rw (read_line-eq max_bytes typed) at h),
  λ (e, fits). rw (read_line-eq max_bytes typed, e) (joined_fits max_bytes line left fits),
)
  where
    whole :
        (o : Option (Result Text (Bytes × Typed)))
        → joined_onto max_bytes [] false o
          ≡ some (ok (record { bytes = line; too_long = false; left = left }))
        → (o ≡ some (ok (line, left))) × (length line ≤ max_bytes)
    whole none h = cc
    whole (some (err e)) h = ground arith
    whole (some (ok (more, rest))) h =
        let (b, l, r) : (take max_bytes more ≡ line)
            × (ltb max_bytes (length more) ≡ false)
            × (rest ≡ left) =
          (ground arith, ground arith, ground arith) in
        let fits : length more ≤ max_bytes = ltb→ge _ _ l in
        let same : more ≡ line = sym (take_all max_bytes more fits) ∙ b in
        (rw (same, r), rw (← same) fits)
