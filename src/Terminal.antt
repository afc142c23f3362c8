-- ===== src/Terminal.antt =====
-- The reading of a line from the terminal, byte by byte, as src/confirm/tty.rs and
-- src/passphrase/tty.rs both do it with `read_once` of src/tty.rs. What each read returns is given; a
-- list that ends before the line does is a terminal at which nothing more is typed.
mod Tests
pub mod Lines
use lastpass_ssh_agent.Prelude.{
  ℕ, zero, suc, ◌+◌, ◌-◌, ◌*◌, ◌/◌, ◌%◌, ◌^◌, ◌≤◌, ◌<◌, String, ◌≡◌, refl, sym, ap, ◌∙◌, ◌≢◌, ◌↔◌,
  ◌⊎◌, inl, inr, Bool, true, false, not, ◌&&◌, ◌||◌, Option, none, some, List, [], ◌∷◌, ◌++◌, map,
  append_assoc, append-nil, arith, ltb, leb, ◌==◌, if◌then◌else◌, ltb→lt, ltb→ge, lt→ltb, ==_iff,
  Bool-cases, Option-cases, is_some, length, take, drop, replicate, any, find, retain, last,
  is_empty, length-append, take-append, drop-append, take-append-drop, length-take, length-drop,
  any-append, last-snoc, All, All-append, All-retain, Bytes, Text, codes, bytes_eq, bytes_eq_refl,
  bytes_eq→eq, bytes_eq_iff, ◌>>=◌, ◌>>◌, guard, >>=-eq-some, guard-eq-some, some-eq, some_pair,
  Result, ok, err, is_ok, map_err, and_then, and_then-eq-ok, All-drop, All-last, length-replicate,
  take-append_le, take_all, All-take, All-append, retain-append, retain-middle, All-middle, AnyOf,
  AnyOf-middle, AnyOf-here, All-append_right,
}

abbrev pub Typed : Type 0
Typed = List (Result Text ℕ)

pub record Line : Type 0 where
  pub bytes : Bytes
  pub too_long : Bool
  -- What is typed behind it.
  pub left : Typed

-- The loop; past the bound a byte is read and dropped.
unfoldable pub read_line :
    (max_bytes : ℕ) → Bytes → (too_long : Bool) → Typed → Option (Result Text Line)
read_line max_bytes line too_long [] = none
read_line max_bytes line too_long (err e ∷ typed) = some (err e)
read_line max_bytes line too_long (ok b ∷ typed) =
    let full = length line == max_bytes in
    let rest =
      read_line max_bytes (if full then line else line ++ b ∷ []) (full || too_long) typed in
    if b == 0x0a
    then some (ok (record { bytes = line; too_long = too_long; left = typed }))
    else rest
