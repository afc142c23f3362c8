-- ===== src/Knownhosts/Reference.antt =====
-- What the files of src/knownhosts.rs record of a key, said of their lines at once.
use lastpass_ssh_agent.Prelude.{
  ◌≡◌, refl, ◌∙◌, inl, inr, Bool, true, false, not, ◌||◌, Option, none, some, List, [], ◌∷◌, ◌++◌,
  append-nil, arith, if◌then◌else◌, Bool-cases, any, retain, Text, codes, bytes_eq, bytes_eq_refl,
  bytes_eq→eq, bytes_eq_iff, retain-append,
}
use lastpass_ssh_agent.Text.Separated.{join}
use lastpass_ssh_agent.Knownhosts.{Line, named_line, revoked_line, hashed_line, push_new}

-- Whether any line revokes the key.
unfoldable pub revokes : Text → List (Option Line) → Bool
revokes fingerprint [] = false
revokes fingerprint (some (revoked_line f) ∷ ls) =
    let rest = revokes fingerprint ls in bytes_eq fingerprint f || rest
revokes fingerprint (l ∷ ls) = revokes fingerprint ls

-- The hosts of every line that names the key.
unfoldable pub hosts_of : Text → List (Option Line) → List Text
hosts_of fingerprint [] = []
hosts_of fingerprint (some (named_line f hosts) ∷ ls) =
    let rest = hosts_of fingerprint ls in if bytes_eq f fingerprint then hosts ∷ rest else rest
hosts_of fingerprint (l ∷ ls) = hosts_of fingerprint ls

abbrev differs : Text → Text → Bool
differs s t = not (bytes_eq s t)

-- Without the repeats.
unfoldable pub firsts : List Text → List Text
firsts [] = []
firsts (x ∷ xs) = x ∷ retain (differs x) (firsts xs)

unfoldable pub name_of : Bool → List Text → Option Text
name_of true hosts = none
name_of false [] = none
name_of false (h ∷ hosts) = some (join (codes ", ") (h ∷ hosts))

-- The name that the lines give a key.
unfoldable pub recorded : List (Option Line) → Text → Option Text
unfolding revokes hosts_of firsts name_of
recorded ls fingerprint = name_of (revokes fingerprint ls) (firsts (hosts_of fingerprint ls))

retain-push_new_same :
    (h : Text) (l : List Text) → retain (differs h) (push_new h l) ≡ retain (differs h) l
unfolding push_new
retain-push_new_same h l = elim (Bool-cases (any (bytes_eq h) l)) [
  | inl e ↦ rw e
  | inr e ↦ rw e (retain-append (differs h) l (h ∷ []) ∙ rw (bytes_eq_refl h, append-nil))
]

any-retain :
    (x h : Text) (l : List Text)
    → bytes_eq x h ≡ false
    → any (bytes_eq h) (retain (differs x) l) ≡ any (bytes_eq h) l
any-retain x h [] n = refl
any-retain x h (y ∷ l) n =
    ground (arith, bytes_eq_iff x y, bytes_eq_iff h y, bytes_eq_iff x h, any-retain x h l n)

retain-push_new :
    (x h : Text) (l : List Text)
    → bytes_eq x h ≡ false
    → retain (differs x) (push_new h l) ≡ push_new h (retain (differs x) l)
unfolding push_new
retain-push_new x h l n = elim (Bool-cases (any (bytes_eq h) l)) [
  | inl e ↦ rw (e, any-retain x h l n, e)
  | inr e ↦ rw (e, any-retain x h l n, e) (retain-append (differs x) l (h ∷ []) ∙ rw n)
]

push_new_nil : (h : Text) → h ∷ [] ≡ push_new h []
unfolding push_new
push_new_nil h = refl

push_new-cons :
    (h x : Text) (l : List Text)
    → push_new h (x ∷ l) ≡ (if bytes_eq h x then x ∷ l else x ∷ push_new h l)
unfolding push_new
push_new-cons h x l = ground arith

-- One host more.
pub firsts-snoc : (xs : List Text) (h : Text) → firsts (xs ++ h ∷ []) ≡ push_new h (firsts xs)
unfolding firsts
firsts-snoc [] h = push_new_nil h
firsts-snoc (x ∷ xs) h = elim (Bool-cases (bytes_eq x h)) [
  | inl e ↦
      let same : x ≡ h = bytes_eq→eq x h e in
      rw (
        firsts-snoc xs h,
        same,
        retain-push_new_same h (firsts xs),
        push_new-cons h h,
        bytes_eq_refl h,
      )
  | inr e ↦
      let other : bytes_eq h x ≡ false = ground (arith, bytes_eq_iff x h, bytes_eq_iff h x) in
      rw (firsts-snoc xs h, retain-push_new x h (firsts xs) e, push_new-cons h x, other)
]

pub revokes-snoc :
    (fp : Text) (ls : List (Option Line)) (l : Option Line)
    → revokes fp (ls ++ l ∷ []) ≡ (revokes fp (l ∷ []) || revokes fp ls)
unfolding revokes
revokes-snoc fp [] l = ground arith
revokes-snoc fp (none ∷ ls) l = revokes-snoc fp ls l
revokes-snoc fp (some hashed_line ∷ ls) l = revokes-snoc fp ls l
revokes-snoc fp (some (named_line f h) ∷ ls) l = revokes-snoc fp ls l
revokes-snoc fp (some (revoked_line f) ∷ ls) l = ground (arith, revokes-snoc fp ls l)

pub hosts_of-append :
    (fp : Text) (ls ms : List (Option Line))
    → hosts_of fp (ls ++ ms) ≡ hosts_of fp ls ++ hosts_of fp ms
unfolding hosts_of
hosts_of-append fp [] ms = refl
hosts_of-append fp (none ∷ ls) ms = hosts_of-append fp ls ms
hosts_of-append fp (some hashed_line ∷ ls) ms = hosts_of-append fp ls ms
hosts_of-append fp (some (revoked_line f) ∷ ls) ms = hosts_of-append fp ls ms
hosts_of-append fp (some (named_line f h) ∷ ls) ms = ground (arith, hosts_of-append fp ls ms)

pub hosts_of-snoc :
    (fp f h : Text) (ls : List (Option Line))
    → hosts_of fp (ls ++ some (named_line f h) ∷ [])
      ≡ (if bytes_eq f fp then hosts_of fp ls ++ h ∷ [] else hosts_of fp ls)
unfolding hosts_of
hosts_of-snoc fp f h ls = elim (Bool-cases (bytes_eq f fp)) [
  | inl e ↦ rw (hosts_of-append fp ls (some (named_line f h) ∷ []), e)
  | inr e ↦ rw (hosts_of-append fp ls (some (named_line f h) ∷ []), e, append-nil)
]
