-- ===== src/Approvals/Lifetime.antt =====
-- src/approvals.rs: how long an approval lives. The abstract view forgets the counters' values and
-- the dead entries: it is the number of locks and the set of questions that are honoured now.
use lastpass_ssh_agent.Prelude.Maps.{
  lookup, insert, retain_values, lookup-insert, IsMap, lookup-retain_values, IsMap-retain_values,
  IsMap-insert,
}
use lastpass_ssh_agent.Approvals.{
  unlocked, u64_mod, bump, Answer, not_needed, remembered_answer, given, voided, Approvals,
  remembered_in, remember_in, file, settle,
}
use lastpass_ssh_agent.Prelude.{
  if◌then◌else◌, ℕ, ◌+◌, ◌%◌, ◌≤◌, ◌<◌, ◌≡◌, refl, ap, ◌≢◌, ◌↔◌, ◌⊎◌, inl, inr, Bool, true, false,
  not, ◌&&◌, ◌||◌, none, some, List, [], ◌∷◌, arith, ◌==◌, Bool-cases, Option-cases, is_some, Text,
  bytes_eq, err,
}

pub honoured : Approvals → Text → Bool
honoured a question = is_some (remembered_in a question)

-- One entry for each question, none from a lock to come.
abbrev pub IsPast : ℕ → List (Text × ℕ) → Type 0
IsPast locks [] = Unit
IsPast locks ((q, e) ∷ m) = (e ≤ locks) × IsPast locks m

pub record IsValid (a : Approvals) : Type 0 where
  pub keys : IsMap a.remembered
  pub past : IsPast a.epoch.locks a.remembered

-- What a settled answer adds: a question approved just now, in the epoch that was current.
unfoldable pub approves : Approvals → Answer → (signed : Bool) → Text → Bool
approves a (given (some question) epoch) true q =
    a.enabled && (epoch == a.epoch.locks && bytes_eq question q)
approves a _ signed q = false

lookup-IsPast :
    (n : ℕ) (q : Text) (m : List (Text × ℕ)) (e : ℕ) → IsPast n m → lookup q m ≡ some e → e ≤ n
unfolding lookup
lookup-IsPast n q [] e p h = cc
lookup-IsPast n q ((j, e') ∷ m) e p h = ground (arith, lookup-IsPast n q m e p.1)

-- A lock ends every approval.
pub honoured-bump :
    (a : Approvals) (q : Text)
    → IsValid a
    → a.epoch.locks + 1 < u64_mod
    → honoured (record a { epoch = bump a.epoch }) q ≡ false
unfolding honoured remembered_in
honoured-bump a q v h = elim (Option-cases (lookup q a.remembered)) [
  | inl e ↦ rw e
  | inr (n, e) ↦ rw e (ground (arith, lookup-IsPast a.epoch.locks q a.remembered n v.past e))
]

-- Asking for the password ends none by itself.
pub honoured-unlocked :
    (a : Approvals) (q : Text) → honoured (record a { epoch = unlocked a.epoch }) q ≡ honoured a q
unfolding honoured remembered_in
honoured-unlocked a q = refl

honoured-remember_in :
    (a : Approvals) (question q : Text) (epoch : ℕ)
    → IsValid a
    → honoured (remember_in a question epoch) q
      ≡ ((a.enabled && (epoch == a.epoch.locks && bytes_eq question q)) || honoured a q)
unfolding honoured remembered_in remember_in
honoured-remember_in a question q epoch v = ground (
  arith,
  lookup-insert question q epoch (retain_values (λ e. e == epoch) a.remembered),
  lookup-retain_values (λ e. e == epoch) q a.remembered v.keys,
)

IsPast-retain_values :
    (n k : ℕ) (m : List (Text × ℕ)) → IsPast n m → IsPast n (retain_values (λ e. e == k) m)
unfolding retain_values
IsPast-retain_values n k [] p = tt
IsPast-retain_values n k ((q, e) ∷ m) p = ground (arith, IsPast-retain_values n k m p.1)

IsPast-insert :
    (n e : ℕ) (q : Text) (m : List (Text × ℕ)) → e ≤ n → IsPast n m → IsPast n (insert q e m)
unfolding insert
IsPast-insert n e q [] h p = (h, tt)
IsPast-insert n e q ((j, e') ∷ m) h p = ground (arith, IsPast-insert n e q m h p.1)

IsPast-suc : (n : ℕ) (m : List (Text × ℕ)) → IsPast n m → IsPast (n + 1) m
IsPast-suc n [] p = tt
IsPast-suc n ((q, e) ∷ m) p = (omega arith, IsPast-suc n m p.1)

pub bump-IsValid :
    (a : Approvals)
    → IsValid a
    → a.epoch.locks + 1 < u64_mod
    → IsValid (record a { epoch = bump a.epoch })
bump-IsValid a v h = record {
  keys = v.keys;
  past = rw e (IsPast-suc a.epoch.locks a.remembered v.past);
}
  where
    e : (a.epoch.locks + 1) % u64_mod ≡ a.epoch.locks + 1
    e = omega arith

remember_in-IsValid :
    (a : Approvals) (question : Text) (epoch : ℕ)
    → IsValid a
    → IsValid (remember_in a question epoch)
unfolding remember_in
remember_in-IsValid a question epoch v =
    elim (Bool-cases (not a.enabled || not (epoch == a.epoch.locks))) [
      | inl e ↦ rw e v
      | inr e ↦ rw e (record {
        keys = IsMap-insert question epoch _ (IsMap-retain_values _ a.remembered v.keys);
        past =
            IsPast-insert a.epoch.locks epoch question _ (ground arith)
              (IsPast-retain_values a.epoch.locks epoch a.remembered v.past);
      })
    ]

file-IsValid :
    (a : Approvals) (answer : Answer) (asked signed : Bool)
    → IsValid a
    → IsValid (file a answer asked signed).1
unfolding file
file-IsValid a not_needed asked signed v = v
file-IsValid a (remembered_answer epoch) asked signed v =
    elim (Bool-cases (asked || not (epoch == a.epoch.locks))) [ inl e ↦ rw e v | inr e ↦ rw e v ]
file-IsValid a (given (some q) epoch) asked true v = remember_in-IsValid a q _ v
file-IsValid a (given (some q) epoch) asked false v = v
file-IsValid a (given none epoch) asked signed v = v

-- Settling an answer, whatever it is, keeps the memory well formed: one entry a question, none
-- from an epoch yet to come. The lock counter is taken to be below its bound of 2 ^ 64 after one
-- more lock.
pub settle-IsValid :
    (a : Approvals) (answer : Answer) (asked signed : Bool)
    → IsValid a
    → a.epoch.locks + 1 < u64_mod
    → IsValid (settle a answer asked signed).1
unfolding settle
settle-IsValid a answer true signed v h = file-IsValid _ answer true signed (bump-IsValid a v h)
settle-IsValid a answer false signed v h = file-IsValid a answer false signed v

epoch-remember_in : (a : Approvals) (q : Text) (e : ℕ) → (remember_in a q e).epoch ≡ a.epoch
unfolding remember_in
epoch-remember_in a q e = ground arith

enabled-remember_in : (a : Approvals) (q : Text) (e : ℕ) → (remember_in a q e).enabled ≡ a.enabled
unfolding remember_in
enabled-remember_in a q e = ground arith

-- What settling leaves alone, and what it does to the counter.
pub settle_frame :
    (a : Approvals) (answer : Answer) (asked signed : Bool)
    → ((settle a answer asked signed).1.enabled ≡ a.enabled)
      × ((settle a answer asked signed).1.epoch ≡ (if asked then bump a.epoch else a.epoch))
unfolding settle file
settle_frame a not_needed asked signed = (ground arith, ground arith)
settle_frame a (remembered_answer e) asked signed = (ground arith, ground arith)
settle_frame a (given none e) asked signed = (ground arith, ground arith)
settle_frame a (given (some p) e) asked false = (ground arith, ground arith)
settle_frame a (given (some p) e) true true =
    (enabled-remember_in _ p (e + 1), epoch-remember_in _ p (e + 1))
settle_frame a (given (some p) e) false true = (enabled-remember_in a p e, epoch-remember_in a p e)

file_remembered :
    (a : Approvals) (epoch : ℕ) (asked signed : Bool)
    → (file a (remembered_answer epoch) asked signed).1 ≡ a
unfolding file
file_remembered a epoch asked signed = ground arith

-- After an answer is settled a question is honoured exactly when it is the one just approved, in the
-- epoch that was current and with a signature issued, or was honoured before and no password had to
-- be asked for.
pub honoured-settle :
    (a : Approvals) (answer : Answer) (asked signed : Bool) (q : Text)
    → IsValid a
    → a.epoch.locks + 1 < u64_mod
    → honoured (settle a answer asked signed).1 q
      ≡ (approves a answer signed q || (not asked && honoured a q))
unfolding settle file approves
honoured-settle a not_needed true signed q v h = honoured-bump a q v h
honoured-settle a not_needed false signed q v h = refl
honoured-settle a (remembered_answer e) true signed q v h = honoured-bump a q v h
honoured-settle a (remembered_answer e) false signed q v h =
    ap (λ b. honoured b q) (file_remembered a e false signed)
honoured-settle a (given none e) true signed q v h = honoured-bump a q v h
honoured-settle a (given none e) false signed q v h = refl
honoured-settle a (given (some p) e) true false q v h = honoured-bump a q v h
honoured-settle a (given (some p) e) false false q v h = refl
honoured-settle a (given (some p) e) true true q v h = ground (
  arith,
  honoured-bump a q v h,
  honoured-remember_in (record a { epoch = bump a.epoch }) p q (e + 1) (bump-IsValid a v h),
)
honoured-settle a (given (some p) e) false true q v h = honoured-remember_in a p q e v

-- Settling voids a request exactly if its answer is from memory and a password was asked for under
-- it or the epoch is not the one the answer was given in.
pub settle_covers :
    (a : Approvals) (answer : Answer) (asked signed : Bool)
    → ((settle a answer asked signed).0 ≡ err voided) ↔ (
        (epoch : ℕ) × (answer ≡ remembered_answer epoch)
        × ((asked ≡ true) ⊎ (epoch ≢ a.epoch.locks)))
unfolding settle file
settle_covers a not_needed asked signed = (λ h. cc, λ h. cc (h.1))
settle_covers a (remembered_answer e) true signed = (λ h. (e, refl, inl refl), λ h. refl)
settle_covers a (remembered_answer e) false signed =
    (λ h. (e, refl, inr (ground arith)), λ h. ground arith)
settle_covers a (given (some p) e) asked true = (λ h. cc, λ h. cc (h.1))
settle_covers a (given (some p) e) asked false = (λ h. cc, λ h. cc (h.1))
settle_covers a (given none e) asked signed = (λ h. cc, λ h. cc (h.1))
