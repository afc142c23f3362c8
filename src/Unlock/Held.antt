-- ===== src/Unlock/Held.antt =====
-- What can be held, and what becomes of it, over a run of src/unlock.rs.
use mathlib.Core.Path.{subst}
use lastpass_ssh_agent.Prelude.{if◌then◌else◌, refl, ◌||◌}
use lastpass_ssh_agent.Approvals.{bump, unlocked}
use lastpass_ssh_agent.Unlock.{
  is_store, password_when, touch_when, rejected_when, expired, expire_if_idle, password, touch,
  rejected, forget,
}
use lastpass_ssh_agent.Config.{typed}
use lastpass_ssh_agent.Config.{MasterPassword, touch_id}
use lastpass_ssh_agent.Unlock.{
  max_passphrase_bytes, PasswordError, from_stored, resolve, supplied, Unlock, HeldPassword, Source,
  from_store, from_prompt, from_typed, password, touch, rejected, forget, expire_if_idle,
}
use lastpass_ssh_agent.Prelude.{
  inl, ltb, some-eq, Bool-cases, inr, none, true, ℕ, ◌≤◌, ◌≡◌, Bool, false, Option, some, List, [],
  ◌∷◌, arith, length, is_empty, Bytes, Text, Result, ok, err,
}

pub data Event : Type 0 where
  asks :
      (ask : Bool) (now : ℕ) (stored : Result Text (Option Bytes)) (answer : Result Text Bytes)
      → Event
  touches : (now : ℕ) → Event
  rejects forgets : Event
  idles : (now : ℕ) → Event

-- Where a password came from, said without the code's flag.
abbrev pub is_from_store : Source → Bool
is_from_store from_store = true
is_from_store from_prompt = false

abbrev pub of_store : Option HeldPassword → Bool
of_store none = false
of_store (some h) = is_from_store h.source

module _ (source : MasterPassword) (idle : Option ℕ) where
  unfoldable pub step : Unlock → Event → Unlock
  unfolding password touch rejected forget expire_if_idle
  step u (asks ask now stored answer) = (password source ask now stored answer u).1
  step u (touches now) = touch now u
  step u rejects = rejected u
  step u forgets = forget u
  step u (idles now) = expire_if_idle idle now u

  pub run : Unlock → List Event → Unlock
  unfolding step
  run u [] = u
  run u (e ∷ es) = run (step u e) es

  -- Whether a password of the store has been rejected, once the event has happened.
  abbrev pub noticed : Bool → Unlock → Event → Bool
  noticed before u rejects = of_store u.held || before
  noticed before u (asks ask now stored answer) = before
  noticed before u (touches now) = before
  noticed before u forgets = before
  noticed before u (idles now) = before

  -- The same of a whole run, told from its events and what was held at each of them.
  abbrev pub store_refused : Bool → Unlock → List Event → Bool
  store_refused before u [] = before
  store_refused before u (e ∷ es) = store_refused (noticed before u e) (step u e) es

  -- What is held is an answer: not empty where it was typed, no longer than a passphrase where it was
  -- stored, and from the store only under Touch ID and while the store has not been rejected.
  pub record IsAnswer (rejected_before : Bool) (h : HeldPassword) : Type 0 where
    pub typed_answer : h.source ≡ from_prompt → is_empty h.secret ≡ false
    pub short : h.source ≡ from_store → length h.secret ≤ 1024
    pub allowed : h.source ≡ from_store → (source ≡ touch_id) × (rejected_before ≡ false)

  -- What is held, in a run in which a password of the store has been rejected or not.
  abbrev IsHeld : Bool → Unlock → Type 0
  IsHeld rejected_before u = (h : HeldPassword) → u.held ≡ some h → IsAnswer rejected_before h

  abbrev pub IsSound : Bool → Unlock → Type 0
  IsSound rejected_before u = (u.store_rejected ≡ rejected_before) × IsHeld rejected_before u

  from_typed-eq-ok :
      (answer : Result Text Bytes) (secret : Bytes) (from : Source)
      → from_typed answer ≡ ok (secret, from)
      → (from ≡ from_prompt) × (is_empty secret ≡ false)
  unfolding from_typed
  from_typed-eq-ok (err e) secret from h = cc
  from_typed-eq-ok (ok []) secret from h = cc
  from_typed-eq-ok (ok (b ∷ t)) secret from h = (ground arith, ground arith)

  typed-IsAnswer :
      (skip : Bool) (answer : Result Text Bytes) (secret : Bytes) (from : Source) (now : ℕ)
      → from_typed answer ≡ ok (secret, from)
      → IsAnswer skip (record { secret = secret; source = from; last_used = now })
  typed-IsAnswer skip answer secret from now h =
      let (p, n) = from_typed-eq-ok answer secret from h in
      record { typed_answer = λ e. n; short = λ e. cc; allowed = λ e. cc }

  abbrev Answers : Bool → Result PasswordError (Bytes × Source) → Type 0
  Answers skip r =
      (secret : Bytes) (from : Source) (now : ℕ)
      → r ≡ ok (secret, from)
      → IsAnswer skip (record { secret = secret; source = from; last_used = now })

  from_stored-IsAnswer :
      (stored : Result Text (Option Bytes)) (answer : Result Text Bytes)
      → source ≡ touch_id
      → Answers false (from_stored stored answer)
  unfolding from_stored
  from_stored-IsAnswer (err e) answer t secret from now h =
      typed-IsAnswer false answer secret from now h
  from_stored-IsAnswer (ok none) answer t secret from now h =
      typed-IsAnswer false answer secret from now h
  from_stored-IsAnswer (ok (some s)) answer t secret from now h =
      elim (Bool-cases (ltb max_passphrase_bytes (length s))) [
        | inl e ↦ typed-IsAnswer false answer secret from now (ground arith)
        | inr e ↦ record {
          typed_answer = λ p. ground arith;
          short = λ p. ground arith;
          allowed = λ p. (t, refl);
        }
      ]

  resolve-IsAnswer :
      (m : MasterPassword) (skip : Bool) (stored : Result Text (Option Bytes))
      (answer : Result Text Bytes)
      → source ≡ m
      → Answers skip (resolve m skip stored answer)
  unfolding resolve
  resolve-IsAnswer touch_id false stored answer m = from_stored-IsAnswer stored answer m
  resolve-IsAnswer touch_id true stored answer m = λ s f n h. typed-IsAnswer true answer s f n h
  resolve-IsAnswer typed skip stored answer m = λ s f n h. typed-IsAnswer skip answer s f n h

  supplied-IsSound :
      (b : Bool) (u : Unlock) (now : ℕ) (r : Result PasswordError (Bytes × Source))
      → IsSound b u
      → Answers b r
      → IsSound b (supplied u now r).1
  unfolding supplied
  supplied-IsSound b u now (err e) s a = s
  supplied-IsSound b u now (ok (secret, from)) (flag, s) a =
      (flag, λ h eq. subst (IsAnswer b) (some-eq eq) (a secret from now refl))

  password_when-IsSound :
      (ask : Bool) (now : ℕ) (stored : Result Text (Option Bytes)) (answer : Result Text Bytes)
      (b : Bool) (u : Unlock) (o : Option HeldPassword)
      → IsSound b u
      → IsSound b (password_when source ask now stored answer u o).1
  unfolding password_when
  password_when-IsSound ask now stored answer b u (some c) s = s
  password_when-IsSound false now stored answer b u none s = s
  password_when-IsSound true now stored answer b u none s =
      supplied-IsSound b (record u { epoch = unlocked u.epoch }) now
        (resolve source u.store_rejected stored answer) s
        (subst (λ k. Answers k (resolve source u.store_rejected stored answer)) s.0
          (resolve-IsAnswer source u.store_rejected stored answer refl))

  touch_when-IsSound :
      (now : ℕ) (b : Bool) (u : Unlock) (o : Option HeldPassword)
      → u.held ≡ o
      → IsSound b u
      → IsSound b (touch_when now u o)
  unfolding touch_when
  touch_when-IsSound now b u none e s = s
  touch_when-IsSound now b u (some c) e (flag, s) = (
    flag,
    λ h eq.
        let a = s c e in
        subst (IsAnswer b) (some-eq eq)
          (record { typed_answer = a.typed_answer; short = a.short; allowed = a.allowed }),
  )

  rejected_when-IsSound :
      (b : Bool) (u : Unlock) (o : Option HeldPassword)
      → IsSound b u
      → IsSound (of_store o || b) (rejected_when u o)
  unfolding rejected_when is_store
  rejected_when-IsSound b u none s = s
  rejected_when-IsSound b u (some was) (flag, s) = from_where was.source
    where
      from_where :
          (from : Source)
          → IsSound (is_from_store from || b) (record {
            held = none;
            epoch = bump u.epoch;
            store_rejected = is_store from || u.store_rejected;
          })
      from_where from_store = (refl, λ h eq. cc)
      from_where from_prompt = (flag, λ h eq. cc)

  expire_if_idle-IsSound :
      (o : Option ℕ) (now : ℕ) (b : Bool) (u : Unlock)
      → IsSound b u
      → IsSound b (expire_if_idle o now u)
  unfolding expire_if_idle
  expire_if_idle-IsSound none now b u s = s
  expire_if_idle-IsSound (some limit) now b u s = go (expired limit now u.held)
    where
      go : (e : Bool) → IsSound b (if e then record u { held = none; epoch = bump u.epoch } else u)
      go true = (s.0, λ h eq. cc)
      go false = s

  step-IsSound :
      (b : Bool) (u : Unlock) (e : Event) → IsSound b u → IsSound (noticed b u e) (step u e)
  unfolding step password touch rejected forget
  step-IsSound b u (asks ask now stored answer) s =
      password_when-IsSound ask now stored answer b u u.held s
  step-IsSound b u (touches now) s = touch_when-IsSound now b u u.held refl s
  step-IsSound b u rejects s = rejected_when-IsSound b u u.held s
  step-IsSound b u forgets s = (s.0, λ h eq. cc)
  step-IsSound b u (idles now) s = expire_if_idle-IsSound idle now b u s

  -- Over any run from a state where it is so, what is held as the master password is an answer
  -- that may be used: not empty where it was typed, at most 1024 bytes where it came from the
  -- store, and from the store only if the configuration says Touch ID and no password of the store
  -- was held when one was rejected, in the run or before it. This history is told from the run's
  -- events and what was held at each of them, and the flag that the code keeps is it.
  pub run-IsSound :
      (rejected_before : Bool) (u : Unlock) (es : List Event)
      → IsSound rejected_before u
      → IsSound (store_refused rejected_before u es) (run u es)
  unfolding run
  run-IsSound b u [] s = s
  run-IsSound b u (e ∷ es) s = run-IsSound (noticed b u e) (step u e) es (step-IsSound b u e s)
