-- ===== src/Interaction.antt =====
-- src/interaction.rs: the gate that one request at a time holds from its first prompt to its end, and
-- a request's own thread through `async` code: each await hands back the world as the other
-- requests, the user and the vault left it.
use lastpass_ssh_agent.Prelude.{
  map_err, false, inl, inr, Bool-cases, ◌≡◌, refl, Bool, true, arith, if◌then◌else◌, Result, ok,
  err,
}

-- A request in the middle of its work: whether it holds the gate, and the world.
pub record Progress (W : Type 0) : Type 0 where
  pub held : Bool
  pub world : W

abbrev pub Task : (W E A : Type 0) → Type 0
Task W E A = Progress W → Result E A × Progress W

module _ {W : Type 0} where
  abbrev pub pure : {E A : Type 0} → A → Task W E A
  pure a s = (ok a, s)

  abbrev pub fail : {E A : Type 0} → E → Task W E A
  fail e s = (err e, s)

  abbrev pub next :
      {E A B : Type 0} → Result E A × Progress W → (A → Task W E B) → Result E B × Progress W
  next (ok a, s) f = f a s
  next (err e, s) f = (err e, s)

  infixl 5 ◌>>=◌ ◌>>◌
  abbrev pub ◌>>=◌ : {E A B : Type 0} → Task W E A → (A → Task W E B) → Task W E B
  ◌>>=◌ m f s = next (m s) f

  abbrev pub ◌>>◌ : {E A B : Type 0} → Task W E A → Task W E B → Task W E B
  m >> n = m >>= (λ _. n)

  -- A call outside the agent.
  abbrev pub call : {E A : Type 0} → (W → A × W) → Task W E A
  call f s = let (a, w) = f s.world in (ok a, record s { world = w })

  -- What is read of the world without an await.
  abbrev pub reads : {E A : Type 0} → (W → A) → Task W E A
  reads f s = (ok (f s.world), s)

  -- `?` on a result, its error mapped.
  abbrev pub lift : {E F A : Type 0} → (F → E) → Result F A → Task W E A
  lift f (ok a) s = (ok a, s)
  lift f (err e) s = (err (f e), s)

  -- `map_err` of an awaited result, and the result itself.
  abbrev pub map_fail : {E F A : Type 0} → (F → E) → Task W F A → Task W E A
  map_fail f m s = let (r, t) = m s in (map_err f r, t)

  abbrev pub attempt : {E F A : Type 0} → Task W F A → Task W E (Result F A)
  attempt m s = let (r, t) = m s in (ok r, t)

  -- A call outside the agent that returns nothing.
  abbrev pub change : {E : Type 0} → (W → W) → Task W E (Unit {0})
  change f s = (ok tt, record s { world = f s.world })

  -- `InteractionGate::enter`: `locked` is the wait for the lock.
  unfoldable pub enter : {E : Type 0} → (locked : W → W) → Task W E (Unit {0})
  enter locked s =
      if s.held then (ok tt, s) else (ok tt, record { held = true; world = locked s.world })

  pub done_eq :
      {E A : Type 0} {a b : A} {s t : Progress W}
      → ◌≡◌ {A = Result E A × Progress W} (ok a, s) (ok b, t)
      → a ≡ b
  done_eq h = ground arith

  next-eq-ok :
      {E A B : Type 0} (r : Result E A × Progress W) (f : A → Task W E B) {b : B} {t : Progress W}
      → next r f ≡ (ok b, t)
      → (a : A) × (u : Progress W) × (r ≡ (ok a, u)) × (f a u ≡ (ok b, t))
  next-eq-ok (ok a, u) f h = (a, u, refl, h)
  next-eq-ok (err e, u) f h = ground arith

  -- What a chain of awaits that succeeded went through.
  pub >>=-eq-ok :
      {E A B : Type 0} (m : Task W E A) (f : A → Task W E B) (s : Progress W) {b : B}
      {t : Progress W}
      → (m >>= f) s ≡ (ok b, t)
      → (a : A) × (u : Progress W) × (m s ≡ (ok a, u)) × (f a u ≡ (ok b, t))
  >>=-eq-ok m f s h = next-eq-ok (m s) f h

  pub map_fail-eq-ok :
      {E F A : Type 0} (f : F → E) (r : Result F A × Progress W) {a : A} {t : Progress W}
      → ◌≡◌ {A = Result E A × Progress W} (map_err f r.0, r.1) (ok a, t)
      → r ≡ (ok a, t)
  map_fail-eq-ok f (ok x, s) h = ground arith
  map_fail-eq-ok f (err e, s) h = ground arith

  -- A property of a request's progress that a task keeps.
  abbrev pub Keeps : {E A : Type 0} → (Progress W → Type 0) → Task W E A → Type 0
  Keeps I m = (s : Progress W) → I s → I (m s).1

  pub next-Keeps :
      {E A B : Type 0} (I : Progress W → Type 0) (f : A → Task W E B) (r : Result E A × Progress W)
      → ((a : A) → Keeps I (f a))
      → I r.1
      → I (next r f).1
  next-Keeps I f (ok a, s) k h = k a s h
  next-Keeps I f (err e, s) k h = h

  pub >>=-Keeps :
      {E A B : Type 0} (I : Progress W → Type 0) (m : Task W E A) (f : A → Task W E B)
      → Keeps I m
      → ((a : A) → Keeps I (f a))
      → Keeps I (m >>= f)
  >>=-Keeps I m f hm hf s h = next-Keeps I f (m s) hf (hm s h)

  pub lift_kept :
      {E F A : Type 0} (I : Progress W → Type 0) (f : F → E) (r : Result F A)
      → Keeps I (lift {E = E} f r)
  lift_kept I f (ok a) s i = i
  lift_kept I f (err e) s i = i

  -- The rest runs only with what the result holds.
  pub lift-Keeps :
      {E F A B : Type 0} (I : Progress W → Type 0) (f : F → E) (r : Result F A) (k : A → Task W E B)
      → ((a : A) → r ≡ ok a → Keeps I (k a))
      → Keeps I (lift f r >>= k)
  lift-Keeps I f (ok a) k h s i = h a refl s i
  lift-Keeps I f (err e) k h s i = i

  pub lift-eq-ok :
      {E F A : Type 0} (f : F → E) (r : Result F A) (s : Progress W) {a : A} {t : Progress W}
      → lift f r s ≡ (ok a, t)
      → (r ≡ ok a) × (s ≡ t)
  lift-eq-ok f (ok a) s h = (ground arith, ground arith)
  lift-eq-ok f (err e) s h = ground arith

  pub if-Keeps :
      {E A : Type 0} (I : Progress W → Type 0) (b : Bool) (m n : Task W E A)
      → Keeps I m
      → Keeps I n
      → Keeps I (if b then m else n)
  if-Keeps I true m n hm hn = hm
  if-Keeps I false m n hm hn = hn

  -- From here on the gate is held.
  pub enter-Keeps :
      (E : Type 0) (I : Progress W → Type 0) (locked : W → W)
      → ((s : Progress W) → I s → I (record { held = true; world = locked s.world }))
      → (s : Progress W) → I s
      → I (enter {E = E} locked s).1 × ((enter {E = E} locked s).1.held ≡ true)
  unfolding enter
  enter-Keeps E I locked w s i = elim (Bool-cases s.held) [
    | inl h ↦ simp h (i, refl)
    | inr h ↦ simp h (w s i, refl)
  ]
