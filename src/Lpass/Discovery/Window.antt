-- ===== src/Lpass/Discovery/Window.antt =====
-- The window of src/lpass/mod.rs on the probes: what runs at once, and what is left to do.
use lastpass_ssh_agent.Prelude.{
  ℕ, zero, suc, ◌+◌, ◌≤◌, ◌≡◌, refl, ap, ◌∙◌, ◌⊎◌, inl, inr, Bool, some, List, [], ◌∷◌, ◌++◌,
  append_assoc, arith, ltb, ltb→lt, ltb→ge, Bool-cases, length, length-append, Bytes, Text, some-eq,
  Result, ok, err,
}
use lastpass_ssh_agent.Lpass.{LpassError, ItemSummary}
use lastpass_ssh_agent.Lpass.Discovery.{
  Probes, fill, spawned, max_discovery_probes, join_next, joined, taken, collected,
}

spawned-append :
    (running queued : List ItemSummary)
    → (spawned running queued).0 ++ (spawned running queued).1 ≡ running ++ queued
unfolding spawned
spawned-append running [] = refl
spawned-append running (item ∷ queued) =
    elim (Bool-cases (ltb (length running) max_discovery_probes)) [
      | inl e ↦
          rw e
            (spawned-append (running ++ item ∷ []) queued ∙ append_assoc running (item ∷ []) queued)
      | inr e ↦ rw e
    ]

-- Nothing is started or lost by filling the window.
pub fill-append : (p : Probes) → (fill p).running ++ (fill p).queued ≡ p.running ++ p.queued
unfolding fill
fill-append p = spawned-append p.running p.queued

-- At most eight run, and exactly eight while any wait.
abbrev pub IsFull : Probes → Type 0
IsFull p =
    (length p.running ≤ max_discovery_probes)
    × ((p.queued ≡ []) ⊎ (length p.running ≡ max_discovery_probes))

spawned-IsFull :
    (running queued found : List ItemSummary)
    → length running ≤ max_discovery_probes
    → IsFull (record {
      running = (spawned running queued).0;
      queued = (spawned running queued).1;
      found = found;
    })
unfolding spawned
spawned-IsFull running [] found h = (h, inl refl)
spawned-IsFull running (item ∷ queued) found h =
    elim (Bool-cases (ltb (length running) max_discovery_probes)) [
      | inl e ↦ rw e (
          spawned-IsFull (running ++ item ∷ []) queued found
            (omega (arith, length-append running (item ∷ []), ltb→lt _ _ e)))
      | inr e ↦ rw e (h, inr (omega (arith, ltb→ge _ _ e)))
    ]

pub fill-IsFull : (p : Probes) → length p.running ≤ max_discovery_probes → IsFull (fill p)
unfolding fill
fill-IsFull p h = spawned-IsFull p.running p.queued p.found h

-- Which one was taken, and out of what.
pub taken_among :
    (n : ℕ) (x : ItemSummary) (rest : List ItemSummary)
    → (before : List ItemSummary) × (after : List ItemSummary) × (x ∷ rest
        ≡ before ++ (taken n x rest).0 ∷ after)
      × ((taken n x rest).1 ≡ before ++ after)
unfolding taken
taken_among zero x rest = ([], rest, refl, refl)
taken_among (suc n) x [] = ([], [], refl, refl)
taken_among (suc n) x (y ∷ rest) =
    let (before, after, e, f) = taken_among n y rest in
    (x ∷ before, after, ap (λ l. x ∷ l) e, ap (λ l. x ∷ l) f)

module _ (show_field : Text → Result LpassError Bytes) where
  -- The states at which a probe is waited for, whichever probes end when.
  pub data Reach (items : List ItemSummary) : Probes → Type 0 where
    start : Reach items (fill (record { running = []; queued = items; found = [] }))
    next :
        (n : ℕ) {p q : Probes}
        → Reach items p
        → join_next show_field n p ≡ some (ok q)
        → Reach items (fill q)

  collected-running :
      (p : Probes) (r : Result LpassError (ItemSummary × Bool)) (q : Probes)
      → collected show_field p r ≡ ok q
      → q.running ≡ p.running
  unfolding collected
  collected-running p (err e) q h = cc
  collected-running p (ok (item, is_key)) q h = ground arith

  joined-length :
      (n : ℕ) (p q : Probes) (running : List ItemSummary)
      → joined show_field n p running ≡ some (ok q)
      → length q.running + 1 ≡ length running
  unfolding joined
  joined-length n p q [] h = cc
  joined-length n p q (item ∷ running) h =
      let (before, after, e, f) = taken_among n item running in
      let g = collected-running (record p { running = (taken n item running).1 }) _ q (some-eq h) in
      omega (
        arith,
        ap length (g ∙ f),
        ap length e,
        length-append before after,
        length-append before ((taken n item running).0 ∷ after),
      )

  join_next-length :
      (n : ℕ) (p q : Probes)
      → join_next show_field n p ≡ some (ok q)
      → length q.running + 1 ≡ length p.running
  unfolding join_next
  join_next-length n p q h = joined-length n p q p.running h

  -- In every state that the window of probes reaches from its start, at most eight probes run, and
  -- exactly eight as long as any wait.
  pub Reach-IsFull : (items : List ItemSummary) {p : Probes} → Reach items p → IsFull p
  Reach-IsFull items start = fill-IsFull _ (omega arith)
  Reach-IsFull items (next n {p} {q} r e) =
      let (few, full) = Reach-IsFull items r in
      fill-IsFull q (omega (arith, join_next-length n p q e))
