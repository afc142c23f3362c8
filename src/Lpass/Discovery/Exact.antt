-- ===== src/Lpass/Discovery/Exact.antt =====
-- What the discovery of src/lpass/mod.rs comes to, in whatever order its probes end.
use lastpass_ssh_agent.Lpass.Discovery.Answers.{
  by_name, probed_cases, is_ssh_key, Answered, FailsWith, Settles, Settles-middle,
}
use mathlib.Core.Path.{subst}
use lastpass_ssh_agent.Prelude.{
  AnyOf-here, some-eq, ◌↔◌, ℕ, zero, suc, ◌≤◌, ◌<◌, ◌≡◌, refl, sym, ap, ◌∙◌, ◌⊎◌, inl, inr, Option,
  some, List, [], ◌∷◌, ◌++◌, append_assoc, append-nil, arith, if◌then◌else◌, length, retain,
  length-append, All, Bytes, Text, Result, ok, err,
}
use lastpass_ssh_agent.Lpass.{LpassError, ItemSummary}
use lastpass_ssh_agent.Lpass.Discovery.{
  candidates, discover_ssh_key_items, sorted, Probes, fill, max_discovery_probes, join_next, joined,
  taken, collected, note_type, discover_loop, continued,
}
use lastpass_ssh_agent.Lpass.Discovery.Window.{taken_among, fill-append, fill-IsFull}

module _ (show_field : Text → Result LpassError Bytes) where
  -- What the rest of a loop returns, for the items that are left to it.
  abbrev Rest : ℕ → (Probes → Option (Result LpassError (List ItemSummary))) → Type 0
  Rest rounds rest =
      (q : Probes)
      → length q.running ≤ max_discovery_probes
      → length (q.running ++ q.queued) < rounds
      → (r : Result LpassError (List ItemSummary)) × (rest q ≡ some r)
        × Settles show_field (q.running ++ q.queued) q.found r

  round-Settles :
      (rounds n : ℕ) (rest : Probes → Option (Result LpassError (List ItemSummary)))
      → Rest rounds rest
      → (p : Probes) (running : List ItemSummary) → length running ≤ max_discovery_probes
      → (p.queued ≡ []) ⊎ (length running ≡ max_discovery_probes)
      → length (running ++ p.queued) < suc rounds
      → (r : Result LpassError (List ItemSummary)) × (continued show_field rest
            (joined show_field n p running)
            p.found
          ≡ some r)
        × Settles show_field (running ++ p.queued) p.found r
  unfolding continued joined collected note_type
  round-Settles rounds n rest ih p [] w (inl e) h =
      (ok p.found, refl, (rw e tt, rw (e, append-nil)))
  round-Settles rounds n rest ih p [] w (inr e) h = absurd (omega arith)
  round-Settles rounds n rest ih p (item ∷ running) w full h =
      let (before, after, e, f) = taken_among n item running in
      let done = (taken n item running).0 in
      let others = (taken n item running).1 in
      let work : (item ∷ running) ++ p.queued ≡ before ++ done ∷ (after ++ p.queued) =
        ap (λ l. l ++ p.queued) e ∙ append_assoc before (done ∷ after) p.queued in
      let less : others ++ p.queued ≡ before ++ (after ++ p.queued) =
        ap (λ l. l ++ p.queued) f ∙ append_assoc before after p.queued in
      elim (probed_cases done (show_field done.id)) [
        | inr (x, failed, r, fault) ↦ (
          err x,
          rw failed,
          subst (FailsWith show_field x) (sym work) (AnyOf-here _ before done _ (r, fault)),
        )
        | inl (answer, fine) ↦
            let q = record p {
              running = others;
              found = if is_ssh_key show_field done then p.found ++ done ∷ [] else p.found;
            } in
            let few : length others ≤ max_discovery_probes = omega (
              arith,
              ap length e,
              ap length f,
              length-append before after,
              length-append before (done ∷ after),
            ) in
            let left : length (others ++ p.queued) < rounds = omega (
              arith,
              ap length work,
              ap length less,
              length-append before (after ++ p.queued),
              length-append before (done ∷ (after ++ p.queued)),
            ) in
            let (r, ends, s) = ih q few left in
            (
              r,
              rw answer ends,
              subst (λ l. Settles show_field l p.found r) (sym work)
                  (Settles-middle show_field before done (after ++ p.queued) p.found r fine
                    (subst (λ l. Settles show_field l q.found r) less s)),
            )
      ]

  -- Every probe ends, and what they come to does not depend on the order.
  loop-Settles :
      (next : ℕ → ℕ) (rounds : ℕ) (p : Probes)
      → length p.running ≤ max_discovery_probes
      → length (p.running ++ p.queued) < rounds
      → (r : Result LpassError (List ItemSummary)) × (discover_loop show_field rounds next p
          ≡ some r)
        × Settles show_field (p.running ++ p.queued) p.found r
  unfolding discover_loop join_next
  loop-Settles next zero p w h = absurd (omega arith)
  loop-Settles next (suc rounds) p w h =
      let (few, full) = fill-IsFull p w in
      let (r, e, s) =
        round-Settles rounds (next rounds) (discover_loop show_field rounds next)
          (λ q w' h'. loop-Settles next rounds q w' h') (fill p) (fill p).running few full
          (rw (fill-append p) h) in
      (r, e, subst (λ l. Settles show_field l p.found r) (fill-append p) s)

module _ (lowercase : Text → Text) (next : ℕ → ℕ) (show_field : Text → Result LpassError Bytes)
    (name_filter : Option Text) (items : List ItemSummary) where
  abbrev wanted : List ItemSummary
  wanted = candidates lowercase name_filter items

  loop_settled :
      (r : Result LpassError (List ItemSummary)) × (discover_loop show_field
          (suc (length wanted))
          next
          (record { running = []; queued = wanted; found = [] })
        ≡ some r)
      × Settles show_field wanted [] r
  loop_settled =
      loop-Settles show_field next (suc (length wanted))
        (record { running = []; queued = wanted; found = [] }) (omega arith) (omega arith)

  -- What discovery returns.
  Returned : Result LpassError (List ItemSummary) → Type 0
  Returned (ok found) =
      All (Answered show_field) wanted × (found ≡ by_name (retain (is_ssh_key show_field) wanted))
  Returned (err e) = FailsWith show_field e wanted

  sorted-Returned :
      (r : Result LpassError (List ItemSummary))
      → Settles show_field wanted [] r
      → Returned (sorted r)
  unfolding sorted Returned
  sorted-Returned (ok out) s = s
  sorted-Returned (err e) s = s

  discovered :
      (r : Result LpassError (List ItemSummary)) × (discover_ssh_key_items lowercase next
          (ok items)
          show_field
          name_filter
        ≡ some r)
      × Returned r
  unfolding discover_ssh_key_items
  discovered = let (r, e, s) = loop_settled in (sorted r, rw e, sorted-Returned r s)

  found_from :
      (r : Result LpassError (List ItemSummary)) (found : List ItemSummary)
      → Returned r
      → (r ≡ ok found) ↔ (
          All (Answered show_field) wanted
          × (found ≡ by_name (retain (is_ssh_key show_field) wanted)))
  unfolding Returned
  found_from (ok out) found (a, s) =
      (λ h. let e : out ≡ found = ground arith in (a, rw (← e) s), λ h. ap ok (s ∙ sym h.1))
  found_from (err e) found f = (λ h. cc, λ h. absurd (unanswered wanted f h.0))
    where
      unanswered :
          (l : List ItemSummary) → FailsWith show_field e l → All (Answered show_field) l → ⊥
      unanswered [] f a = f
      unanswered (x ∷ xs) (inl g) a = g.1 a.0
      unanswered (x ∷ xs) (inr g) a = unanswered xs g a.1

  -- Where the vault can be listed, discovery finds exactly the candidates that are SSH keys,
  -- sorted by name and by id among items of one name, whatever the order in which the probes end;
  -- and it returns a list exactly if every candidate has an answer, a missing field or item being
  -- one.
  pub discover_found :
      (found : List ItemSummary)
      → (discover_ssh_key_items lowercase next (ok items) show_field name_filter ≡ some (ok found))
        ↔ (All (Answered show_field) (candidates lowercase name_filter items)
            × (found
                ≡ by_name
                    (retain (is_ssh_key show_field) (candidates lowercase name_filter items))))
  discover_found found =
      let (r, e, s) = discovered in
      let both = found_from r found s in
      (λ h. both.0 (some-eq (sym e ∙ h)), λ h. e ∙ ap some (both.1 h))

  failed_from :
      (r : Result LpassError (List ItemSummary))
      → Returned r
      → ¬ All (Answered show_field) wanted
      → (e : LpassError) × (r ≡ err e) × FailsWith show_field e wanted
  unfolding Returned
  failed_from (ok out) (a, s) h = absurd (h a)
  failed_from (err e) f h = (e, refl, f)

  -- Where the vault can be listed and some candidate has no answer, discovery fails with the error
  -- that one such candidate got, in whatever order the probes end: the set is never cut short.
  pub discover_fails :
      ¬ All (Answered show_field) (candidates lowercase name_filter items)
      → (e : LpassError) × (discover_ssh_key_items lowercase next (ok items) show_field name_filter
          ≡ some (err e))
        × FailsWith show_field e (candidates lowercase name_filter items)
  discover_fails h =
      let (r, e, s) = discovered in let (x, f, g) = failed_from r s h in (x, e ∙ ap some f, g)

-- Discovery ends with a result, whatever the vault returns and in whatever order the probes end:
-- there are rounds enough for all candidates.
pub discover_ends :
    (lowercase : Text → Text) (next : ℕ → ℕ) (listed : Result LpassError (List ItemSummary))
    (show_field : Text → Result LpassError Bytes) (name_filter : Option Text)
    → (r : Result LpassError (List ItemSummary)) × (discover_ssh_key_items lowercase next listed
          show_field name_filter
        ≡ some r)
unfolding discover_ssh_key_items
discover_ends lowercase next (err e) show_field name_filter = (err e, refl)
discover_ends lowercase next (ok items) show_field name_filter =
    let (r, e, s) = discovered lowercase next show_field name_filter items in (r, e)
