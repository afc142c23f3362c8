-- ===== src/Requester/Chain.antt =====
-- src/requester.rs: what the walk up the process tree returns.
use lastpass_ssh_agent.Text.{escape_for_display}
use lastpass_ssh_agent.Text.Safety.{IsClean, escape_for_display-IsClean, escape-nonempty}
use lastpass_ssh_agent.Text.Separated.{split, All-split}
use lastpass_ssh_agent.Requester.{
  Ancestor, Requester, max_origin_depth, display_name, strip_app, find_app, nonempty, keep_new,
  above, walk, origin_chain_from, requester_of,
}
use lastpass_ssh_agent.Prelude.{
  ℕ, zero, suc, ◌+◌, ◌-◌, ◌≤◌, ◌≡◌, refl, ◌≢◌, inl, inr, not, ◌&&◌, Option, none, some, List, [],
  ◌∷◌, ◌++◌, arith, leb, Bool-cases, Option-cases, ◌>>=◌, length, drop, last, length-append, All,
  All-append, Text, codes, bytes_eq, bytes_eq_refl, All-take, All-last, some-eq,
}

module _ (P : ℕ → Type 0) where
  strip_app-All : (part stem : Text) → All P part → strip_app part ≡ some stem → All P stem
  unfolding strip_app
  strip_app-All part stem h e =
      elim (Bool-cases
        (leb 4 (length part) && bytes_eq (drop (length part - 4) part) (codes ".app"))) [
          | inl t ↦ rw (← some-eq (rw t at e)) (All-take P (length part - 4) part h)
          | inr t ↦ cc (rw t at e)
        ]

  find_app-All :
      (parts : List Text) (stem : Text)
      → All (All P) parts
      → find_app parts ≡ some stem
      → All P stem
  unfolding find_app
  find_app-All [] stem h e = cc
  find_app-All (part ∷ parts) stem h e = elim (Option-cases (strip_app part)) [
    | inl n ↦ find_app-All parts stem h.1 (ground arith)
    | inr (s, n) ↦ strip_app-All part stem h.0 (ground arith)
  ]

  nonempty-All : (o : Option Text) (stem : Text) → (o >>= nonempty) ≡ some stem → o ≡ some stem
  unfolding nonempty
  nonempty-All none stem e = cc
  nonempty-All (some []) stem e = cc
  nonempty-All (some (c ∷ s)) stem e = e

  display_name-All : (path : Text) → All P path → All P (display_name path)
  unfolding display_name
  display_name-All path h = elim (Option-cases (find_app (split b'/' path) >>= nonempty)) [
    | inr (stem, e) ↦
        rw (e, display_name)
          (find_app-All (split b'/' path) stem (All-split P b'/' path h) (nonempty-All _ stem e))
    | inl e ↦
        rw (e, display_name)
          (elim (Option-cases (last (split b'/' path))) [
            | inl n ↦ rw n h
            | inr (part, n) ↦
                rw n (All-last (All P) (split b'/' path) part (All-split P b'/' path h) n)
          ])
  ]

-- Names and paths that a prompt may show, and paths that a separator may stand between.
pub record IsShown (a : Ancestor) : Type 0 where
  pub name : All IsClean a.name
  pub path : All IsClean a.path
  pub nonempty_path : a.path ≢ []

-- Neighbours differ.
abbrev pub Alternates : List Ancestor → Type 0
Alternates [] = Unit
Alternates (a ∷ []) = Unit
Alternates (a ∷ b ∷ xs) = (a.path ≢ b.path) × Alternates (b ∷ xs)

Alternates-snoc :
    (xs : List Ancestor) (a : Ancestor)
    → Alternates xs
    → ((b : Ancestor) → last xs ≡ some b → b.path ≢ a.path)
    → Alternates (xs ++ a ∷ [])
Alternates-snoc [] a h d = tt
Alternates-snoc (b ∷ []) a h d = (d b refl, tt)
Alternates-snoc (b ∷ c ∷ xs) a h d = (h.0, Alternates-snoc (c ∷ xs) a h.1 d)

pub record IsChain (n : ℕ) (xs : List Ancestor) : Type 0 where
  pub short : length xs ≤ n
  pub shown : All IsShown xs
  pub alternates : Alternates xs

module _ (parent : ℕ → Option ℕ) (path : ℕ → Option Text) where
  keep_new-IsChain :
      (n : ℕ) (xs : List Ancestor) (p : Text)
      → All IsClean p
      → p ≢ []
      → IsChain n xs
      → IsChain (suc n) (keep_new parent path xs p)
  unfolding keep_new
  keep_new-IsChain n xs p h k c = elim (Option-cases (last xs)) [
    | inl e ↦ rw (e, keep_new) (longer (λ b e'. cc))
    | inr (a, e) ↦
        rw (e, keep_new)
          (elim (Bool-cases (not (bytes_eq a.path p))) [
            | inl t ↦ rw t (longer (λ b e' q. ground (arith, bytes_eq_refl p)))
            | inr t ↦ rw t (record {
              short = omega (arith, c.short);
              shown = c.shown;
              alternates = c.alternates;
            })
          ])
  ]
    where
      new : Ancestor
      new = record { name = display_name p; path = p }

      longer : ((b : Ancestor) → last xs ≡ some b → b.path ≢ p) → IsChain (suc n) (xs ++ new ∷ [])
      longer d = record {
        short = omega (arith, c.short, length-append xs (new ∷ []));
        shown =
            All-append IsShown xs (new ∷ []) c.shown
              (record { name = display_name-All IsClean p h; path = h; nonempty_path = k }, tt);
        alternates = Alternates-snoc xs new c.alternates d;
      }

  -- What the platform reads as an executable's path is not empty.
  module _ (readable : (pid : ℕ) (p : Text) → path pid ≡ some p → p ≢ []) where
    above-path :
        (current next : ℕ) (p : Text)
        → above parent path current ≡ some (next, p)
        → path next ≡ some p
    unfolding above
    above-path current next p e = ground arith

    walk-IsChain :
        (rounds n current : ℕ) (xs : List Ancestor)
        → IsChain n xs
        → IsChain (rounds + n) (walk parent path rounds current xs)
    unfolding walk
    walk-IsChain zero n current xs c = record {
      short = omega (arith, c.short);
      shown = c.shown;
      alternates = c.alternates;
    }
    walk-IsChain (suc rounds) n current xs c = elim (Option-cases (above parent path current)) [
      | inl e ↦
          rw (e, walk)
            (record { short = omega (arith, c.short); shown = c.shown; alternates = c.alternates })
      | inr ((next, p), e) ↦
          rw (e, walk)
            (longer (
              walk-IsChain rounds (suc n) next (keep_new parent path xs (escape_for_display p)) (
                keep_new-IsChain n xs (escape_for_display p) (escape_for_display-IsClean p)
                  (escape-nonempty p (readable next p (above-path current next p e))) c)))
    ]
      where
        longer : {ys : List Ancestor} → IsChain (rounds + suc n) ys → IsChain (suc rounds + n) ys
        longer d = record {
          short = omega (arith, d.short);
          shown = d.shown;
          alternates = d.alternates;
        }

    -- The walk names eight ancestors at most, each readable and with a path, and no two neighbours
    -- with one executable.
    pub origin_chain_from-IsChain :
        (pid : ℕ) → IsChain max_origin_depth (origin_chain_from parent path pid)
    unfolding origin_chain_from
    origin_chain_from-IsChain pid =
        walk-IsChain max_origin_depth 0 pid []
          (record { short = omega arith; shown = tt; alternates = tt })

    -- A requester that is found has an escaped executable, and its origin has eight ancestors at
    -- most, each with an escaped name and an escaped path that is not empty, no two neighbours of
    -- them with one path. The lookup of an executable is taken to return no empty path.
    pub requester_of-IsShown :
        (pid : ℕ) (r : Requester)
        → requester_of parent path pid ≡ some r
        → All IsClean r.process × IsChain max_origin_depth r.origin
    unfolding requester_of
    requester_of-IsShown pid r e = elim (Option-cases (path pid)) [
      | inl n ↦ cc (rw (n, requester_of) at e)
      | inr (p, n) ↦
          rw (← some-eq (rw (n, requester_of) at e))
            (escape_for_display-IsClean p, origin_chain_from-IsChain pid)
    ]
