-- ===== src/Lpass/Cli/Output/Bounded.antt =====
-- What `read_output` of src/lpass/cli.rs takes from a pipe.
use lastpass_ssh_agent.Prelude.{
  ℕ, ◌+◌, ◌≤◌, ◌≡◌, refl, ap, ◌∙◌, ◌↔◌, inl, inr, false, some, [], ◌∷◌, ◌++◌, append_assoc,
  append-nil, arith, ltb, ltb→ge, Bool-cases, length, length-append, Bytes, >>=-eq-some, some-eq,
  ok, err,
}
use lastpass_ssh_agent.Lpass.Cli.Output.{Reads, delivered, read_output, read_onto}

read_onto-eq-ok :
    (max_bytes : ℕ) (acc out : Bytes) (reads : Reads)
    → read_onto max_bytes acc reads ≡ ok out
    → length acc ≤ max_bytes
    → (rest : Bytes) × (delivered reads ≡ some rest)
      × (out ≡ acc ++ rest)
      × (length out ≤ max_bytes)
unfolding read_onto delivered
read_onto-eq-ok max_bytes acc out [] h b =
    let e : acc ≡ out = ground arith in ([], refl, rw (append-nil, e), rw (← e) b)
read_onto-eq-ok max_bytes acc out (err e ∷ reads) h b = ground arith
read_onto-eq-ok max_bytes acc out (ok [] ∷ reads) h b =
    let e : acc ≡ out = ground arith in ([], refl, rw (append-nil, e), rw (← e) b)
read_onto-eq-ok max_bytes acc out (ok (x ∷ chunk) ∷ reads) h b =
    elim (Bool-cases (ltb max_bytes (length acc + length (x ∷ chunk)))) [
      | inl over ↦ absurd (ground arith)
      | inr fits ↦
          let (rest, d, e, l) =
            read_onto-eq-ok max_bytes (acc ++ x ∷ chunk) out reads (rw fits at h)
              (omega (arith, length-append acc (x ∷ chunk), ltb→ge _ _ fits)) in
          ((x ∷ chunk) ++ rest, rw d, e ∙ append_assoc acc (x ∷ chunk) rest, l)
    ]

read_onto-delivered :
    (max_bytes : ℕ) (acc rest : Bytes) (reads : Reads)
    → delivered reads ≡ some rest
    → length acc + length rest ≤ max_bytes
    → read_onto max_bytes acc reads ≡ ok (acc ++ rest)
unfolding read_onto delivered
read_onto-delivered max_bytes acc rest [] h b =
    let e : [] ≡ rest = some-eq h in rw (← e, append-nil)
read_onto-delivered max_bytes acc rest (err e ∷ reads) h b = cc
read_onto-delivered max_bytes acc rest (ok [] ∷ reads) h b =
    let e : [] ≡ rest = some-eq h in rw (← e, append-nil)
read_onto-delivered max_bytes acc rest (ok (x ∷ chunk) ∷ reads) h b =
    let (later, d, e) = >>=-eq-some (delivered reads) _ h in
    let e' : (x ∷ chunk) ++ later ≡ rest = some-eq e in
    let n = ap length e' in
    let fits : ltb max_bytes (length acc + length (x ∷ chunk)) ≡ false =
      ground (arith, length-append (x ∷ chunk) later) in
    let step =
      read_onto-delivered max_bytes (acc ++ x ∷ chunk) later reads d
        (omega (arith, length-append (x ∷ chunk) later, length-append acc (x ∷ chunk))) in
    rw (fits, step, ← e', append_assoc acc (x ∷ chunk) later)

-- Reading output succeeds with some bytes exactly if they are what the reads deliver before they
-- end, no read failing, and they are at most the bound.
pub read_output_iff :
    (max_bytes : ℕ) (reads : Reads) (out : Bytes)
    → (read_output max_bytes reads ≡ ok out)
      ↔ ((delivered reads ≡ some out) × (length out ≤ max_bytes))
unfolding read_output
read_output_iff max_bytes reads out = (
  λ h. let (rest, d, e, l) = read_onto-eq-ok max_bytes [] out reads h (omega arith) in (rw e d, l),
  λ h. read_onto-delivered max_bytes [] out reads h.0 (omega (arith, h.1)),
)
