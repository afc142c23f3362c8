-- ===== src/Knownhosts/Fields.antt =====
-- What a line of a file means to src/knownhosts.rs, said of its fields.
use lastpass_ssh_agent.Prelude.{
  ℕ, ◌≡◌, refl, inl, inr, true, false, Option, none, some, List, [], ◌∷◌, arith, if◌then◌else◌,
  Bool-cases, Text, codes, bytes_eq, ◌>>=◌,
}
use lastpass_ssh_agent.Ssh.{SshLibrary}
use lastpass_ssh_agent.Text.Search.{split_whitespace, starts_with}
use lastpass_ssh_agent.Text.Search.Fields.{trim-head, split_whitespace-trim, split_whitespace-head}
use lastpass_ssh_agent.Knownhosts.{
  Line, named_line, revoked_line, hashed_line, parse_line, marked, entry, next_field, key_of,
}

module _ (ssh : SshLibrary) where
  -- The key that two fields of a line spell.
  pub spelled : (algorithm key : Text) → Option Text
  unfolding key_of
  spelled = key_of ssh

  pub contribution : (Text → Line) → List Text → Option Line
  contribution make (algorithm ∷ key ∷ rest) =
      spelled algorithm key >>= λ fingerprint. some (make fingerprint)
  contribution make _ = none

  pub revocation : List Text → Option Line
  unfolding contribution
  revocation [] = none
  revocation (hosts ∷ fields) = contribution revoked_line fields

  -- A comment, a revocation, another marker, a hashed host or a named one.
  unfoldable pub reading : List Text → Option Line
  unfolding contribution revocation
  reading [] = none
  reading (first ∷ fields) =
      if starts_with (codes "#") first
      then none
      else if bytes_eq first (codes "@revoked")
      then revocation fields
      else if starts_with (codes "@") first
      then none
      else if starts_with (codes "|1|") first
      then some hashed_line
      else contribution (λ fingerprint. named_line fingerprint first) fields

  entry_revoked :
      (hosts : Text) (fields : List Text)
      → entry ssh true hosts fields ≡ contribution revoked_line fields
  unfolding entry contribution spelled next_field
  entry_revoked hosts [] = refl
  entry_revoked hosts (a ∷ []) = refl
  entry_revoked hosts (a ∷ k ∷ rest) = refl

  entry_named :
      (hosts : Text) (fields : List Text)
      → entry ssh false hosts fields ≡ (
          if starts_with (codes "|1|") hosts
          then some hashed_line
          else contribution (λ fingerprint. named_line fingerprint hosts) fields)
  unfolding entry contribution spelled next_field
  entry_named hosts [] = refl
  entry_named hosts (a ∷ []) = refl
  entry_named hosts (a ∷ k ∷ rest) = refl

  marked-reading :
      (first : Text) (fields : List Text)
      → starts_with (codes "#") first ≡ false
      → marked ssh first fields ≡ reading (first ∷ fields)
  unfolding marked reading next_field
  marked-reading first [] h = rw (h, entry_named first [])
  marked-reading first (f ∷ fields) h =
      rw (h, entry_named first (f ∷ fields), entry_revoked f fields)

  starts_with-head :
      (c d : ℕ) (s t : Text) → starts_with (d ∷ []) (c ∷ s) ≡ starts_with (d ∷ []) (c ∷ t)
  unfolding starts_with
  starts_with-head c d s t = ground arith

  nothing : none ≡ reading (split_whitespace [])
  unfolding reading split_whitespace
  nothing = refl

  comment :
      (first : Text) (fields : List Text)
      → starts_with (codes "#") first ≡ true
      → none ≡ reading (first ∷ fields)
  unfolding reading
  comment first fields h = rw h

  of_trimmed :
      (c : ℕ) (t g : Text) (fs : List Text)
      → (if starts_with (codes "#") (c ∷ t) then none else marked ssh (c ∷ g) fs)
        ≡ reading ((c ∷ g) ∷ fs)
  of_trimmed c t g fs = elim (Bool-cases (starts_with (codes "#") (c ∷ g))) [
    | inl e ↦ rw (starts_with-head c b'#' t g, e) (comment (c ∷ g) fs e)
    | inr e ↦ rw (starts_with-head c b'#' t g, e) (marked-reading (c ∷ g) fs e)
  ]

  -- What a line of known_hosts means is settled by its fields alone, the words between its white
  -- space: nothing for an empty line, a comment, a marker other than `@revoked` and a key that is
  -- not one, a revocation of the key behind `@revoked` and a host field, a line of a hashed host,
  -- or the name of the key.
  pub parse_line-reading : (text : Text) → parse_line ssh text ≡ reading (split_whitespace text)
  unfolding parse_line
  parse_line-reading text = elim (trim-head text) [
    | inl e ↦ rw (← split_whitespace-trim text, e) nothing
    | inr (c, t, e, w) ↦
        let (g, fs, f) = split_whitespace-head c t w in
        rw (← split_whitespace-trim text, e, f) (of_trimmed c t g fs)
  ]
