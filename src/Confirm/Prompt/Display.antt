-- ===== src/Confirm/Prompt/Display.antt =====
-- src/confirm/mod.rs, `describe_request`: the characters and the lines of the prompt.
use lastpass_ssh_agent.Text.{
  escape_for_display, display_bounded, decimal, digits-IsDigit, is_control, is_invisible,
  invisible_ranges,
}
use lastpass_ssh_agent.Text.Safety.{IsClean, escape_for_display-IsClean, digits-IsClean}
use lastpass_ssh_agent.Text.Bounded.{display_bounded-IsClean}
use lastpass_ssh_agent.Text.Separated.{join, All-join}
use lastpass_ssh_agent.Requester.{Requester, Ancestor}
use lastpass_ssh_agent.Requester.Chain.{IsShown}
use lastpass_ssh_agent.Confirm.{PeerInfo, SessionBinding, ConfirmContext, newline}
use lastpass_ssh_agent.Confirm.Prompt.{
  arrow, process_ids, started_from, unknown_process, requested_by, shown_hop, warning,
  session_lines, describe_request,
}
use lastpass_ssh_agent.Confirm.Question.{IsPresentable}
use lastpass_ssh_agent.Prelude.{
  ℕ, suc, ◌+◌, ◌≡◌, refl, ap, ◌⊎◌, inl, inr, Bool, true, false, not, ◌&&◌, Option, none, some, List,
  [], ◌∷◌, ◌++◌, map, arith, ◌==◌, if◌then◌else◌, ==_iff, Bool-cases, Option-cases, drop, any,
  is_empty, All, All-append, Text, codes,
}

-- Clean, decided.
clean : ℕ → Bool
clean c = not (is_control c) && not (is_invisible c)

all_clean : Text → Bool
all_clean [] = true
all_clean (c ∷ s) = clean c && all_clean s

literal-IsClean : (s : Text) → all_clean s ≡ true → All IsClean s
unfolding all_clean clean
literal-IsClean [] h = tt
literal-IsClean (c ∷ s) h = (ground arith, literal-IsClean s (ground arith))

-- How many lines a text has more than one.
pub newlines : Text → ℕ
newlines [] = 0
newlines (c ∷ s) = let rest = newlines s in if c == newline then suc rest else rest

newlines-append : (s t : Text) → newlines (s ++ t) ≡ newlines s + newlines t
unfolding newlines
newlines-append [] t = omega arith
newlines-append (c ∷ s) t = ground (arith, newlines-append s t)

newline-control : is_control newline ≡ true
unfolding is_control
newline-control = refl

newlines-clean : (s : Text) → All IsClean s → newlines s ≡ 0
unfolding newlines
newlines-clean [] h = refl
newlines-clean (c ∷ s) h = elim (Bool-cases (c == newline)) [
  | inl e ↦ cc (newline-control, h.0.0, (==_iff c newline).0 e)
  | inr e ↦ rw e (newlines-clean s h.1)
]

-- A text whose characters are clean or new lines, with as many of these.
abbrev pub Safe : ℕ → Type 0
Safe c = (c ≡ newline) ⊎ IsClean c

pub record Prints (n : ℕ) (s : Text) : Type 0 where
  pub safe : All Safe s
  pub count : newlines s ≡ n

clean-Safe : (s : Text) → All IsClean s → All Safe s
clean-Safe [] h = tt
clean-Safe (c ∷ s) h = (inr h.0, clean-Safe s h.1)

clean_only : {s : Text} → All IsClean s → Prints 0 s
clean_only {s} h = record { safe = clean-Safe s h; count = newlines-clean s h }

one_more_line : {n : ℕ} {s : Text} → Prints n s → Prints (suc n) (newline ∷ s)
unfolding newlines
one_more_line p = record { safe = (inl refl, p.safe); count = ap suc p.count }

in_sequence : {m n : ℕ} {s t : Text} → Prints m s → Prints n t → Prints (m + n) (s ++ t)
in_sequence {s} {t} p q = record {
  safe = All-append Safe s t p.safe q.safe;
  count = omega (arith, newlines-append s t, p.count, q.count);
}

behind_clean : {n : ℕ} (s : Text) {t : Text} → All IsClean s → Prints n t → Prints n (s ++ t)
behind_clean {n} s {t} h q = record {
  safe = All-append Safe s t (clean-Safe s h) q.safe;
  count = omega (arith, newlines-append s t, newlines-clean s h, q.count);
}

decimal-IsClean : (n : ℕ) → All IsClean (decimal n)
unfolding decimal
decimal-IsClean n = digits-IsClean _ (digits-IsDigit 10 1 n (omega arith) (omega arith))

words_are_clean :
    (all_clean (codes " (pid ") ≡ true)
    × (all_clean (codes ", uid ") ≡ true)
    × (all_clean (codes ")") ≡ true)
    × (all_clean (codes "Started from: ") ≡ true)
    × (all_clean arrow ≡ true)
    × (all_clean (codes "uid ") ≡ true)
    × (all_clean (codes "unknown process (pid ") ≡ true)
    × (all_clean (codes "unknown") ≡ true)
    × (all_clean (codes " (forwarding the agent onward)") ≡ true)
    × (all_clean (codes "SSH session: ") ≡ true)
    × (all_clean (codes "SSH signature request") ≡ true)
    × (all_clean (codes "Key: ") ≡ true)
    × (all_clean (codes "Fingerprint: ") ≡ true)
    × (all_clean (codes "LastPass item: ") ≡ true)
    × (all_clean (codes "Requested by: ") ≡ true)
    × (all_clean (drop 2 warning) ≡ true)
unfolding all_clean clean is_control is_invisible invisible_ranges
words_are_clean =
    (refl, refl, refl, refl, refl, refl, refl, refl, refl, refl, refl, refl, refl, refl, refl, refl)

abbrev said : (s : Text) → all_clean s ≡ true → All IsClean s
said = literal-IsClean

process_ids-IsClean : (peer : PeerInfo) → All IsClean (process_ids peer)
unfolding process_ids
process_ids-IsClean peer = All-append IsClean (codes " (pid ") _ (said _ words_are_clean.0) (
    All-append IsClean _ _ (decimal-IsClean _) (
      All-append IsClean (codes ", uid ") _ (said _ words_are_clean.1)
        (All-append IsClean _ _ (decimal-IsClean peer.uid) (said _ words_are_clean.2))))

unknown_process-IsClean : (peer : PeerInfo) → All IsClean (unknown_process peer)
unfolding unknown_process
unknown_process-IsClean peer = elim (Option-cases peer.pid) [
  | inl e ↦
      rw (e, unknown_process)
        (All-append IsClean (codes "uid ") _ (said _ words_are_clean.5) (decimal-IsClean peer.uid))
  | inr (pid, e) ↦
      rw (e, unknown_process)
        (All-append IsClean (codes "unknown process (pid ") _ (said _ words_are_clean.6) (
          All-append IsClean _ _ (decimal-IsClean pid) (
            All-append IsClean (codes ", uid ") _ (said _ words_are_clean.1)
              (All-append IsClean _ _ (decimal-IsClean peer.uid) (said _ words_are_clean.2)))))
]

names-IsClean : (xs : List Ancestor) → All IsShown xs → All (All IsClean) (map (λ a. a.name) xs)
names-IsClean [] h = tt
names-IsClean (a ∷ xs) h = (h.0.name, names-IsClean xs h.1)

hops-IsClean : (bs : List SessionBinding) → All (All IsClean) (map shown_hop bs)
unfolding shown_hop
hops-IsClean [] = tt
hops-IsClean (b ∷ bs) =
    (All-append IsClean _ _ (display_bounded-IsClean _) (onward b.is_forwarding), hops-IsClean bs)
  where
    onward : (f : Bool) → All IsClean (if f then codes " (forwarding the agent onward)" else [])
    onward true = said _ words_are_clean.8
    onward false = tt

-- The lines that the requester and the hosts add to the prompt.
pub origin_lines : Option PeerInfo → Option Requester → ℕ
origin_lines (some peer) (some r) = if is_empty r.origin then 0 else 1
origin_lines _ _ = 0

pub host_lines : List SessionBinding → ℕ
host_lines [] = 0
host_lines (b ∷ bs) = if any (λ b. b.is_forwarding) (b ∷ bs) then 3 else 1

started_from-Prints :
    (xs : List Ancestor) → All IsShown xs → Prints (if is_empty xs then 0 else 1) (started_from xs)
unfolding started_from
started_from-Prints [] h = clean_only tt
started_from-Prints (a ∷ xs) h = one_more_line (
    behind_clean (codes "Started from: ") (said _ words_are_clean.3)
      (clean_only (All-join IsClean arrow _ (said _ words_are_clean.4) (names-IsClean (a ∷ xs) h))))

requested_by-Prints :
    (peer : Option PeerInfo) (r : Option Requester)
    → ((q : Requester) → r ≡ some q → All IsClean q.process × All IsShown q.origin)
    → Prints (origin_lines peer r) (requested_by peer r)
unfolding requested_by origin_lines
requested_by-Prints none none h = clean_only (said (codes "unknown") words_are_clean.7)
requested_by-Prints none (some r) h = clean_only (said (codes "unknown") words_are_clean.7)
requested_by-Prints (some peer) none h = clean_only (unknown_process-IsClean peer)
requested_by-Prints (some peer) (some r) h = behind_clean r.process (h r refl).0 (
    behind_clean (process_ids peer) (process_ids-IsClean peer)
      (started_from-Prints r.origin (h r refl).1))

session_lines-Prints : (bs : List SessionBinding) → Prints (host_lines bs) (session_lines bs)
unfolding session_lines host_lines
session_lines-Prints [] = clean_only tt
session_lines-Prints (b ∷ bs) = warned (any (λ b. b.is_forwarding) (b ∷ bs))
  where
    chain : Prints 1 (newline ∷ codes "SSH session: " ++ join arrow (map shown_hop (b ∷ bs)))
    chain = one_more_line (
        behind_clean (codes "SSH session: ") (said _ words_are_clean.9) (
          clean_only (All-join IsClean arrow _ (said _ words_are_clean.4) (hops-IsClean (b ∷ bs)))))

    warned :
        (w : Bool)
        → Prints (if w then 3 else 1) (
            (if w then warning else [])
            ++ (newline ∷ codes "SSH session: " ++ join arrow (map shown_hop (b ∷ bs))))
    warned true =
        one_more_line
          (one_more_line (behind_clean (drop 2 warning) (said _ words_are_clean.15) chain))
    warned false = chain

-- Whatever the vault and the hosts call themselves, the prompt consists of visible characters and
-- of the line breaks that its own layout makes: five, one more where the requester was started
-- from something, and one or, with the warning, three where the connection is bound. The
-- requester's texts are taken to be escaped, and its ancestors' paths not to be empty, as its
-- lookup leaves them.
pub describe_request-Prints :
    (ctx : ConfirmContext)
    → IsPresentable ctx
    → Prints
        (suc
          (suc (suc (suc (suc (origin_lines ctx.peer ctx.requester + host_lines ctx.bindings))))))
        (describe_request ctx)
unfolding describe_request
describe_request-Prints ctx h =
    behind_clean (codes "SSH signature request") (said _ words_are_clean.10) (
      one_more_line (
        one_more_line (
          behind_clean (codes "Key: ") (said _ words_are_clean.11) (
            behind_clean (display_bounded ctx.key_name) (display_bounded-IsClean _) (
              one_more_line (
                behind_clean (codes "Fingerprint: ") (said _ words_are_clean.12) (
                  behind_clean (escape_for_display ctx.fingerprint) (escape_for_display-IsClean _) (
                    one_more_line (
                      behind_clean (codes "LastPass item: ") (said _ words_are_clean.13) (
                        behind_clean (escape_for_display ctx.item_id) (escape_for_display-IsClean _)
                          (one_more_line (
                            behind_clean (codes "Requested by: ") (said _ words_are_clean.14) (
                              in_sequence (requested_by-Prints ctx.peer ctx.requester h)
                                (session_lines-Prints ctx.bindings))))))))))))))
