-- ===== src/Agent/Sign/Approval.antt =====
-- The user's answer to a request: given for it, or remembered for the same question.
use lastpass_ssh_agent.Ssh.{SshLibrary}
use lastpass_ssh_agent.Approvals.{Answer, remembered_answer, given, remembered_in}
use lastpass_ssh_agent.Confirm.{ConfirmContext, Decision, approve, deny, approval_question}
use lastpass_ssh_agent.Keystore.{KeyEntry}
use lastpass_ssh_agent.Interaction.{Progress, enter, >>=-eq-ok, done_eq}
use lastpass_ssh_agent.Agent.Sign.{
  AgentError, AgentCalls, Connection, with_names, named_bindings, context, recall, decided,
  confirmed, asked_again, approval_for,
}
use mathlib.Core.Path.{subst}
use lastpass_ssh_agent.Prelude.{
  ap, ℕ, ◌≡◌, refl, sym, ◌⊎◌, inl, inr, Option, none, some, List, map, arith, Text, ok,
}

module _ (ssh : SshLibrary) {W : Type 0} (calls : AgentCalls ssh W) (agent : Connection) where
  -- What the lookup of the hosts' names returns, and what the request is left with.
  abbrev pub names_at : Progress W → List (Option Text)
  names_at s = (calls.names_for (map (λ b. b.host_fingerprint) agent.bindings) s.world).0

  abbrev pub looked_up : Progress W → Progress W
  looked_up s = record s {
    world = (calls.names_for (map (λ b. b.host_fingerprint) agent.bindings) s.world).1;
  }

  -- The two moments at which a context is taken: after that lookup, and once the gate is held.
  abbrev pub AtMoment : Progress W → W → Type 0
  AtMoment s w =
      (w ≡ (looked_up s).world)
      ⊎ (w ≡ (enter {E = AgentError} calls.unlocker.locked (looked_up s)).1.world)

  -- In this world the user approves what the prompt says of the context, or has approved the same
  -- question since the vault last locked.
  abbrev pub Approves : W → ConfirmContext → Answer → Type 0
  Approves w ctx answer =
      ((n : ℕ) × ((calls.confirm ctx w).0 ≡ approve) × (answer ≡ given (approval_question ctx) n))
      ⊎ ((n : ℕ) × (question : Text) × (approval_question ctx ≡ some question)
          × (remembered_in (calls.approvals w) question ≡ some n)
          × (answer ≡ remembered_answer n))

  -- The context is of this key, this peer and these bindings, under the names that were looked up.
  abbrev pub IsApproved : KeyEntry ssh → Progress W → Answer → Type 0
  IsApproved entry s answer =
      (w : W) × AtMoment s w
      × Approves w (context ssh calls agent entry (with_names agent.bindings (names_at s)) w) answer

  recall-eq-some :
      (ctx : ConfirmContext) (q : Option Text) (w : W) {n : ℕ}
      → approval_question ctx ≡ q
      → recall ssh calls agent q w ≡ some n
      → Approves w ctx (remembered_answer n)
  unfolding recall
  recall-eq-some ctx none w e h = cc
  recall-eq-some ctx (some question) w e h = inr (_, question, e, h, refl)

  decided-eq-ok :
      (d : Decision) (ctx : ConfirmContext) (w : W) (s : Progress W) {answer : Answer}
      {t : Progress W}
      → (calls.confirm ctx w).0 ≡ d
      → decided ssh calls agent d ctx s ≡ (ok answer, t)
      → Approves w ctx answer
  unfolding decided
  decided-eq-ok approve ctx w s e h = inl (_, e, sym (done_eq h))
  decided-eq-ok deny ctx w s e h = ground arith

  confirmed-eq-ok :
      (o : Option ℕ) (ctx : ConfirmContext) (s : Progress W) {answer : Answer} {t : Progress W}
      → ((n : ℕ) → o ≡ some n → Approves s.world ctx (remembered_answer n))
      → confirmed ssh calls agent o ctx s ≡ (ok answer, t)
      → Approves s.world ctx answer
  unfolding confirmed
  confirmed-eq-ok (some n) ctx s r h = subst (Approves s.world ctx) (done_eq h) (r n refl)
  confirmed-eq-ok none ctx s r h = decided-eq-ok _ ctx s.world _ refl h

  asked_again-eq-ok :
      (o : Option ℕ) (entry : KeyEntry ssh) (s : Progress W) {answer : Answer} {t : Progress W}
      → ((n : ℕ) → o ≡ some n → IsApproved entry s (remembered_answer n))
      → asked_again ssh calls agent o entry (with_names agent.bindings (names_at s)) (looked_up s)
        ≡ (ok answer, t)
      → IsApproved entry s answer
  unfolding asked_again
  asked_again-eq-ok (some n) entry s r h = subst (IsApproved entry s) (done_eq h) (r n refl)
  asked_again-eq-ok none entry s r h =
      let (_, u, e, h₁) =
        >>=-eq-ok (enter {E = AgentError} calls.unlocker.locked) _ (looked_up s) h in
      let ctx = context ssh calls agent entry (with_names agent.bindings (names_at s)) u.world in
      (
        u.world,
        inr (ap (λ x. x.1.world) (sym e)),
        confirmed-eq-ok (recall ssh calls agent (approval_question ctx) u.world) ctx u
            (λ n. recall-eq-some ctx (approval_question ctx) u.world refl) h₁,
      )

  pub approval_for-eq-ok :
      (entry : KeyEntry ssh) (s : Progress W) {answer : Answer} {t : Progress W}
      → approval_for ssh calls agent entry s ≡ (ok answer, t)
      → IsApproved entry s answer
  unfolding approval_for named_bindings
  approval_for-eq-ok entry s h =
      let w = (looked_up s).world in
      let ctx = context ssh calls agent entry (with_names agent.bindings (names_at s)) w in
      asked_again-eq-ok (recall ssh calls agent (approval_question ctx) w) entry s
        (λ n e. (w, inl refl, recall-eq-some ctx (approval_question ctx) w refl e)) h
