-- ===== src/Agent/Sign/Gated.antt =====
-- What `LpassAgent::sign` does to the world, and under the gate.
use lastpass_ssh_agent.Signing.Keys.{sign_with_key}
use lastpass_ssh_agent.Interaction.{◌>>◌, map_fail}
use lastpass_ssh_agent.Agent.Sign.{
  refused, fail, change, is_for, lift, unlock, unlocking, changed, empty_private_key, is_absence,
}
use lastpass_ssh_agent.Approvals.{Voided}
use lastpass_ssh_agent.Ssh.{SshLibrary}
use lastpass_ssh_agent.Lpass.{LpassError, locked}
use lastpass_ssh_agent.Approvals.{Approvals, not_needed}
use lastpass_ssh_agent.Confirm.{SessionBinding, ConfirmContext, Decision, approve, deny}
use lastpass_ssh_agent.Keystore.{KeyEntry}
use lastpass_ssh_agent.Interaction.{
  lift_kept, >>=-Keeps, Progress, pure, enter, Keeps, next-Keeps, if-Keeps, enter-Keeps,
}
use lastpass_ssh_agent.Passphrase.Verified.{unlock-Keeps, Allows}
use lastpass_ssh_agent.Agent.Sign.{
  signing, parsing, Answer, SignFailure, settled, conclude, discard_remembered, fetched_pem, found,
  same_key, serve, sign, sign_with, usable_key, wind_up, AgentError, AgentCalls, Connection,
  named_bindings, decided, confirmed, asked_again, approval_for, ask_if_locked, answer_for,
  fetch_private_key, private_key_field,
}
use lastpass_ssh_agent.Prelude.{
  false, is_empty, last, if◌then◌else◌, not, ok, Bool, ℕ, ◌≡◌, true, Option, none, some, List,
  Bytes, Text, Result, err,
}

module _ (ssh : SshLibrary) {W : Type 0} (calls : AgentCalls ssh W) (agent : Connection) where
  open ssh use {
    KeyData, PrivateKey, Signature, private_from_openssh, key_eq, public_half, key_data,
    is_encrypted,
  }

  -- What a property of the progress has to allow: at any time what reaches no user, and with the
  -- gate held a confirmation, a question to the vault that may ask for its password, and what
  -- unlocking a key allows.
  pub record Allowed (I : Progress W → Type 0) : Type 0 where
    pub named :
        (fps : List Text) (s : Progress W)
        → I s
        → I (record s { world = (calls.names_for fps s.world).1 })
    pub confirmed :
        (ctx : ConfirmContext) (s : Progress W)
        → s.held ≡ true
        → I s
        → I (record s { world = (calls.confirm ctx s.world).1 })
    pub shown :
        (item field : Text) (s : Progress W)
        → I s
        → I (record s { world = (calls.show_field item field s.world).1 })
    pub asked :
        (item field : Text) (s : Progress W)
        → s.held ≡ true
        → I s
        → I (record s { world = (calls.ask_field item field s.world).1 })
    pub removed :
        (path : Text) (s : Progress W) → I s → I (record s { world = calls.remove path s.world })
    pub told : (s : Progress W) → I s → I (record s { world = calls.after_signature s.world })
    pub settled :
        (a : Approvals) (s : Progress W)
        → I s
        → I (record s { world = calls.set_approvals a s.world })
    pub unlocks : (encrypted : PrivateKey) → Allows ssh calls.unlocker I encrypted
    pub waited :
        (s : Progress W) → I s → I (record { held = true; world = calls.unlocker.locked s.world })

  abbrev Held : (Progress W → Type 0) → Progress W → Type 0
  Held I s = I s × (s.held ≡ true)

  if_kept :
      (I : Progress W → Type 0) (b held : Bool) (v w : W)
      → I (record { held = held; world = v })
      → I (record { held = held; world = w })
      → I (record { held = held; world = if b then v else w })
  if_kept I true held v w hv hw = hv
  if_kept I false held v w hv hw = hw

  module _ (I : Progress W → Type 0) (allowed : Allowed I) where
    decided-Keeps :
        (d : Decision) (ctx : ConfirmContext) → Keeps (Held I) (decided ssh calls agent d ctx)
    unfolding decided
    decided-Keeps approve ctx s h = h
    decided-Keeps deny ctx s h = h

    confirmed-Keeps :
        (o : Option ℕ) (ctx : ConfirmContext) → Keeps (Held I) (confirmed ssh calls agent o ctx)
    unfolding confirmed
    confirmed-Keeps (some n) ctx s h = h
    confirmed-Keeps none ctx s h = decided-Keeps _ ctx _ (allowed.confirmed ctx s h.1 h.0, h.1)

    asked_again-Keeps :
        (o : Option ℕ) (entry : KeyEntry ssh) (bindings : List SessionBinding)
        → Keeps I (asked_again ssh calls agent o entry bindings)
    unfolding asked_again enter
    asked_again-Keeps (some n) entry bindings s h = h
    asked_again-Keeps none entry bindings s h =
        (next-Keeps (Held I) _ (enter {E = AgentError} calls.unlocker.locked s)
          (λ _ s h. confirmed-Keeps _ _ s h)
          (enter-Keeps AgentError I calls.unlocker.locked allowed.waited s h)).0

    approval_for-Keeps : (entry : KeyEntry ssh) → Keeps I (approval_for ssh calls agent entry)
    unfolding approval_for named_bindings
    approval_for-Keeps entry s h = asked_again-Keeps _ entry _ _ (allowed.named _ s h)

    answer_for-Keeps : (entry : KeyEntry ssh) → Keeps I (answer_for ssh calls agent entry)
    unfolding answer_for
    answer_for-Keeps entry =
        if-Keeps I entry.confirm (approval_for ssh calls agent entry) (pure not_needed)
          (approval_for-Keeps entry) (λ s h. h)

    ask_if_locked-Keeps :
        (entry : KeyEntry ssh) (r : Result LpassError Bytes)
        → Keeps I (ask_if_locked ssh calls agent entry r)
    unfolding ask_if_locked enter
    ask_if_locked-Keeps entry (err locked) s h =
        (next-Keeps (Held I) _ (enter {E = AgentError} calls.unlocker.locked s)
          (λ _ s h. (allowed.asked entry.item_id private_key_field s h.1 h.0, h.1))
          (enter-Keeps AgentError I calls.unlocker.locked allowed.waited s h)).0
    ask_if_locked-Keeps entry r s h = h

    fetch_private_key-Keeps :
        (entry : KeyEntry ssh) → Keeps I (fetch_private_key ssh calls agent entry)
    unfolding fetch_private_key
    fetch_private_key-Keeps entry s h =
        ask_if_locked-Keeps entry _ _ (allowed.shown entry.item_id private_key_field s h)

    discarded :
        (o : Option Text) (s : Progress W)
        → I s
        → I (record s { world = elim o [ none ↦ s.world | some path ↦ calls.remove path s.world ] })
    discarded none s h = h
    discarded (some path) s h = allowed.removed path s h

    discard-Keeps :
        (s : Progress W) → I s → I (record s { world = discard_remembered ssh calls agent s.world })
    unfolding discard_remembered
    discard-Keeps s h = discarded agent.remembered s h

    fetched_pem-Keeps : (r : Result LpassError Bytes) → Keeps I (fetched_pem ssh calls agent r)
    unfolding fetched_pem
    fetched_pem-Keeps (ok pem) s h = h
    fetched_pem-Keeps (err e) s h =
        if_kept I (is_absence ssh calls agent e) s.held _ _ (discard-Keeps s h) h

    same_key-Keeps :
        (entry : KeyEntry ssh) (key : PrivateKey) → Keeps I (same_key ssh calls agent entry key)
    unfolding same_key
    same_key-Keeps entry key =
        if-Keeps I (not (key_eq (public_half key) (key_data entry.public)))
          (change (discard_remembered ssh calls agent) >> fail changed) (pure tt)
          (λ s h. discard-Keeps s h) (λ s h. h)

    usable_key-Keeps :
        (entry : KeyEntry ssh) (key : PrivateKey) → Keeps I (usable_key ssh calls agent entry key)
    unfolding usable_key
    usable_key-Keeps entry key =
        if-Keeps I (is_encrypted key) (map_fail unlocking (unlock ssh calls.unlocker entry key))
          (pure key) (λ s h. unlock-Keeps ssh calls.unlocker I entry key (allowed.unlocks key) s h)
          (λ s h. h)

    sign_with-Keeps :
        (entry : KeyEntry ssh) (r : Result LpassError Bytes) (request : Bytes) (flags : ℕ)
        → Keeps I (sign_with ssh calls agent entry r request flags)
    unfolding sign_with
    sign_with-Keeps entry r request flags =
        >>=-Keeps I (fetched_pem ssh calls agent r) _ (fetched_pem-Keeps r) λ pem.
          >>=-Keeps I (lift (λ e. e) (if is_empty pem then err empty_private_key else ok pem)) _
            (lift_kept I (λ (e : SignFailure). e) _)
            λ filled.
              >>=-Keeps I (lift parsing (private_from_openssh filled)) _ (lift_kept I parsing _)
                λ key.
                  >>=-Keeps I (same_key ssh calls agent entry key) _ (same_key-Keeps entry key) λ _.
                    >>=-Keeps I (usable_key ssh calls agent entry key) _
                      (usable_key-Keeps entry key)
                      λ opened. lift_kept I signing (sign_with_key ssh opened request flags)

    conclude-Keeps :
        (signed : Result SignFailure Signature) (r : Result Voided (Unit {0}))
        → Keeps I (conclude ssh calls agent signed r)
    unfolding conclude
    conclude-Keeps (ok signature) (ok tt) s h =
        if_kept I agent.refresher s.held _ _ (allowed.told s h) h
    conclude-Keeps (ok signature) (err v) s h = h
    conclude-Keeps (err e) r s h = h

    wind_up-Keeps :
        (answer : Answer) (asked : Bool) (signed : Result SignFailure Signature)
        → Keeps I (wind_up ssh calls agent answer asked signed)
    unfolding wind_up settled
    wind_up-Keeps answer asked signed s h = conclude-Keeps signed _ _ (allowed.settled _ s h)

    serve-Keeps :
        (entry : KeyEntry ssh) (request : Bytes) (flags : ℕ)
        → Keeps I (serve ssh calls agent entry request flags)
    unfolding serve
    serve-Keeps entry request flags =
        >>=-Keeps I (answer_for ssh calls agent entry) _ (answer_for-Keeps entry) λ answer.
          >>=-Keeps I (fetch_private_key ssh calls agent entry) _ (fetch_private_key-Keeps entry)
            λ fetch s h.
              wind_up-Keeps answer fetch.asked _ _
                (sign_with-Keeps entry fetch.key request flags s h)

    found-Keeps :
        (o : Option (KeyEntry ssh)) (request : Bytes) (flags : ℕ)
        → Keeps I (found ssh calls agent o request flags)
    unfolding found
    found-Keeps none request flags = λ s h. h
    found-Keeps (some entry) request flags =
        if-Keeps I (is_for ssh calls agent (last agent.bindings) entry.public request)
          (serve ssh calls agent entry request flags) (fail refused)
          (serve-Keeps entry request flags) (λ s h. h)

    -- A request for a signature preserves each property of its progress that allows at any time
    -- what cannot reach the user (host names, the vault without a prompt, the wait for the gate,
    -- the file, the approvals), and only while the gate is held a confirmation, a vault call that
    -- may ask for the master password, a passphrase prompt, a read of the passphrase store, and a
    -- write to it of a passphrase that decrypts the key.
    pub sign-Keeps :
        (credential : KeyData) (request : Bytes) (flags : ℕ)
        → Keeps I (sign ssh calls agent credential request flags)
    unfolding sign
    sign-Keeps credential request flags s h = found-Keeps _ request flags s h
