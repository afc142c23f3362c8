-- ===== src/Unlock.antt =====
-- src/unlock.rs and `resolve` of src/master.rs: the master password while it is held. What the store
-- and the prompt return when they are asked comes as arguments; a time is a natural number, which
-- does not run backwards. The lock on the state is kept across the prompt, so every function here is
-- one step.
pub mod Held
pub mod Locks
pub mod Asked
mod Tests
use lastpass_ssh_agent.Approvals.{LockEpoch, no_locks, bump, unlocked}
use lastpass_ssh_agent.Config.{MasterPassword, typed, touch_id}
use lastpass_ssh_agent.Passphrase.{max_passphrase_bytes}
use lastpass_ssh_agent.Prelude.{
  ℕ, ◌-◌, Bool, true, false, not, ◌||◌, Option, none, some, ltb, leb, if◌then◌else◌, length,
  is_empty, Bytes, Text, Result, ok, err,
}

pub data Source : Type 0 where
  from_store from_prompt : Source

pub record HeldPassword : Type 0 where
  pub secret : Bytes
  pub source : Source
  pub last_used : ℕ

pub record Unlock : Type 0 where
  pub held : Option HeldPassword
  pub epoch : LockEpoch
  pub store_rejected : Bool

abbrev pub locked_vault : Unlock
locked_vault = record { held = none; epoch = no_locks; store_rejected = false }

pub data PasswordError : Type 0 where
  prompt_failed : Text → PasswordError
  nothing_entered : PasswordError

-- What was typed.
pub from_typed : Result Text Bytes → Result PasswordError (Bytes × Source)
from_typed (err e) = err (prompt_failed e)
from_typed (ok secret) = if is_empty secret then err nothing_entered else ok (secret, from_prompt)

-- What the store has, unless there is nothing or it is too long.
pub from_stored :
    Result Text (Option Bytes) → Result Text Bytes → Result PasswordError (Bytes × Source)
unfolding from_typed
from_stored (ok (some secret)) answer =
    if ltb max_passphrase_bytes (length secret) then from_typed answer else ok (secret, from_store)
from_stored (ok none) answer = from_typed answer
from_stored (err e) answer = from_typed answer

-- `master::resolve`.
pub resolve :
    MasterPassword
    → (skip_store : Bool) → (stored : Result Text (Option Bytes)) (answer : Result Text Bytes)
    → Result PasswordError (Bytes × Source)
unfolding from_stored from_typed
resolve touch_id false stored answer = from_stored stored answer
resolve _ skip_store stored answer = from_typed answer

pub supplied :
    Unlock
    → (now : ℕ) → Result PasswordError (Bytes × Source)
    → Result PasswordError (Option Bytes) × Unlock
supplied u now (err e) = (err e, u)
supplied u now (ok (secret, source)) = (
  ok (some secret),
  record u { held = some (record { secret = secret; source = source; last_used = now }) },
)

pub password_when :
    MasterPassword
    → (ask : Bool) → (now : ℕ) → (stored : Result Text (Option Bytes)) (answer : Result Text Bytes)
    → Unlock
    → Option HeldPassword
    → Result PasswordError (Option Bytes) × Unlock
unfolding resolve supplied
password_when source ask now stored answer u (some current) = (ok (some current.secret), u)
password_when source ask now stored answer u none =
    if not ask
    then (ok none, u)
    else supplied (record u { epoch = unlocked u.epoch }) now
        (resolve source u.store_rejected stored answer)

-- `password`.
unfoldable pub password :
    MasterPassword
    → (ask : Bool) → (now : ℕ) → (stored : Result Text (Option Bytes)) (answer : Result Text Bytes)
    → Unlock
    → Result PasswordError (Option Bytes) × Unlock
unfolding password_when
password source ask now stored answer u = password_when source ask now stored answer u u.held

pub touch_when : (now : ℕ) → Unlock → Option HeldPassword → Unlock
touch_when now u none = u
touch_when now u (some current) = record u { held = some (record current { last_used = now }) }

-- `touch`.
unfoldable pub touch : (now : ℕ) → Unlock → Unlock
unfolding touch_when
touch now u = touch_when now u u.held

pub is_store : Source → Bool
is_store from_store = true
is_store from_prompt = false

pub rejected_when : Unlock → Option HeldPassword → Unlock
unfolding is_store
rejected_when u none = u
rejected_when u (some was) = record {
  held = none;
  epoch = bump u.epoch;
  store_rejected = is_store was.source || u.store_rejected;
}

-- `rejected`.
unfoldable pub rejected : Unlock → Unlock
unfolding rejected_when
rejected u = rejected_when u u.held

-- `forget`.
pub forget : Unlock → Unlock
forget u = record u { held = none; epoch = bump u.epoch }

expired : (idle now : ℕ) → Option HeldPassword → Bool
expired idle now none = false
expired idle now (some current) = leb idle (now - current.last_used)

-- `expire_if_idle`.
pub expire_if_idle : (idle : Option ℕ) → (now : ℕ) → Unlock → Unlock
unfolding expired
expire_if_idle none now u = u
expire_if_idle (some idle) now u =
    if expired idle now u.held then record u { held = none; epoch = bump u.epoch } else u
