-- ===== src/Unlock/Locks.antt =====
-- src/unlock.rs: the lock counter over the ways in which a password is dropped.
use lastpass_ssh_agent.Approvals.{bump}
use lastpass_ssh_agent.Config.{MasterPassword}
use lastpass_ssh_agent.Unlock.{
  Unlock, HeldPassword, password, password_when, touch, touch_when, rejected, rejected_when, forget,
  expire_if_idle, expired,
}
use lastpass_ssh_agent.Unlock.Held.{Event, asks, touches, rejects, forgets, idles, step}
use lastpass_ssh_agent.Prelude.{
  ℕ, ◌≡◌, refl, Bool, true, false, Option, none, some, if◌then◌else◌, Bytes, Text, Result,
}

-- An outcome of an event at a state that holds a password: it holds none only after a lock.
abbrev Accounts : Unlock → Unlock → Type 0
Accounts u v = v.held ≡ none → v.epoch ≡ bump u.epoch

password_when-Accounts :
    (source : MasterPassword) (ask : Bool) (now : ℕ) (stored : Result Text (Option Bytes))
    (answer : Result Text Bytes) (u : Unlock) (h : HeldPassword) (o : Option HeldPassword)
    → u.held ≡ some h
    → o ≡ some h
    → Accounts u (password_when source ask now stored answer u o).1
unfolding password_when
password_when-Accounts source ask now stored answer u h none e o n = cc
password_when-Accounts source ask now stored answer u h (some c) e o n = cc

touch_when-Accounts :
    (now : ℕ) (u : Unlock) (h : HeldPassword) (o : Option HeldPassword)
    → o ≡ some h
    → Accounts u (touch_when now u o)
unfolding touch_when
touch_when-Accounts now u h none o n = cc
touch_when-Accounts now u h (some c) o n = cc

rejected_when-Accounts :
    (u : Unlock) (h : HeldPassword) (o : Option HeldPassword)
    → o ≡ some h
    → Accounts u (rejected_when u o)
unfolding rejected_when
rejected_when-Accounts u h none o n = cc
rejected_when-Accounts u h (some c) o n = refl

dropped-Accounts :
    (b : Bool) (u : Unlock) (h : HeldPassword)
    → u.held ≡ some h
    → Accounts u (if b then record u { held = none; epoch = bump u.epoch } else u)
dropped-Accounts true u h e n = refl
dropped-Accounts false u h e n = cc

expire_if_idle-Accounts :
    (idle : Option ℕ) (now : ℕ) (u : Unlock) (h : HeldPassword)
    → u.held ≡ some h
    → Accounts u (expire_if_idle idle now u)
unfolding expire_if_idle
expire_if_idle-Accounts none now u h e n = cc
expire_if_idle-Accounts (some limit) now u h e n =
    dropped-Accounts (expired limit now u.held) u h e n

-- An event that leaves no password held where one was held counts as one lock of the vault, whichever
-- event it is.
pub step_drops :
    (source : MasterPassword) (idle : Option ℕ) (u : Unlock) (e : Event) (h : HeldPassword)
    → u.held ≡ some h
    → (step source idle u e).held ≡ none
    → (step source idle u e).epoch ≡ bump u.epoch
unfolding step password touch rejected forget
step_drops source idle u (asks ask now stored answer) h e n =
    password_when-Accounts source ask now stored answer u h u.held e e n
step_drops source idle u (touches now) h e n = touch_when-Accounts now u h u.held e n
step_drops source idle u rejects h e n = rejected_when-Accounts u h u.held e n
step_drops source idle u forgets h e n = refl
step_drops source idle u (idles now) h e n = expire_if_idle-Accounts idle now u h e n
