-- ===== src/Unlock/Asked.antt =====
-- What the users of the held password of src/unlock.rs rely on.
use lastpass_ssh_agent.Prelude.{
  ℕ, ◌≡◌, refl, ◌≢◌, true, Option, none, some, arith, Bytes, Text, Result, ok, err,
}
use lastpass_ssh_agent.Config.{MasterPassword}
use lastpass_ssh_agent.Unlock.{
  Unlock, Source, PasswordError, HeldPassword, password, password_when, supplied, rejected,
  rejected_when, touch, touch_when,
}

supplied-given :
    (u : Unlock) (now : ℕ) (r : Result PasswordError (Bytes × Source))
    → (supplied u now r).0 ≢ ok none
unfolding supplied
supplied-given u now (ok (secret, from)) h = ground arith
supplied-given u now (err e) h = ground arith

password_when-asked :
    (source : MasterPassword) (now : ℕ) (stored : Result Text (Option Bytes))
    (answer : Result Text Bytes) (u : Unlock) (held : Option HeldPassword)
    → (password_when source true now stored answer u held).0 ≢ ok none
unfolding password_when
password_when-asked source now stored answer u none h = supplied-given _ now _ h
password_when-asked source now stored answer u (some current) h = ground arith

-- Asking yields a password or a reason.
pub password-asked :
    (source : MasterPassword) (now : ℕ) (stored : Result Text (Option Bytes))
    (answer : Result Text Bytes) (u : Unlock)
    → (password source true now stored answer u).0 ≢ ok none
unfolding password
password-asked source now stored answer u = password_when-asked source now stored answer u u.held

rejected_when-held :
    (u : Unlock) (held : Option HeldPassword) → u.held ≡ held → (rejected_when u held).held ≡ none
unfolding rejected_when
rejected_when-held u none h = h
rejected_when-held u (some was) h = refl

pub rejected-held : (u : Unlock) → (rejected u).held ≡ none
unfolding rejected
rejected-held u = rejected_when-held u u.held refl

pub touch-held : (now : ℕ) (u : Unlock) → u.held ≡ none → (touch now u).held ≡ none
unfolding touch touch_when
touch-held now u h = simp h
