-- ===== src/Config.antt =====
-- src/config.rs: the settings, what a file of them has to pass, and what each key gets from them. A
-- path is its text; parsing TOML and reading the file are the toml crate's and the system's.
pub mod Validity
mod Tests
use lastpass_ssh_agent.Prelude.{
  ◌++◌, ℕ, suc, Bool, true, false, not, ◌&&◌, ◌||◌, Option, none, some, List, [], ◌∷◌, map, ltb,
  leb, ◌==◌, if◌then◌else◌, is_some, length, any, is_empty, Text, codes, bytes_eq, Result, ok, err,
}

pub data ConfirmMode : Type 0 where
  osascript tty askpass off : ConfirmMode

pub data PassphraseFallback : Type 0 where
  prompt error keychain secret_service : PassphraseFallback

pub data MasterPassword : Type 0 where
  typed touch_id : MasterPassword

pub record KeyConfig : Type 0 where
  pub id : Text
  pub name : Option Text
  pub confirm : Option Bool
  pub passphrase_fallback : Option PassphraseFallback

pub record Config : Type 0 where
  pub socket : Option Text
  pub confirm : ConfirmMode
  pub confirm_timeout_secs : ℕ
  pub lpass_path : Option Text
  pub askpass : Option Text
  pub passphrase_fallback : PassphraseFallback
  pub master_password_idle_secs : Option ℕ
  pub master_password : MasterPassword
  pub lock_on_screen_lock : Bool
  pub remember_approvals : Bool
  pub keys : List KeyConfig

-- The platforms that `cfg` tells apart.
pub data Platform : Type 0 where
  macos linux other : Platform

-- `Option::unwrap_or`.
abbrev pub or_else {ℓ} : {A : Type ℓ} → A → Option A → A
or_else d none = d
or_else d (some a) = a

unfoldable pub display_name : KeyConfig → Text
display_name key = or_else key.id key.name

is_off : ConfirmMode → Bool
is_off off = true
is_off _ = false

unfoldable pub confirm_required : Config → KeyConfig → Bool
unfolding is_off
confirm_required config key =
    let enabled = not (is_off config.confirm) in
    elim key.confirm [ none ↦ enabled | some explicit ↦ explicit && enabled ]

unfoldable pub passphrase_fallback : Config → KeyConfig → PassphraseFallback
passphrase_fallback config key = or_else config.passphrase_fallback key.passphrase_fallback

-- In seconds.
unfoldable pub master_password_idle : Config → Option ℕ
master_password_idle config = elim config.master_password_idle_secs [
  | none ↦ some 3600
  | some seconds ↦ if seconds == 0 then none else some seconds
]

abbrev max_confirm_timeout_secs : ℕ
max_confirm_timeout_secs = 3600

pub data Invalid : Type 0 where
  bad_key_id : Text → Invalid
  duplicate_key_ids : Invalid
  relative_path : (setting path : Text) → Invalid
  askpass_without_helper : Invalid
  bad_timeout : Invalid
  unsupported : (setting : Text) → Invalid

abbrev pub is_digit : ℕ → Bool
is_digit c = leb b'0' c && leb c b'9'

unfoldable pub all : {A : Type 0} → (A → Bool) → List A → Bool
all p [] = true
all p (x ∷ xs) = p x && all p xs

-- `lpass::is_item_id`.
unfoldable pub is_item_id : Text → Bool
unfolding all
is_item_id text = not (is_empty text) && all is_digit text

is_absolute : Text → Bool
is_absolute [] = false
is_absolute (c ∷ s) = c == b'/'

-- How many ids are left when the list is sorted and its repeats are dropped.
distinct : List Text → ℕ
distinct [] = 0
distinct (x ∷ xs) = let rest = distinct xs in if any (bytes_eq x) xs then rest else suc rest

fallback_eq : PassphraseFallback → PassphraseFallback → Bool
fallback_eq prompt prompt = true
fallback_eq error error = true
fallback_eq keychain keychain = true
fallback_eq secret_service secret_service = true
fallback_eq _ _ = false

unfoldable pub uses_fallback : Config → PassphraseFallback → Bool
unfolding fallback_eq
uses_fallback config wanted =
    if is_empty config.keys
    then fallback_eq config.passphrase_fallback wanted
    else any (λ key. fallback_eq (passphrase_fallback config key) wanted) config.keys

-- A check that refuses where its test holds.
abbrev refuse_if : Bool → Invalid → Result Invalid (Unit {0})
refuse_if b why = if b then err why else ok tt

check_ids : List KeyConfig → Result Invalid (Unit {0})
check_ids [] = ok tt
check_ids (key ∷ keys) =
    let rest = check_ids keys in if not (is_item_id key.id) then err (bad_key_id key.id) else rest

check_path : Text → Option Text → Result Invalid (Unit {0})
unfolding is_absolute
check_path setting none = ok tt
check_path setting (some path) = refuse_if (not (is_absolute path)) (relative_path setting path)

is_askpass : ConfirmMode → Bool
is_askpass askpass = true
is_askpass _ = false

is_touch_id : MasterPassword → Bool
is_touch_id touch_id = true
is_touch_id typed = false

-- `return Err(...)` at the first check that refuses.
first_error : List (Result Invalid (Unit {0})) → Result Invalid (Unit {0})
first_error [] = ok tt
first_error (err e ∷ checks) = err e
first_error (ok passed ∷ checks) = first_error checks

-- The checks that are compiled in where a platform lacks a mode.
platform_checks : Platform → Config → List (Result Invalid (Unit {0}))
unfolding is_touch_id
platform_checks macos config =
    refuse_if (uses_fallback config secret_service) (unsupported (codes "secretservice")) ∷ []
platform_checks linux config =
    refuse_if (uses_fallback config keychain) (unsupported (codes "keychain"))
    ∷ refuse_if (is_touch_id config.master_password) (unsupported (codes "touchid"))
    ∷ []
platform_checks other config =
    refuse_if (uses_fallback config keychain) (unsupported (codes "keychain"))
    ∷ refuse_if (uses_fallback config secret_service) (unsupported (codes "secretservice"))
    ∷ refuse_if (is_touch_id config.master_password) (unsupported (codes "touchid"))
    ∷ refuse_if config.lock_on_screen_lock (unsupported (codes "lock_on_screen_lock"))
    ∷ []

checks : Config → List (Result Invalid (Unit {0}))
unfolding check_ids distinct check_path is_askpass
checks config =
    check_ids config.keys
    ∷ refuse_if (not (distinct (map (λ key. key.id) config.keys) == length config.keys))
        duplicate_key_ids
    ∷ check_path (codes "socket") config.socket
    ∷ check_path (codes "lpass_path") config.lpass_path
    ∷ check_path (codes "askpass") config.askpass
    ∷ refuse_if (is_askpass config.confirm && not (is_some config.askpass)) askpass_without_helper
    ∷ refuse_if
        (config.confirm_timeout_secs == 0
          || ltb max_confirm_timeout_secs config.confirm_timeout_secs)
        bad_timeout
    ∷ []

unfoldable pub validate : Platform → Config → Result Invalid (Unit {0})
unfolding first_error checks platform_checks
validate platform config = first_error (checks config ++ platform_checks platform config)
