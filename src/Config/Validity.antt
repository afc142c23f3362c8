-- ===== src/Config/Validity.antt =====
-- src/config.rs, `validate`: what a configuration that loads can be relied on for.
use lastpass_ssh_agent.Config.{
  max_confirm_timeout_secs, is_askpass, typed, askpass, osascript, tty, off, MasterPassword,
  platform_checks, checks, is_touch_id, other, linux, touch_id, macos, ConfirmMode, Platform,
  uses_fallback, validate, PassphraseFallback, prompt, error, keychain, secret_service, KeyConfig,
  Config, Invalid, passphrase_fallback, is_item_id, is_absolute, distinct, fallback_eq, refuse_if,
  check_ids, check_path, first_error,
}
use lastpass_ssh_agent.Prelude.{
  ltb, is_some, ◌||◌, not, ◌&&◌, ◌==◌, suc, sym, ℕ, ◌++◌, is_empty, if◌then◌else◌, map, ◌∙◌, ap,
  ◌≤◌, ◌≡◌, refl, ◌≢◌, inl, inr, Bool, true, false, Option, none, some, List, [], ◌∷◌, arith,
  ==_iff, Bool-cases, length, any, All, Text, bytes_eq, bytes_eq_iff, Result, ok, err,
}

abbrev Passed : Result Invalid (Unit {0}) → Type 0
Passed r = r ≡ ok tt

first_error-All :
    (checks : List (Result Invalid (Unit {0}))) → first_error checks ≡ ok tt → All Passed checks
unfolding first_error
first_error-All [] h = tt
first_error-All (err e ∷ checks) h = cc
first_error-All (ok tt ∷ checks) h = (refl, first_error-All checks h)

refuse_if-Passed : (b : Bool) (why : Invalid) → refuse_if b why ≡ ok tt → b ≡ false
refuse_if-Passed true why h = cc
refuse_if-Passed false why h = refl

check_ids-All :
    (keys : List KeyConfig)
    → check_ids keys ≡ ok tt
    → All (λ (k : KeyConfig). is_item_id k.id ≡ true) keys
unfolding check_ids
check_ids-All [] h = tt
check_ids-All (key ∷ keys) h = elim (Bool-cases (is_item_id key.id)) [
  | inl e ↦ (e, check_ids-All keys (ground arith))
  | inr e ↦ ground arith
]

-- No two are the same.
abbrev pub Distinct : List Text → Type 0
Distinct [] = Unit
Distinct (x ∷ xs) = All (λ y. x ≢ y) xs × Distinct xs

distinct-le : (xs : List Text) → distinct xs ≤ length xs
unfolding distinct
distinct-le [] = omega arith
distinct-le (x ∷ xs) = ground (arith, distinct-le xs)

any-All : (x : Text) (xs : List Text) → any (bytes_eq x) xs ≡ false → All (λ y. x ≢ y) xs
any-All x [] h = tt
any-All x (y ∷ xs) h = (ground (arith, bytes_eq_iff x y), any-All x xs (ground arith))

distinct-Distinct : (xs : List Text) → distinct xs ≡ length xs → Distinct xs
unfolding distinct
distinct-Distinct [] h = tt
distinct-Distinct (x ∷ xs) h = elim (Bool-cases (any (bytes_eq x) xs)) [
  | inl e ↦ ground (arith, distinct-le xs)
  | inr e ↦ (any-All x xs e, distinct-Distinct xs (ground arith))
]

-- A setting that is a path is an absolute one.
abbrev pub Rooted : Option Text → Type 0
Rooted o = (path : Text) → o ≡ some path → (rest : Text) × (path ≡ b'/' ∷ rest)

check_path-Rooted : (setting : Text) (o : Option Text) → check_path setting o ≡ ok tt → Rooted o
unfolding check_path is_absolute
check_path-Rooted setting none h path e = cc
check_path-Rooted setting (some []) h path e = ground arith
check_path-Rooted setting (some (c ∷ s)) h path e = (s, ground (arith, ==_iff c b'/'))

fallback_eq_refl : (f : PassphraseFallback) → fallback_eq f f ≡ true
unfolding fallback_eq
fallback_eq_refl prompt = refl
fallback_eq_refl error = refl
fallback_eq_refl keychain = refl
fallback_eq_refl secret_service = refl

-- A fallback that no key is left to.
abbrev pub Avoids : Config → PassphraseFallback → Type 0
Avoids config f =
    All (λ (key : KeyConfig). passphrase_fallback config key ≢ f) config.keys
    × (config.keys ≡ [] → config.passphrase_fallback ≢ f)

not_equal : (g f : PassphraseFallback) → fallback_eq g f ≡ false → g ≢ f
not_equal g f h e = let same = ap (λ x. fallback_eq x f) e ∙ fallback_eq_refl f in cc

none_use :
    (config : Config) (f : PassphraseFallback) (keys : List KeyConfig)
    → any (λ key. fallback_eq (passphrase_fallback config key) f) keys ≡ false
    → All (λ (key : KeyConfig). passphrase_fallback config key ≢ f) keys
none_use config f [] h = tt
none_use config f (key ∷ keys) h = (
  not_equal (passphrase_fallback config key) f (ground arith),
  none_use config f keys (ground arith),
)

avoided :
    (config : Config) (f : PassphraseFallback) (keys : List KeyConfig)
    → (if is_empty keys
        then fallback_eq config.passphrase_fallback f
        else any (λ key. fallback_eq (passphrase_fallback config key) f) keys)
      ≡ false
    → All (λ (key : KeyConfig). passphrase_fallback config key ≢ f) keys
      × (keys ≡ [] → config.passphrase_fallback ≢ f)
avoided config f [] h = (tt, λ _. not_equal config.passphrase_fallback f h)
avoided config f (key ∷ keys) h = (none_use config f (key ∷ keys) h, λ e. cc)

uses_fallback-Avoids :
    (config : Config) (f : PassphraseFallback) → uses_fallback config f ≡ false → Avoids config f
unfolding uses_fallback
uses_fallback-Avoids config f h = avoided config f config.keys h

touch_id-refused : (m : MasterPassword) → is_touch_id m ≡ false → m ≢ touch_id
unfolding is_touch_id
touch_id-refused touch_id h e = cc
touch_id-refused typed h e = cc

ids-length : (keys : List KeyConfig) → length (map (λ key. key.id) keys) ≡ length keys
ids-length [] = refl
ids-length (key ∷ keys) = ap suc (ids-length keys)

equal : (m n : ℕ) → not (m == n) ≡ false → m ≡ n
equal m n h = ground (arith, ==_iff m n)

has_helper :
    (mode : ConfirmMode) (o : Option Text)
    → (is_askpass mode && not (is_some o)) ≡ false
    → mode ≡ askpass
    → o ≢ none
unfolding is_askpass
has_helper mode (some helper) h e n = cc
has_helper askpass none h e n = cc
has_helper osascript none h e n = cc
has_helper tty none h e n = cc
has_helper off none h e n = cc

in_range : (n : ℕ) → (n == 0 || ltb max_confirm_timeout_secs n) ≡ false → (1 ≤ n) × (n ≤ 3600)
in_range n h = (ground (arith, ==_iff n 0), ground arith)

-- What holds of a configuration on its platform.
pub record IsUsable (platform : Platform) (config : Config) : Type 0 where
  pub items : All (λ (key : KeyConfig). is_item_id key.id ≡ true) config.keys
  pub distinct_items : Distinct (map (λ key. key.id) config.keys)
  pub socket : Rooted config.socket
  pub lpass_path : Rooted config.lpass_path
  pub askpass_path : Rooted config.askpass
  pub helper : config.confirm ≡ askpass → config.askpass ≢ none
  pub timeout : (1 ≤ config.confirm_timeout_secs) × (config.confirm_timeout_secs ≤ 3600)
  pub no_keychain : platform ≢ macos → Avoids config keychain × (config.master_password ≢ touch_id)
  pub no_secret_service : platform ≢ linux → Avoids config secret_service
  pub screen : platform ≡ other → config.lock_on_screen_lock ≡ false

-- What the checks of a platform leave.
record Fits (platform : Platform) (config : Config) : Type 0 where
  no_keychain : platform ≢ macos → Avoids config keychain × (config.master_password ≢ touch_id)
  no_secret_service : platform ≢ linux → Avoids config secret_service
  screen : platform ≡ other → config.lock_on_screen_lock ≡ false

platform_checks-Fits :
    (platform : Platform) (config : Config)
    → All Passed (platform_checks platform config)
    → Fits platform config
unfolding platform_checks
platform_checks-Fits macos config h = record {
  no_keychain = λ n. absurd (n refl);
  no_secret_service = λ n. uses_fallback-Avoids config secret_service (refuse_if-Passed _ _ h.0);
  screen = λ e. cc;
}
platform_checks-Fits linux config h =
    let (k, (t, _)) = h in
    record {
      no_keychain = λ n. (
        uses_fallback-Avoids config keychain (refuse_if-Passed _ _ k),
        touch_id-refused config.master_password (refuse_if-Passed _ _ t),
      );
      no_secret_service = λ n. absurd (n refl);
      screen = λ e. cc;
    }
platform_checks-Fits other config h =
    let (k, (s, (t, (l, _)))) = h in
    record {
      no_keychain = λ n. (
        uses_fallback-Avoids config keychain (refuse_if-Passed _ _ k),
        touch_id-refused config.master_password (refuse_if-Passed _ _ t),
      );
      no_secret_service = λ n. uses_fallback-Avoids config secret_service (refuse_if-Passed _ _ s);
      screen = λ e. refuse_if-Passed _ _ l;
    }

-- A configuration that is accepted names every key by a numeric item id and no item twice; its
-- socket, its lpass program and its askpass helper are absolute paths where they are set, the
-- helper is set where confirmations go through it, and a confirmation times out after 1 to 3600
-- seconds. Off macOS no key falls back to the keychain and the master password is not behind Touch
-- ID, off Linux no key falls back to the secret service, and off both the vault is not locked with
-- the screen.
pub validate-IsUsable :
    (platform : Platform) (config : Config)
    → validate platform config ≡ ok tt
    → IsUsable platform config
unfolding validate checks
validate-IsUsable platform config h =
    let (ids, (unique, (socket, (lpass, (asks, (helper, (timeout, here))))))) =
      first_error-All (checks config ++ platform_checks platform config) h in
    let fits = platform_checks-Fits platform config here in
    record {
      items = check_ids-All config.keys ids;
      distinct_items =
          distinct-Distinct _
            (equal _ _ (refuse_if-Passed _ _ unique) ∙ sym (ids-length config.keys));
      socket = check_path-Rooted _ config.socket socket;
      lpass_path = check_path-Rooted _ config.lpass_path lpass;
      askpass_path = check_path-Rooted _ config.askpass asks;
      helper = has_helper config.confirm config.askpass (refuse_if-Passed _ _ helper);
      timeout = in_range config.confirm_timeout_secs (refuse_if-Passed _ _ timeout);
      no_keychain = fits.no_keychain;
      no_secret_service = fits.no_secret_service;
      screen = fits.screen;
    }
