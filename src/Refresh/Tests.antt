-- ===== src/Refresh/Tests.antt =====
-- The theorem on src/refresh.rs over three signatures.
use lastpass_ssh_agent.Refresh.{Refresher}
use lastpass_ssh_agent.Refresh.Throttle.{
  Event, signature, startup, finish, starts, Spaced, starts-Spaced,
}
use lastpass_ssh_agent.Prelude.{
  ◌≤◌, ◌≡◌, refl, ◌↔◌, true, false, none, some, List, [], ◌∷◌, arith, length, All, codes, ok, err,
}
use lastpass_ssh_agent.Ssh.Sample.{sample}
use lastpass_ssh_agent.Config.{is_item_id}
use lastpass_ssh_agent.Lpass.{not_logged_in}
use lastpass_ssh_agent.Keystore.{remember}
use lastpass_ssh_agent.Keystore.Sample.{
  config, items, show_public, served, load_served, items-HasDefaults, served-DistinctItems,
  served-ReadsBack, served_ids,
}
use lastpass_ssh_agent.Identities
use lastpass_ssh_agent.Identities.{Toml, holds, absent, max_bytes, save_best_effort}
use lastpass_ssh_agent.Identities.Loaded.{load_exactly, Spells}
use lastpass_ssh_agent.Refresh.Scan.{Vault, Identities, refresh_now, effective_keys, public_key}
use lastpass_ssh_agent.Refresh.Scan.Complete.{Outcome, Replaced, refresh_now_cases}
use lastpass_ssh_agent.Start.{start}
use lastpass_ssh_agent.Start.Restarted.{start-served}

abbrev fresh : Refresher
fresh = record { last = none; running = false }

abbrev day : List Event
day = startup ∷ finish ∷ signature 10 ∷ finish ∷ signature 20 ∷ signature 4000 ∷ []

starts-Spaced_example : Spaced 3600 none (starts 3600 fresh day)
starts-Spaced_example = starts-Spaced 3600 fresh day

-- A file that says only that it is one; it stands for the keys that are served.
abbrev toml : Toml
toml = record {
  from_utf8 = λ b. ok b;
  as_bytes = λ t. t;
  from_str = λ t. ok (remember sample served);
  to_string = λ keys. ok (codes "[[keys]]");
}

abbrev vault : Vault
vault = record { listed = err not_logged_in; show_field = λ id field. show_public id }

abbrev before : Identities sample (λ b. b) toml config
before = record { served = []; file = absent }

abbrev after : Identities sample (λ b. b) toml config
after = record { served = served; file = holds (codes "[[keys]]") }

abbrev shut_vault : Vault
shut_vault = record { listed = err not_logged_in; show_field = λ id field. err not_logged_in }

refresh_now_cases_example :
    Outcome sample
      (λ b. b)
      toml
      config
      vault
      (ok tt)
      before
      (effective_keys (λ s. s) (λ n. n) vault config)
      (refresh_now sample (λ b. b) toml config (λ s. s) (λ n. n) vault (ok tt) before)
refresh_now_cases_example =
    refresh_now_cases sample (λ b. b) toml config (λ s. s) (λ n. n) vault (ok tt) before

replaced : Replaced sample (λ b. b) toml config vault (ok tt) items before after
unfolding public_key save_best_effort
replaced = record { serves = load_served; wrote = refl }

start-served_example :
    start sample
      (λ b. b)
      toml
      config
      (λ t. t)
      (λ s. s)
      (λ n. n)
      shut_vault
      (err (codes "full"))
      after.file
    ≡ some (ok after)
start-served_example =
    start-served sample (λ b. b) toml config (λ t. t) vault items before after replaced refl
      items-HasDefaults served-DistinctItems served-ReadsBack
      (record {
        text = codes "[[keys]]";
        printed = refl;
        parsed_back = refl;
        is_utf8 = refl;
        small = omega arith;
      })
      served_ids (λ s. s) (λ n. n) shut_vault (err (codes "full"))

load_exactly_example :
    (Identities.load toml (holds (codes "[[keys]]")) ≡ ok (some (remember sample served))) ↔ (
      (length (codes "[[keys]]") ≤ max_bytes)
      × Spells toml (codes "[[keys]]") (remember sample served)
      × All (λ key. is_item_id key.id ≡ true) (remember sample served))
load_exactly_example = load_exactly toml (codes "[[keys]]") (remember sample served)
