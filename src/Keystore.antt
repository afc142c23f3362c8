-- ===== src/Keystore.antt =====
-- src/keystore.rs: the keys the agent serves, loaded from the vault or from what an earlier start
-- wrote down (`Remembered` of src/identities.rs). A client's `show_field(id, "Public Key")` is a
-- function of the item, since each item is asked for once in a scan.
mod Tests
pub mod Policy
pub mod Complete
pub mod Unique
pub mod Restart
pub mod Sample
pub mod Scanned
use lastpass_ssh_agent.Ssh.{SshLibrary, Algorithm}
use lastpass_ssh_agent.Signing.Keys.{can_sign}
use lastpass_ssh_agent.Text.{escape_for_display}
use lastpass_ssh_agent.Config.{
  Config, KeyConfig, PassphraseFallback, confirm_required, passphrase_fallback, display_name,
}
use lastpass_ssh_agent.Lpass.{
  LpassError, not_logged_in, locked, wrong_master_password, no_master_password, item_not_found,
  field_not_found,
}
use lastpass_ssh_agent.Prelude.{
  find, is_empty, and_then, map_err, if◌then◌else◌, some, none, ok, err, bytes_eq, map, true, false,
  not, Bool, ◌++◌, ◌∷◌, [], ℕ, Option, List, Bytes, Text, Result,
}

pub data KeyIssue : Type 0 where
  fetch : LpassError → KeyIssue
  empty : KeyIssue
  malformed : Text → KeyIssue
  unsupported : Algorithm → KeyIssue
  duplicate : (other_item : Text) → KeyIssue

pub record RememberedKey : Type 0 where
  pub id : Text
  pub name : Text
  pub public : Text

pub data LoadError : Type 0 where
  ambiguous : (item_id name : Text) → KeyIssue → LoadError
  shut : LpassError → LoadError
  no_usable_keys : LoadError

module _ (ssh : SshLibrary) where
  open ssh use {
    PublicKey, KeyData, from_openssh, to_openssh, key_data, algorithm, key_eq, fingerprint,
  }

  pub record KeyEntry : Type 0 where
    pub item_id : Text
    pub name : Text
    pub public : PublicKey
    pub confirm : Bool
    pub passphrase_fallback : PassphraseFallback

  -- `KeyEntry::fingerprint`.
  pub fingerprint_of : KeyEntry → Text
  fingerprint_of entry = fingerprint (key_data entry.public)

  pub data KeyInspection : Type 0 where
    usable : KeyEntry → KeyInspection
    unusable : (item_id name : Text) → KeyIssue → KeyInspection

  pub record FromRemembered : Type 0 where
    pub store : List KeyEntry
    pub missing : List KeyConfig

  abbrev pub Seen : Type 0
  Seen = List (KeyData × Text)

  -- `String::from_utf8_lossy(raw)` and `trim`.
  module _ (text_of : Bytes → Text) where
    pub accept : Bytes → Result KeyIssue PublicKey
    accept raw =
        if is_empty raw
        then err empty
        else and_then (map_err malformed (from_openssh (text_of raw))) λ public.
          if can_sign (algorithm public) then ok public else err (unsupported (algorithm public))

  -- The first item that has a key.
  pub holder : Seen → KeyData → Option (KeyData × Text)
  holder seen key = find (λ s. key_eq s.0 key) seen

  pub claim : Option (KeyData × Text) → Seen → PublicKey → Text → Result KeyIssue PublicKey × Seen
  claim (some (key, other_item)) seen public item_id = (err (duplicate other_item), seen)
  claim none seen public item_id = (ok public, seen ++ (key_data public, item_id) ∷ [])

  pub unique : Seen → PublicKey → Text → Result KeyIssue PublicKey × Seen
  unfolding holder claim
  unique seen public item_id = claim (holder seen (key_data public)) seen public item_id

  -- `and_then(|public| unique(&mut seen, public, &key.id))`.
  pub check_unique : Seen → Result KeyIssue PublicKey → Text → Result KeyIssue PublicKey × Seen
  unfolding unique
  check_unique seen (ok public) item_id = unique seen public item_id
  check_unique seen (err issue) item_id = (err issue, seen)

  pub entry_of : Config → KeyConfig → PublicKey → KeyEntry
  entry_of config key public = record {
    item_id = key.id;
    name = escape_for_display (display_name key);
    public = public;
    confirm = confirm_required config key;
    passphrase_fallback = passphrase_fallback config key;
  }

  pub inspection : Config → KeyConfig → Result KeyIssue PublicKey → KeyInspection
  inspection config key (ok public) = usable (entry_of config key public)
  inspection config key (err issue) = unusable key.id (escape_for_display (display_name key)) issue

  -- `is_verdict`: the vault's word on a key, against the vault being unavailable.
  pub is_verdict : KeyIssue → Bool
  is_verdict empty = true
  is_verdict (malformed why) = true
  is_verdict (unsupported a) = true
  is_verdict (fetch (item_not_found item)) = true
  is_verdict (fetch (field_not_found item field)) = true
  is_verdict _ = false

  module _ (text_of : Bytes → Text) (config : Config) where
    module _ (show_field : Text → Result LpassError Bytes) where
      fetched : KeyConfig → Result KeyIssue PublicKey
      unfolding accept
      fetched key = and_then (map_err fetch (show_field key.id)) (accept text_of)

      pub inspect_onto : Seen → List KeyConfig → List KeyInspection
      unfolding fetched check_unique inspection
      inspect_onto seen [] = []
      inspect_onto seen (key ∷ keys) =
          let (public, seen') = check_unique seen (fetched key) key.id in
          inspection config key public ∷ inspect_onto seen' keys

      unfoldable pub inspect_keys : List KeyConfig → List KeyInspection
      unfolding inspect_onto
      inspect_keys = inspect_onto []

    -- What one unusable item does to a start: it is skipped, or ends the start.
    pub refuses : (item_id name : Text) → KeyIssue → Option LoadError
    refuses id name (duplicate other) = some (ambiguous id name (duplicate other))
    refuses id name (fetch not_logged_in) = some (shut not_logged_in)
    refuses id name (fetch locked) = some (shut locked)
    refuses id name (fetch wrong_master_password) = some (shut wrong_master_password)
    refuses id name (fetch (no_master_password why)) = some (shut (no_master_password why))
    refuses id name _ = none

    -- `return Err(...)`, or on to the next item.
    pub refused : {A : Type 0} → Option LoadError → Result LoadError A → Result LoadError A
    refused (some e) skipped = err e
    refused none skipped = skipped

    pub load_onto : List KeyEntry → List KeyInspection → Result LoadError (List KeyEntry)
    unfolding refuses refused
    load_onto entries [] = if is_empty entries then err no_usable_keys else ok entries
    load_onto entries (usable entry ∷ rest) = load_onto (entries ++ entry ∷ []) rest
    load_onto entries (unusable id name issue ∷ rest) =
        let skipped = load_onto entries rest in refused (refuses id name issue) skipped

    pub load_complete_onto : List KeyEntry → List KeyInspection → Option (List KeyEntry)
    load_complete_onto entries [] = if is_empty entries then none else some entries
    load_complete_onto entries (usable entry ∷ rest) =
        load_complete_onto (entries ++ entry ∷ []) rest
    load_complete_onto entries (unusable id name issue ∷ rest) =
        let skipped = load_complete_onto entries rest in
        if not (is_verdict issue) then none else skipped

    pub load : (Text → Result LpassError Bytes) → List KeyConfig → Result LoadError (List KeyEntry)
    load show_field keys = load_onto [] (inspect_keys show_field keys)

    pub load_complete : (Text → Result LpassError Bytes) → List KeyConfig → Option (List KeyEntry)
    load_complete show_field keys = load_complete_onto [] (inspect_keys show_field keys)

    -- `known.public.as_bytes()`.
    module _ (bytes_of : Text → Bytes) where
      known_key : List RememberedKey → KeyConfig → Option RememberedKey
      known_key keys key = find (λ k. bytes_eq k.id key.id) keys

      place : KeyConfig → Result KeyIssue PublicKey → FromRemembered → FromRemembered
      place key (ok public) r = record r { store = r.store ++ entry_of config key public ∷ [] }
      place key (err issue) r = record r { missing = r.missing ++ key ∷ [] }

      pub rebuild : List RememberedKey → Seen → FromRemembered → List KeyConfig → FromRemembered
      unfolding known_key place check_unique accept
      rebuild remembered seen r [] = r
      rebuild remembered seen r (key ∷ keys) = elim (known_key remembered key) [
        | none ↦ rebuild remembered seen (record r { missing = r.missing ++ key ∷ [] }) keys
        | some known ↦
            let (public, seen') =
              check_unique seen (accept text_of (bytes_of known.public)) key.id in
            rebuild remembered seen' (place key public r) keys
      ]

      pub unpinned : RememberedKey → KeyConfig
      unpinned key = record {
        id = key.id;
        name = some key.name;
        confirm = none;
        passphrase_fallback = none;
      }

      pub from_remembered : List RememberedKey → FromRemembered
      unfolding rebuild unpinned
      from_remembered remembered =
          let wanted = if is_empty config.keys then map unpinned remembered else config.keys in
          rebuild remembered [] (record { store = []; missing = [] }) wanted

  pub remember : List KeyEntry → List RememberedKey
  remember entries =
      map (λ e. record { id = e.item_id; name = e.name; public = to_openssh e.public }) entries

  unfoldable pub lookup : List KeyEntry → KeyData → Option KeyEntry
  lookup entries key = find (λ e. key_eq (key_data e.public) key) entries
