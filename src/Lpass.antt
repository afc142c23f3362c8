-- ===== src/Lpass.antt =====
-- src/lpass/mod.rs: what a vault call can come to, and the items of the vault. The `lpass` program is
-- not part of the repository: what a process of it writes and ends with comes as a value.
pub mod Cli
pub mod Discovery
pub mod Listing
use lastpass_ssh_agent.Prelude.{ℕ, Text, Option}

pub data LpassError : Type 0 where
  not_logged_in locked wrong_master_password : LpassError
  no_master_password item_not_found : Text → LpassError
  field_not_found : (item field : Text) → LpassError
  timeout field_too_large : ℕ → LpassError
  spawn : Text → LpassError
  command_failed : (code : Option ℕ) (stderr : Text) → LpassError

-- One item as `lpass ls` lists it.
pub record ItemSummary : Type 0 where
  pub id : Text
  pub name : Text
