-- ===== src/Lib.antt =====
-- lastpass-ssh-agent is an SSH agent whose private keys stay in a LastPass vault: for every signature
-- it fetches the key with the `lpass` program, signs and forgets it. This library models what the
-- agent decides: which keys it serves, whom it asks, what it shows, what it remembers and when it
-- signs.
--
-- The parts, from the bottom up:
--
-- - Text (src/text.rs): text that prompts and log lines show, escaped and cut. Text is a list of
--   code points, bytes a list of numbers.
-- - Ssh: the ssh-key and rsa crates as a record of operations, which is a parameter of what uses
--   them. Ssh.Sample is a small one that tests run.
-- - Signing (src/signing.rs): userauth requests and session bindings read from the wire, the host key
--   behind a binding, and the signature. Signing.Format writes the formats down independently.
-- - Approvals (src/approvals.rs): answers remembered until the vault locks. The atomics and the mutex
--   are the fields of a state that each function returns.
-- - Requester (src/requester.rs): the process that asks and what it was started from. The walk up the
--   tree runs `MAX_ORIGIN_DEPTH` rounds, the loop's own bound.
-- - Confirm (src/confirm/mod.rs): the context of a confirmation, its prompt, and the question that a
--   remembered answer is filed under.
-- - Config (src/config.rs): the settings, their resolution per key, and what a configuration is
--   refused for.
-- - Lpass (src/lpass/mod.rs, src/lpass/cli.rs): the vault. Lpass.Cli is one call of the lpass
--   program with its password, its environment, the retry behind a locked vault and what the output
--   says; the process is a parameter that returns what is read of it. Lpass.Cli.Held ties the calls
--   to Unlock. Lpass.Listing reads the output of `ls`, Lpass.Discovery probes the items for SSH keys,
--   eight at a time, the order in which probes end being a parameter.
-- - Knownhosts (src/knownhosts.rs): the lines of known_hosts files, their index, and the names of a
--   key. Knownhosts.Reference says the same of all lines at once.
-- - Keystore (src/keystore.rs, the entries of src/identities.rs): the scan of the vault's items, the
--   served set it makes, and the set rebuilt from what an earlier start wrote down.
-- - Identities (src/identities.rs, `open_regular` of src/files.rs): the file in between. A path holds
--   what opening it finds; the toml crate is a parameter.
-- - Enclave (src/enclave.rs): the padded block, the stored file and the outcomes of the Secure
--   Enclave.
-- - Interaction (src/interaction.rs): the gate that one request at a time holds from its first prompt
--   to its end. `Task` is the thread of an `async` function: each await returns a value and the world
--   as it then is, so a lock, a refresh or another request may fall into any of them.
-- - Unlock (src/unlock.rs, `resolve` of src/master.rs): the master password while it is held. The lock
--   on it is kept across a prompt, so each function is one step of a state.
-- - Vaultlock (src/vaultlock.rs): the watch that forgets it when the screen locks, over the samples of
--   a run.
-- - Refresh (src/refresh.rs, `effective_keys` of src/keystore.rs): when a background scan starts, and
--   in Refresh.Scan what its end replaces. Refresh.Restart reads the file back.
-- - Start (src/commands/start.rs, `remember_if_complete` of src/commands/mod.rs): what a start serves,
--   the identities of an earlier one or those of a scan.
-- - Passphrase (src/passphrase.rs): `Unlocker`, which decrypts the key that the vault returned.
-- - Confirmers (src/confirm/askpass.rs, src/confirm/osascript.rs, src/confirm/tty.rs, `from_config` of
--   src/confirm/mod.rs) and Prompts (the files of these names in src/passphrase, and src/passphrase.rs):
--   how somebody is asked. What a program or the terminal returns is a parameter, and an answer that
--   is not complete is the timeout. Terminal is the loop by which both read a line.
-- - Agent (src/agent.rs): one connection. Agent.Bindings is `handle_extension`, Agent.Sign is `sign`
--   with `approval_for`, `fetch_private_key` and `sign_with`, Agent.Handle the dispatch. The calls
--   to the other parts and to the outside are a record of functions on the world; what concerns
--   approvals goes through the functions of Approvals, the decryption through Passphrase.
--
-- Prelude holds the lists, maps, results and sorting that the parts share, Text.Search the searching
-- and splitting of `str`.
--
-- Log lines and the wiping of secrets have no counterpart. Error texts are data: what they name stands
-- in a constructor. Recursion is on lists. The walk of Requester has the rounds of the source's own
-- bound. The loop of Lpass.Discovery has one round more than there are candidates, which is enough,
-- since each round but the last takes one of them.
--
-- Not modelled: processes, dialogs, the terminal, the Keychain, the Secret Service and the Secure
-- Enclave itself, opening and writing files, sockets and D-Bus, the command line, the reading of the
-- configuration's TOML, and of the agent's own logic so far the seeding of the store (src/master.rs).
pub mod Agent
pub mod Approvals
pub mod Config
pub mod Confirm
pub mod Confirmers
pub mod Enclave
pub mod Identities
pub mod Interaction
pub mod Keystore
pub mod Knownhosts
pub mod Lpass
pub mod Passphrase
pub mod Prelude
pub mod Prompts
pub mod Refresh
pub mod Requester
pub mod Signing
pub mod Ssh
pub mod Start
pub mod Terminal
pub mod Text
pub mod Unlock
pub mod Vaultlock
