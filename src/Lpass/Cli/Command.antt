-- ===== src/Lpass/Cli/Command.antt =====
-- `command` and `feed` of src/lpass/cli.rs: the environment of a process and what it is fed. The
-- agent's own environment is a map of texts.
pub mod Environment
use lastpass_ssh_agent.Prelude.{
  Bool, not, ◌&&◌, ◌||◌, Option, none, some, List, [], ◌∷◌, ◌++◌, if◌then◌else◌, any, Bytes, Text,
  codes, bytes_eq,
}
use lastpass_ssh_agent.Prelude.Maps.{insert}
use lastpass_ssh_agent.Text.Search.{starts_with}

is_one_of : List Text → Text → Bool
is_one_of names name = any (λ n. bytes_eq n name) names

unfoldable pub withheld : Text → Bool
unfolding is_one_of
withheld = is_one_of (codes "LPASS_ASKPASS" ∷ codes "LPASS_AGENT_DISABLE" ∷ [])

unfoldable pub passes : Text → Bool
unfolding is_one_of
passes name =
    is_one_of (codes "HOME" ∷ codes "PATH" ∷ codes "TMPDIR" ∷ codes "LANG" ∷ codes "LC_ALL" ∷ [])
      name
    || starts_with (codes "LPASS_") name
    || starts_with (codes "XDG_") name

pass_onto : List (Text × Text) → List (Text × Text) → List (Text × Text)
unfolding withheld passes
pass_onto env [] = env
pass_onto env ((name, value) ∷ vars) =
    pass_onto (if not (withheld name) && passes name then insert name value env else env) vars

unfoldable pub child_environment : List (Text × Text) → (fed : Bool) → List (Text × Text)
unfolding pass_onto
child_environment vars fed =
    let passed = pass_onto [] vars in
    let env = if fed then insert (codes "LPASS_AGENT_DISABLE") (codes "1") passed else passed in
    insert (codes "LPASS_DISABLE_PINENTRY") (codes "1") env

-- `feed`: the password and a newline.
unfoldable pub fed_line : Option Bytes → Option Bytes
fed_line none = none
fed_line (some password) = some (password ++ 0x0a ∷ [])
