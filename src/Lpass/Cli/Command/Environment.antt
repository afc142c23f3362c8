-- ===== src/Lpass/Cli/Command/Environment.antt =====
-- The environment that src/lpass/cli.rs gives a process of `lpass`.
use lastpass_ssh_agent.Prelude.{
  ◌≡◌, refl, inl, inr, Bool, true, false, not, ◌&&◌, Option, none, some, List, [], ◌∷◌, arith,
  if◌then◌else◌, Bool-cases, Text, codes, bytes_eq, bytes_eq_iff,
}
use lastpass_ssh_agent.Prelude.Maps.{lookup, insert, IsMap, lookup-insert}
use lastpass_ssh_agent.Lpass.Cli.Command.{child_environment, pass_onto, withheld, passes}

abbrev passed : Text → Option Text → Option Text → Option Text
passed name none before = before
passed name (some value) before = if not (withheld name) && passes name then some value else before

lookup-pass_onto :
    (name : Text) (env vars : List (Text × Text))
    → IsMap vars
    → lookup name (pass_onto env vars) ≡ passed name (lookup name vars) (lookup name env)
unfolding pass_onto lookup
lookup-pass_onto name env [] h = refl
lookup-pass_onto name env ((n, value) ∷ vars) h = elim (Bool-cases (not (withheld n) && passes n)) [
  | inl e ↦ rw e (
      ground (
        arith,
        bytes_eq_iff n name,
        lookup-insert n name value env,
        lookup-pass_onto name (insert n value env) vars h.1,
      ))
  | inr e ↦ rw e (ground (arith, bytes_eq_iff n name, lookup-pass_onto name env vars h.1))
]

-- What a process is told about itself, and otherwise the agent's own variables that pass.
pub expected : (fed : Bool) → List (Text × Text) → Text → Option Text
expected fed vars name =
    if bytes_eq (codes "LPASS_DISABLE_PINENTRY") name
    then some (codes "1")
    else if bytes_eq (codes "LPASS_AGENT_DISABLE") name
    then (if fed then some (codes "1") else none)
    else if bytes_eq (codes "LPASS_ASKPASS") name
    then none
    else if passes name
    then lookup name vars
    else none

-- The environment of an lpass process, for every name: no pinentry; no lpass agent if a password
-- is fed to it and otherwise the variable is unset; no askpass helper; and else the agent's own
-- value for the names that are passed on, and nothing for all others. The agent's environment is
-- taken to have each name once.
pub lookup-child_environment :
    (vars : List (Text × Text)) (fed : Bool) (name : Text)
    → IsMap vars
    → lookup name (child_environment vars fed) ≡ expected fed vars name
unfolding child_environment expected lookup
lookup-child_environment vars false name h = ground (
  arith,
  lookup-pass_onto name [] vars h,
  lookup-insert (codes "LPASS_DISABLE_PINENTRY") name (codes "1") (pass_onto [] vars),
)
lookup-child_environment vars true name h =
    let env = insert (codes "LPASS_AGENT_DISABLE") (codes "1") (pass_onto [] vars) in
    ground (
      arith,
      lookup-pass_onto name [] vars h,
      lookup-insert (codes "LPASS_AGENT_DISABLE") name (codes "1") (pass_onto [] vars),
      lookup-insert (codes "LPASS_DISABLE_PINENTRY") name (codes "1") env,
    )
