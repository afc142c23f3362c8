-- ===== src/Agent/Tests.antt =====
-- The theorems on `LpassAgent::handle` at a binding and a question.
use lastpass_ssh_agent.Ssh.Sample.{sample}
use lastpass_ssh_agent.Agent.Bindings.Chain.{IsChain}
use lastpass_ssh_agent.Agent.Bindings.Tests.{lib, binding}
use lastpass_ssh_agent.Agent.Sign.{Connection}
use lastpass_ssh_agent.Agent.Sign.Tests.{calls, agent, world}
use lastpass_ssh_agent.Agent.Handle.{
  extension_request, identities_request, handle_all, handle_all-IsChain,
}
use lastpass_ssh_agent.Prelude.{false, [], ◌∷◌, arith}

abbrev unbound : Connection
unbound = record agent { bindings = [] }

unbound-IsChain : IsChain sample []
unbound-IsChain = record { short = omega arith; genuine = tt; forwards = tt; sessions = tt }

handle_all-IsChain_example :
    IsChain sample
      (handle_all sample lib calls unbound (
        (extension_request binding, world false) ∷ (identities_request, world false) ∷ [])).bindings
handle_all-IsChain_example =
    handle_all-IsChain sample lib calls unbound
      ((extension_request binding, world false) ∷ (identities_request, world false) ∷ [])
      unbound-IsChain
