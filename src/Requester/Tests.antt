-- ===== src/Requester/Tests.antt =====
-- The theorem on src/requester.rs at a concrete process tree.
use lastpass_ssh_agent.Text.Safety.{IsClean}
use lastpass_ssh_agent.Requester.{
  escape_for_display, Requester, requester_of, origin_chain_from, max_origin_depth,
}
use lastpass_ssh_agent.Requester.Chain.{IsChain, requester_of-IsShown}
use lastpass_ssh_agent.Prelude.{
  ℕ, ◌≡◌, refl, ◌≢◌, Option, some, [], arith, ◌==◌, if◌then◌else◌, All, Text, codes,
}

-- `ssh`, started by a shell, started by the root of the tree.
abbrev parent : ℕ → Option ℕ
parent n = if n == 30 then some 20 else some 1

abbrev path : ℕ → Option Text
path n = if n == 30 then some (codes "/usr/bin/ssh") else some (codes "/bin/sh")

path_nonempty : (pid : ℕ) (p : Text) → path pid ≡ some p → p ≢ []
path_nonempty pid p h = ground arith

abbrev ssh_from_sh : Requester
ssh_from_sh = record {
  process = escape_for_display (codes "/usr/bin/ssh");
  origin = origin_chain_from parent path 30;
}

requester_of-IsShown_example :
    All IsClean ssh_from_sh.process × IsChain max_origin_depth ssh_from_sh.origin
unfolding requester_of
requester_of-IsShown_example = requester_of-IsShown parent path path_nonempty 30 ssh_from_sh refl
