-- ===== src/Knownhosts/Tests.antt =====
-- The theorems on src/knownhosts.rs at two files, of which the second revokes a key of the first.
use lastpass_ssh_agent.Prelude.{
  ◌≡◌, refl, true, Option, none, some, List, [], ◌∷◌, map, length, Text, codes, bytes_eq, ok,
}
use lastpass_ssh_agent.Ssh.Sample.{sample}
use lastpass_ssh_agent.Text.Search.{split_whitespace, trim, lines, starts_with}
use lastpass_ssh_agent.Prelude.Maps.{lookup, insert}
use lastpass_ssh_agent.Text.Separated.{join}
use lastpass_ssh_agent.Knownhosts.{
  Handle, names_for, read_small, add_line, parse_line, marked, name_for, add,
}
use lastpass_ssh_agent.Knownhosts.Reference.{recorded}
use lastpass_ssh_agent.Knownhosts.Recorded.{names_for-recorded, read_lines}
use lastpass_ssh_agent.Knownhosts.Fields.{reading, parse_line-reading}

abbrev known_file : Text → Option Handle
known_file contents =
    some (record { is_file = true; len = length contents; contents = ok contents })

abbrev files : List (Option Handle)
files =
    known_file (codes "a k 1\nb k 2\n")
    ∷ none
    ∷ known_file (codes "# comment\n@revoked\t* k 2\nalias k 1\n|1|x= k 3\n")
    ∷ []

abbrev fingerprints : List Text
fingerprints = codes "k 1" ∷ codes "k 2" ∷ codes "k 3" ∷ []

revoked_is_unnamed :
    names_for sample (λ b. b) true files fingerprints ≡ some (codes "a, alias") ∷ none ∷ none ∷ []
unfolding names_for read_small add name_for parse_line marked add_line lookup insert join bytes_eq
    lines trim split_whitespace starts_with
revoked_is_unnamed = refl

names_for-recorded_example :
    names_for sample (λ b. b) true files fingerprints
    ≡ map (recorded (read_lines sample (λ b. b) files)) fingerprints
names_for-recorded_example = names_for-recorded sample (λ b. b) files fingerprints

parse_line-reading_example :
    parse_line sample (codes " @revoked\t* k 2 ")
    ≡ reading sample (split_whitespace (codes " @revoked\t* k 2 "))
parse_line-reading_example = parse_line-reading sample (codes " @revoked\t* k 2 ")
