-- ===== src/Knownhosts/Recorded.antt =====
-- What the index of src/knownhosts.rs holds, against what Knownhosts.Reference says of the lines.
use mathlib.Core.Path.{fun_ext}
use lastpass_ssh_agent.Knownhosts.Reference.{
  revokes, hosts_of, firsts, name_of, recorded, firsts-snoc, revokes-snoc, hosts_of-append,
  hosts_of-snoc,
}
use lastpass_ssh_agent.Prelude.{
  ◌≡◌, refl, inl, inr, Bool, true, false, Option, none, some, List, [], ◌∷◌, ◌++◌, map,
  append_assoc, append-nil, arith, Bool-cases, any, Bytes, Text, bytes_eq, bytes_eq→eq,
}
use lastpass_ssh_agent.Prelude.Maps.{lookup, lookup-insert}
use lastpass_ssh_agent.Ssh.{SshLibrary}
use lastpass_ssh_agent.Text.Search.{lines}
use lastpass_ssh_agent.Knownhosts.{
  Line, named_line, revoked_line, hashed_line, Index, no_lines, name_for, name_unless,
  names_or_default, push_new, add_line, Handle, parse_line, add_lines, add, read_small, add_file,
  index_onto, index_files, names_for,
}
use lastpass_ssh_agent.Prelude.Maps.{lookup, lookup-insert}
use lastpass_ssh_agent.Ssh.{SshLibrary}
use lastpass_ssh_agent.Text.Search.{lines}
use lastpass_ssh_agent.Prelude.{append_assoc, map, bytes_eq→eq, bytes_eq, false, true, Bool, Bytes}
use lastpass_ssh_agent.Knownhosts.{
  Line, named_line, revoked_line, hashed_line, Index, no_lines, name_for, name_unless,
  names_or_default, push_new, add_line, Handle, parse_line, add_lines, add, read_small, add_file,
  index_onto, index_files, names_for,
}

-- What the entries of a key say.
abbrev entry_for : List Text → Option (List Text)
entry_for [] = none
entry_for (h ∷ hosts) = some (h ∷ hosts)

-- An index that holds what the lines record.
record Describes (index : Index) (ls : List (Option Line)) : Type 0 where
  names : (fp : Text) → lookup fp index.names ≡ entry_for (firsts (hosts_of fp ls))
  revoked : (fp : Text) → any (bytes_eq fp) index.revoked ≡ revokes fp ls

some-push_new : (h : Text) (l : List Text) → some (push_new h l) ≡ entry_for (push_new h l)
unfolding push_new
some-push_new h [] = refl
some-push_new h (x ∷ l) = elim (Bool-cases (any (bytes_eq h) (x ∷ l))) [
  | inl e ↦ rw e
  | inr e ↦ rw e
]

default-entry_for : (l : List Text) → names_or_default (entry_for l) ≡ l
unfolding names_or_default
default-entry_for [] = refl
default-entry_for (h ∷ hosts) = refl

named-Describes :
    (index : Index) (ls : List (Option Line)) (f h fp : Text)
    → Describes index ls
    → lookup fp (add_line index (some (named_line f h))).names
      ≡ entry_for (firsts (hosts_of fp (ls ++ some (named_line f h) ∷ [])))
unfolding add_line
named-Describes index ls f h fp d = elim (Bool-cases (bytes_eq f fp)) [
  | inl e ↦
      let same : f ≡ fp = bytes_eq→eq f fp e in
      rw
        (
          lookup-insert f fp (push_new h (names_or_default (lookup f index.names))) index.names,
          hosts_of-snoc fp f h ls,
          e,
          same,
          d.names fp,
          default-entry_for (firsts (hosts_of fp ls)),
          firsts-snoc (hosts_of fp ls) h,
        )
        (some-push_new h (firsts (hosts_of fp ls)))
  | inr e ↦
      rw
        (
          lookup-insert f fp (push_new h (names_or_default (lookup f index.names))) index.names,
          hosts_of-snoc fp f h ls,
          e,
        )
        (d.names fp)
]

-- A line more.
add_line-Describes :
    (index : Index) (ls : List (Option Line)) (l : Option Line)
    → Describes index ls
    → Describes (add_line index l) (ls ++ l ∷ [])
unfolding add_line lookup firsts hosts_of revokes
add_line-Describes index ls none d = record {
  names = λ fp. rw (hosts_of-append fp ls (none ∷ []), append-nil) (d.names fp);
  revoked = λ fp. rw (revokes-snoc fp ls none) (d.revoked fp);
}
add_line-Describes index ls (some hashed_line) d = record {
  names = λ fp. rw (hosts_of-append fp ls (some hashed_line ∷ []), append-nil) (d.names fp);
  revoked = λ fp. rw (revokes-snoc fp ls (some hashed_line)) (d.revoked fp);
}
add_line-Describes index ls (some (revoked_line f)) d = record {
  names = λ fp. rw (hosts_of-append fp ls (some (revoked_line f) ∷ []), append-nil) (d.names fp);
  revoked = λ fp. ground (arith, revokes-snoc fp ls (some (revoked_line f)), d.revoked fp);
}
add_line-Describes index ls (some (named_line f h)) d = record {
  names = λ fp. named-Describes index ls f h fp d;
  revoked = λ fp. rw (revokes-snoc fp ls (some (named_line f h))) (d.revoked fp);
}

no_lines-Describes : Describes no_lines []
unfolding firsts lookup hosts_of no_lines revokes
no_lines-Describes = record { names = λ fp. refl; revoked = λ fp. refl }

name_for-Describes :
    (index : Index) (ls : List (Option Line)) (fp : Text)
    → Describes index ls
    → name_for index fp ≡ recorded ls fp
unfolding name_for recorded
name_for-Describes index ls fp d =
    rw (d.revoked fp, d.names fp) (unless (revokes fp ls) (firsts (hosts_of fp ls)))
  where
    unless : (b : Bool) (hosts : List Text) → name_unless b (entry_for hosts) ≡ name_of b hosts
    unless true hosts = refl
    unless false [] = refl
    unless false (h ∷ hosts) = refl

module _ (ssh : SshLibrary) where
  add_lines-Describes :
      (lines : List Text) (index : Index) (ls : List (Option Line))
      → Describes index ls
      → Describes (add_lines ssh index lines) (ls ++ map (parse_line ssh) lines)
  unfolding add_lines
  add_lines-Describes [] index ls d = rw append-nil d
  add_lines-Describes (line ∷ lines) index ls d =
      rw (← append_assoc ls (parse_line ssh line ∷ []) (map (parse_line ssh) lines)) (
        add_lines-Describes lines (add_line index (parse_line ssh line))
          (ls ++ parse_line ssh line ∷ []) (add_line-Describes index ls (parse_line ssh line) d))

  module _ (text_of : Bytes → Text) where
    -- The lines of a file, or none of one that is not read.
    pub lines_of : Option Text → List (Option Line)
    lines_of none = []
    lines_of (some contents) = map (parse_line ssh) (lines contents)

    pub read_lines : List (Option Handle) → List (Option Line)
    unfolding lines_of
    read_lines [] = []
    read_lines (file ∷ files) = lines_of (read_small ssh text_of file) ++ read_lines files

    add_file-Describes :
        (contents : Option Text) (index : Index) (ls : List (Option Line))
        → Describes index ls
        → Describes (add_file ssh text_of index contents) (ls ++ lines_of contents)
    unfolding add_file lines_of add
    add_file-Describes none index ls d = rw append-nil d
    add_file-Describes (some contents) index ls d = add_lines-Describes (lines contents) index ls d

    index_onto-Describes :
        (files : List (Option Handle)) (index : Index) (ls : List (Option Line))
        → Describes index ls
        → Describes (index_onto ssh text_of index files) (ls ++ read_lines files)
    unfolding index_onto read_lines
    index_onto-Describes [] index ls d = rw append-nil d
    index_onto-Describes (file ∷ files) index ls d =
        let contents = read_small ssh text_of file in
        rw (← append_assoc ls (lines_of contents) (read_lines files)) (
          index_onto-Describes files (add_file ssh text_of index contents) (ls ++ lines_of contents)
            (add_file-Describes contents index ls d))

    index_files-name_for :
        (files : List (Option Handle)) (fp : Text)
        → name_for (index_files ssh text_of files) fp ≡ recorded (read_lines files) fp
    unfolding index_files
    index_files-name_for files fp =
        name_for-Describes (index_onto ssh text_of no_lines files) (read_lines files) fp
          (index_onto-Describes files no_lines [] no_lines-Describes)

    map-recorded :
        (files : List (Option Handle)) (fps : List Text)
        → map (name_for (index_files ssh text_of files)) fps ≡ map (recorded (read_lines files)) fps
    map-recorded files fps = rw (fun_ext (index_files-name_for files))

    -- Looked up in time, each fingerprint gets what the files' lines record of it, read at once:
    -- nothing if any line of any file revokes the key, and otherwise the host fields of all lines
    -- that name it, each once, in their order.
    pub names_for-recorded :
        (files : List (Option Handle)) (fingerprints : List Text)
        → names_for ssh text_of true files fingerprints
          ≡ map (recorded (read_lines files)) fingerprints
    unfolding names_for
    names_for-recorded files [] = refl
    names_for-recorded files (fp ∷ fps) = map-recorded files (fp ∷ fps)
