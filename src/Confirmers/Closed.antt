-- ===== src/Confirmers/Closed.antt =====
-- What the confirmers of src/confirm approve.
use lastpass_ssh_agent.Prelude.{
  ap, Bool, bytes_eq_refl, Option, false, none, some, Bool-cases, inl, inr, bytes_eq, bytes_eq→eq,
  ◌≤◌, ◌≡◌, refl, ap, ◌↔◌, inl, inr, Bool, true, false, Option, none, some, [], arith, Bool-cases,
  length, Bytes, Text, codes, bytes_eq, bytes_eq_refl, bytes_eq→eq, Result, ok, err,
}
use lastpass_ssh_agent.Confirm.{approve}
use lastpass_ssh_agent.Terminal.{Typed, Line, read_line}
use lastpass_ssh_agent.Terminal.Lines.{until_newline, read_line_iff}
use lastpass_ssh_agent.Text.Search.{contains}
use lastpass_ssh_agent.Confirmers.{
  Output, Child, not_started, timed_out, wait_failed, ended, Screen, Desk, Confirmer, no_confirmer,
  osascript_confirmer, tty_confirmer, askpass_confirmer, confirm, askpass_confirm,
  osascript_confirm, tty_confirm, prompt_on_tty, answered, decided_in_time, trim_ascii,
  max_answer_bytes,
}

-- The program ended well.
abbrev pub Succeeded : Child → Output → Type 0
Succeeded child output = (child ≡ ended output) × (output.success ≡ true)

-- A line that says yes was typed at a terminal that showed the question.
abbrev pub SaidYes : Screen → Type 0
SaidYes screen =
    (line : Bytes) × (left : Typed) × (screen.shown ≡ ok tt)
    × (until_newline screen.typed ≡ some (ok (line, left)))
    × (length line ≤ max_answer_bytes)
    × (trim_ascii line ≡ codes "yes")

abbrev pub Allowed : (text_of : Bytes → Text) → Child → Type 0
Allowed text_of child =
    (output : Output) × Succeeded child output
    × (contains (codes "button returned:Allow") (text_of output.stdout) ≡ true)
    × (contains (codes "gave up:true") (text_of output.stdout) ≡ false)

-- What it takes for each confirmer to approve.
abbrev pub Approved : (text_of : Bytes → Text) → Confirmer → Desk → Type 0
Approved text_of no_confirmer desk = Unit
Approved text_of osascript_confirmer desk = Allowed text_of desk.dialog
Approved text_of tty_confirmer desk = SaidYes desk.screen
Approved text_of (askpass_confirmer program) desk =
    (output : Output) × Succeeded (desk.helper program) output

askpass_iff :
    (child : Child)
    → (askpass_confirm child ≡ approve) ↔ ((output : Output) × Succeeded child output)
unfolding askpass_confirm
askpass_iff (not_started why) = (λ h. cc, λ (o, (e, s)). ground arith)
askpass_iff timed_out = (λ h. cc, λ (o, (e, s)). ground arith)
askpass_iff (wait_failed why) = (λ h. cc, λ (o, (e, s)). ground arith)
askpass_iff (ended output) = (
  λ h. (output, (refl, ground arith)),
  λ (o, (e, s)). let same : output ≡ o = ground arith in rw (same, s),
)

osascript_iff :
    (text_of : Bytes → Text) (child : Child)
    → (osascript_confirm text_of child ≡ approve) ↔ Allowed text_of child
unfolding osascript_confirm
osascript_iff text_of (not_started why) = (λ h. cc, λ (o, (e, s), a, g). ground arith)
osascript_iff text_of timed_out = (λ h. cc, λ (o, (e, s), a, g). ground arith)
osascript_iff text_of (wait_failed why) = (λ h. cc, λ (o, (e, s), a, g). ground arith)
osascript_iff text_of (ended output) = (
  λ h. (output, (refl, ground arith), ground arith, ground arith),
  λ (o, (e, s), a, g). let same : output ≡ o = ground arith in rw (same, s, a, g),
)

approving :
    (o : Option (Result Text Line))
    → decided_in_time (answered o) ≡ approve
    → (line : Bytes) × (left : Typed) × (o
        ≡ some (ok (record { bytes = line; too_long = false; left = left })))
      × (trim_ascii line ≡ codes "yes")
unfolding decided_in_time answered
approving none h = cc
approving (some (err e)) h = cc
approving (some (ok line)) h = elim (Bool-cases line.too_long) [
  | inl long ↦ absurd (ground arith)
  | inr short ↦ elim (Bool-cases (bytes_eq (trim_ascii line.bytes) (codes "yes"))) [
    | inl y ↦ (
      line.bytes,
      line.left,
      ap (λ (b : Bool). some (ok (record line { too_long = b }))) short,
      bytes_eq→eq _ _ y,
    )
    | inr n ↦ absurd (ground arith)
  ]
]

said :
    (shown : Result Text (Unit {0})) (typed : Typed)
    → (tty_confirm (record { shown = shown; typed = typed }) ≡ approve)
      ↔ SaidYes (record { shown = shown; typed = typed })
unfolding tty_confirm prompt_on_tty decided_in_time answered
said (err e) typed = (λ h. cc, λ (line, left, s, u, f, y). ground arith)
said (ok done) typed = (
  λ h.
      let (line, left, e, y) = approving (read_line max_answer_bytes [] false typed) h in
      let (u, fits) = (read_line_iff max_answer_bytes typed line left).0 e in
      (line, left, refl, u, fits, y),
  λ (line, left, s, u, fits, y).
      let e = (read_line_iff max_answer_bytes typed line left).1 (u, fits) in
      rw (e, y, bytes_eq_refl (codes "yes")),
)

tty_iff : (screen : Screen) → (tty_confirm screen ≡ approve) ↔ SaidYes screen
tty_iff screen = said screen.shown screen.typed

-- A confirmer approves exactly if it was approved: the helper ended with success; the dialog ended
-- with success, names the button Allow and did not give up; a whole line of at most 64 bytes that
-- says yes, white space aside, was typed at a terminal that showed the question; or confirmations
-- are off. A timeout, a failure, a program that does not start and any other answer deny.
pub confirm_iff :
    (text_of : Bytes → Text) (confirmer : Confirmer) (desk : Desk)
    → (confirm text_of confirmer desk ≡ approve) ↔ Approved text_of confirmer desk
unfolding confirm
confirm_iff text_of no_confirmer desk = (λ h. tt, λ h. refl)
confirm_iff text_of osascript_confirmer desk = osascript_iff text_of desk.dialog
confirm_iff text_of tty_confirmer desk = tty_iff desk.screen
confirm_iff text_of (askpass_confirmer program) desk = askpass_iff (desk.helper program)
