-- ===== src/Udev/Options.antt =====
-- utils/udev-rules/udev-rules.c: the options of the command line, and the exit status of `main`.
use make_initrd.Prelude.{
  ℕ, Bool, true, false, not, ◌&&◌, Option, none, some, List, [], ◌∷◌, ◌==◌, if◌then◌else◌, take,
  drop, CString, codes, str_eq,
}
use make_initrd.Udev.State.{
  Warn, w_error, w_missing_label, w_unused_labels, w_dup_match, w_conflict_match,
  w_incomplete_rules, w_multi_label, w_multi_goto, warn_index, RulePair, RulesState,
}
use make_initrd.Udev.Rules.{File, Reading, read_file, rules_readdir}
use make_initrd.Udev.Goto.{check_goto_label}

unfoldable pub warning_str : Warn → CString
warning_str w_error = codes "error"
warning_str w_missing_label = codes "missing-label"
warning_str w_unused_labels = codes "unsed-labels"
warning_str w_dup_match = codes "dup-match"
warning_str w_conflict_match = codes "conflict-match"
warning_str w_incomplete_rules = codes "incomplete-rule"
warning_str w_multi_label = codes "multi-label"
warning_str w_multi_goto = codes "multi-goto"

abbrev pub all_warns : List Warn
all_warns =
    w_error ∷ w_missing_label ∷ w_unused_labels ∷ w_dup_match ∷ w_conflict_match
    ∷ w_incomplete_rules ∷ w_multi_label ∷ w_multi_goto ∷ []

unfoldable pub find_warn : CString → List Warn → Option Warn
find_warn name [] = none
find_warn name (w ∷ ws) = if str_eq name (warning_str w) then some w else find_warn name ws

-- `strncmp(optarg, "no-", 3)`
abbrev pub negated : CString → Bool
negated arg = str_eq (take 3 arg) (codes "no-")

abbrev pub same_warn : Warn → Warn → Bool
same_warn v w = warn_index v == warn_index w

unfoldable pub set_one : Option Warn → Bool → (Warn → Bool) → Option (Warn → Bool)
set_one none set ws = none
set_one (some w) set ws = some (λ v. if same_warn w v then set else ws v)

-- The warnings after `-W arg`; `none` for an unknown name.
unfoldable pub set_warning : CString → (Warn → Bool) → Option (Warn → Bool)
unfolding find_warn warning_str set_one
set_warning arg ws =
    let set = not (negated arg) in
    let name = if set then arg else drop 3 arg in
    if str_eq name (codes "all")
    then some (λ v. not (same_warn w_error v) && set)
    else set_one (find_warn name all_warns) set ws

pub data Opt : Type 0 where
  opt_warning : CString → Opt
  opt_external opt_help opt_unknown : Opt

-- The program goes on with a state, or it has ended with an exit status.
pub data Progress : Type 0 where
  going : RulesState → Progress
  exited : ℕ → Progress
  crashed : Progress

unfoldable pub after_warning : Option (Warn → Bool) → RulesState → Progress
after_warning none st = exited 1
after_warning (some ws) st = going (record st { warnings = ws })

unfoldable pub one_option : Opt → RulesState → Progress
unfolding after_warning
one_option (opt_warning arg) st = after_warning (set_warning arg st.warnings) st
one_option opt_external st = going (record st { show_external = true })
one_option opt_help st = exited 0
one_option opt_unknown st = exited 1

infixl 5 ◌>>=◌
abbrev pub ◌>>=◌ : Progress → (RulesState → Progress) → Progress
going st >>= f = f st
exited n >>= f = exited n
crashed >>= f = crashed

unfoldable pub read_options : List Opt → RulesState → Progress
read_options [] st = going st
read_options (o ∷ os) st = one_option o st >>= read_options os

abbrev pub initial : RulesState
initial = record {
  rules = [];
  gotos = [];
  labels = [];
  global_rule_nr = 0;
  file_rules_nr = 0;
  cur_file = 0;
  cur_rule = none;
  warnings = λ w. false;
  warning_summary = λ w. 0;
  show_external = false;
  retcode = 0;
  log = [];
  output = [];
}

-- What `stat` says of an argument.
pub data Input : Type 0 where
  regular : File → Input
  -- a path, and the entries, or none where opendir fails
  directory : CString → Option (List (CString × File)) → Input
  other : Input
  missing : Input

-- A failure sets `retcode` and leaves `main` past the check of the jumps.
unfoldable pub of_reading : Reading → Progress
of_reading none = crashed
of_reading (some (st, ok)) = if ok then going st else exited 1

module _ (list_sort : List RulePair → List RulePair) where
  unfoldable pub read_input : Input → RulesState → Progress
  unfolding of_reading
  read_input (regular f) st = of_reading (read_file list_sort f st)
  read_input (directory dir none) st = exited 1
  read_input (directory dir (some files)) st = of_reading (rules_readdir list_sort dir files st)
  read_input other st = exited 1
  read_input missing st = exited 1

  unfoldable pub read_inputs : List Input → RulesState → Progress
  read_inputs [] st = going st
  read_inputs (i ∷ inputs) st = read_input i st >>= read_inputs inputs

  unfoldable pub check_inputs : List Input → RulesState → Progress
  check_inputs [] st = exited 1
  check_inputs (i ∷ inputs) st = read_inputs (i ∷ inputs) st >>= λ st'. going (check_goto_label st')

  -- `main`; its exit status is the `retcode` of the state that it ends with, or the status given.
  unfoldable pub udev_rules_main : List Opt → List Input → Progress
  udev_rules_main opts inputs = read_options opts initial >>= check_inputs inputs
