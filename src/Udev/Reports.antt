-- ===== src/Udev/Reports.antt =====
-- The exit status and the summary against what was reported.
use mathlib.Core.Path.{subst}
use make_initrd.Prelude.{
  ℕ, ◌+◌, ◌≤◌, ◌≡◌, refl, Bool, true, false, not, ◌||◌, Option, none, some, List, [], ◌∷◌, ◌++◌,
  arith, ◌==◌, if◌then◌else◌,
}
use make_initrd.Udev.State.{
  Pos, Message, Warn, w_error, w_missing_label, warn_index, Severity, error, warning, Diag,
  RulePair, RulesState, bump_summary, log_error, log_warning,
}
use make_initrd.Udev.Options.{
  Opt, opt_warning, opt_external, opt_help, opt_unknown, Progress, going, exited, crashed, Input,
  initial, one_option, after_warning, set_warning, read_options, check_inputs, udev_rules_main,
  ◌>>=◌ as bind,
}
use make_initrd.Udev.Keeps.{Closed, SameReports, Goes}
use make_initrd.Udev.Keeps.Program.{keep_check}

-- A report that makes the exit status 1: an error, or any warning under -Werror.
abbrev pub counts : Bool → Severity → Bool
counts werror error = true
counts werror (warning w) = werror

pub failing : Bool → List Diag → Bool
failing werror [] = false
failing werror (d ∷ ds) = counts werror d.severity || failing werror ds

abbrev pub tag : Severity → Warn → ℕ
tag error v = 0
tag (warning none) v = 0
tag (warning (some w_error)) v = 0
tag (warning (some w)) v = if warn_index w == warn_index v then 1 else 0

-- The number of warnings of a kind.
pub tagged : Warn → List Diag → ℕ
tagged v [] = 0
tagged v (d ∷ ds) = tag d.severity v + tagged v ds

-- `retcode` is 0 or 1; it is 1 exactly if the log has an error, or has a warning under -Werror.
-- Each counter of the summary is the number of warnings of its kind in the log.
pub record Accurate (st : RulesState) : Type 0 where
  pub bound : st.retcode ≤ 1
  pub status : (st.retcode == 0) ≡ not (failing (st.warnings w_error) st.log)
  pub summary : (v : Warn) → st.warning_summary v ≡ tagged v st.log

failing-append :
    (e : Bool) (xs : List Diag) (d : Diag)
    → failing e (xs ++ d ∷ []) ≡ (failing e xs || counts e d.severity)
unfolding failing
failing-append e [] d = ground arith
failing-append e (x ∷ xs) d = ground (arith, failing-append e xs d)

tagged-append :
    (v : Warn) (xs : List Diag) (d : Diag)
    → tagged v (xs ++ d ∷ []) ≡ tagged v xs + tag d.severity v
unfolding tagged
tagged-append v [] d = omega arith
tagged-append v (x ∷ xs) d = omega (arith, tagged-append v xs d)

bump-tag :
    (w : Option Warn) (f : Warn → ℕ) (v : Warn) → bump_summary w f v ≡ f v + tag (warning w) v
unfolding bump_summary
bump-tag none f v = omega arith
bump-tag (some w_error) f v = omega arith
bump-tag (some w_missing_label) f v = ground arith
bump-tag (some w) f v = ground arith

error-Accurate :
    (file : ℕ) (at : Pos) (m : Message) (st : RulesState)
    → Accurate st
    → Accurate (log_error file at m st)
unfolding log_error
error-Accurate file at m st h =
    let d : Diag = record { file = file; at = at; message = m; severity = error } in
    record {
      bound = omega arith;
      status = ground (arith, failing-append (st.warnings w_error) st.log d);
      summary = λ v. omega (arith, h.summary v, tagged-append v st.log d);
    }

warning-Accurate :
    (file : ℕ) (at : Pos) (m : Message) (w : Option Warn) (st : RulesState)
    → Accurate st
    → Accurate (log_warning file at m w st)
unfolding log_warning
warning-Accurate file at m w st h =
    let d : Diag = record { file = file; at = at; message = m; severity = warning w } in
    record {
      bound = ground (arith, h.bound);
      status = ground (arith, h.status, h.bound, failing-append (st.warnings w_error) st.log d);
      summary = λ v.
          omega (arith, h.summary v, tagged-append v st.log d, bump-tag w st.warning_summary v);
    }

same-Accurate : (a b : RulesState) → SameReports a b → Accurate a → Accurate b
same-Accurate a b e h = record {
  bound = rw e.retcode h.bound;
  status = rw (e.retcode, e.log, e.warnings) h.status;
  summary = λ v. rw (e.summary, e.log) (h.summary v);
}

pub Accurate-Closed : Closed Accurate
Accurate-Closed = record {
  on_error = error-Accurate;
  on_warning = warning-Accurate;
  on_same = same-Accurate;
}

-- Reading the options reports nothing.
record Untouched (st : RulesState) : Type 0 where
  retcode : st.retcode ≡ 0
  log : st.log ≡ []
  summary : (v : Warn) → st.warning_summary v ≡ 0

after-Untouched :
    (o : Option (Warn → Bool)) (st : RulesState)
    → Untouched st
    → Goes Untouched (after_warning o st)
unfolding after_warning
after-Untouched none st h = tt
after-Untouched (some ws) st h = record { retcode = h.retcode; log = h.log; summary = h.summary }

option-Untouched : (o : Opt) (st : RulesState) → Untouched st → Goes Untouched (one_option o st)
unfolding one_option
option-Untouched (opt_warning arg) st h = after-Untouched (set_warning arg st.warnings) st h
option-Untouched opt_external st h = record {
  retcode = h.retcode;
  log = h.log;
  summary = h.summary;
}
option-Untouched opt_help st h = tt
option-Untouched opt_unknown st h = tt

next_progress :
    (P Q : RulesState → Type 0) (p : Progress) (f : RulesState → Progress)
    → Goes P p
    → ((st : RulesState) → P st → Goes Q (f st))
    → Goes Q (bind p f)
next_progress P Q (going st) f h k = k st h
next_progress P Q (exited n) f h k = tt
next_progress P Q crashed f h k = tt

options-Untouched :
    (os : List Opt) (st : RulesState) → Untouched st → Goes Untouched (read_options os st)
unfolding read_options
options-Untouched [] st h = h
options-Untouched (o ∷ os) st h =
    next_progress Untouched Untouched (one_option o st) (read_options os) (option-Untouched o st h)
      (options-Untouched os)

Untouched-Accurate : (st : RulesState) → Untouched st → Accurate st
unfolding failing tagged
Untouched-Accurate st h = record {
  bound = omega (arith, h.retcode);
  status = rw (h.retcode, h.log) refl;
  summary = λ v. rw h.log (h.summary v);
}

-- Whatever the options and the files, where `udev-rules` comes to its end with a state, the exit
-- status is 1 exactly if an error was reported, or a warning under -Werror, and 0 otherwise, and
-- the summary counts the warnings of each kind.
pub main-Accurate :
    (list_sort : List RulePair → List RulePair) (opts : List Opt) (inputs : List Input)
    (st : RulesState)
    → udev_rules_main list_sort opts inputs ≡ going st
    → Accurate st
unfolding udev_rules_main
main-Accurate list_sort opts inputs st h = subst (Goes Accurate) h (
    next_progress Untouched Accurate (read_options opts initial) (check_inputs list_sort inputs)
      (options-Untouched opts initial (record { retcode = refl; log = refl; summary = λ v. refl }))
      (λ s u. keep_check Accurate Accurate-Closed list_sort inputs s (Untouched-Accurate s u)))
