-- ===== src/Udev/Keeps/Program.antt =====
-- Invariants of the checker's state are kept: the actions of the grammar, the jumps, and `main`.
use make_initrd.Prelude.{
  refl, Bool, true, false, not, ◌&&◌, Option, none, some, List, [], ◌∷◌, if_both, CString,
}
use make_initrd.Udev.State.{RulePair, Rule, RulesState, w_missing_label, w_unused_labels}
use make_initrd.Udev.Token.{Token}
use make_initrd.Udev.Rules.{
  Parts, Action, pair, ruleline, syntax, get_rule, store_pair, pair_action, yyerror, close_rule,
  ruleline_action, run_action, rules_parse, rules_readfile, File, Reading, read_file, both,
  rules_readdir, rules_path,
}
use make_initrd.Udev.Goto.{check_gotos, check_labels, check_goto_label, goto_found, label_found}
use make_initrd.Udev.Options.{
  Progress, going, exited, crashed, Input, regular, directory, other, missing, of_reading,
  read_input, read_inputs, check_inputs, ◌>>=◌ as bind,
}
use make_initrd.Udev.Keeps.{Closed, Maybe, Goes}
use make_initrd.Udev.Keeps.Tokens.{MaybeToken}
use make_initrd.Udev.Keeps.Pairs.{keep_process, keep_only, keep_result}

module _ (P : RulesState → Type 0) (c : Closed P) (list_sort : List RulePair → List RulePair) where
  keep_store : (r : Rule) (o : Option Token) → MaybeToken P o → Maybe P (store_pair r o)
  unfolding store_pair
  keep_store r none h = tt
  keep_store r (some t) h =
      c.on_same t.state _ (record { retcode = refl; log = refl; warnings = refl; summary = refl })
        h.holds

  keep_pair : (p : Parts) (st : RulesState) → P st → Maybe P (pair_action p st)
  unfolding pair_action
  keep_pair p st h = keep_store (get_rule p.key_pos st) _ (
      keep_process P c (get_rule p.key_pos st).pairs _
        (c.on_same st _ (record { retcode = refl; log = refl; warnings = refl; summary = refl }) h))

  keep_close : (o : Option Rule) (st : RulesState) → P st → P (close_rule list_sort o st)
  unfolding close_rule
  keep_close none st h = h
  keep_close (some r) st h =
      c.on_same _ _ (record { retcode = refl; log = refl; warnings = refl; summary = refl })
        (keep_result P c r _ (keep_only P c r st h))

  keep_action : (a : Action) (st : RulesState) → P st → Maybe P (run_action list_sort a st)
  unfolding run_action ruleline_action yyerror
  keep_action (pair p) st h = keep_pair p st h
  keep_action ruleline st h =
      c.on_same _ _ (record { retcode = refl; log = refl; warnings = refl; summary = refl })
        (keep_close st.cur_rule st h)
  keep_action (syntax at) st h = c.on_error _ _ _ st h

  then-Maybe :
      (o : Option RulesState) (f : RulesState → Option RulesState)
      → Maybe P o
      → ((st : RulesState) → P st → Maybe P (f st))
      → Maybe P (elim o [ none ↦ none | some st' ↦ f st' ])
  then-Maybe none f h k = tt
  then-Maybe (some st) f h k = k st h

  keep_parse :
      (acts : List Action) (st : RulesState) → P st → Maybe P (rules_parse list_sort acts st)
  unfolding rules_parse
  keep_parse [] st h = h
  keep_parse (a ∷ acts) st h =
      then-Maybe (run_action list_sort a st) (rules_parse list_sort acts) (keep_action a st h)
        (keep_parse acts)

  abbrev Read : Reading → Type 0
  Read none = Unit
  Read (some (st, ok)) = P st

  keep_readfile :
      (acts : List Action) (st : RulesState) → P st → Maybe P (rules_readfile list_sort acts st)
  unfolding rules_readfile
  keep_readfile acts st h =
      keep_parse acts _
        (c.on_same st _ (record { retcode = refl; log = refl; warnings = refl; summary = refl }) h)

  was-Read :
      (o : Option RulesState)
      → Maybe P o
      → Read (elim o [ none ↦ none | some st' ↦ some (st', true) ])
  was-Read none h = tt
  was-Read (some st) h = h

  keep_file : (f : File) (st : RulesState) → P st → Read (read_file list_sort f st)
  unfolding read_file
  keep_file none st h = h
  keep_file (some acts) st h = was-Read (rules_readfile list_sort acts st) (keep_readfile acts st h)

  keep_both : (ok : Bool) (r : Reading) → Read r → Read (both list_sort ok r)
  unfolding both
  keep_both ok none h = tt
  keep_both ok (some (st, done)) h = h

  next_file :
      (o : Option CString) (r x : Reading) (f : RulesState → Reading)
      → Read r
      → Read x
      → ((st : RulesState) → P st → Read (f st))
      → Read (elim o [
        | none ↦ x
        | some path ↦ elim r [ none ↦ none | some (st', ok) ↦ both list_sort ok (f st') ]
      ])
  next_file none r x f h k g = k
  next_file (some path) none x f h k g = tt
  next_file (some path) (some (st, ok)) x f h k g = keep_both ok (f st) (g st h)

  keep_dir :
      (dir : CString) (files : List (CString × File)) (st : RulesState)
      → P st
      → Read (rules_readdir list_sort dir files st)
  unfolding rules_readdir
  keep_dir dir [] st h = h
  keep_dir dir ((name, file) ∷ files) st h =
      next_file (rules_path dir name) (read_file list_sort file st)
        (rules_readdir list_sort dir files st) (rules_readdir list_sort dir files)
        (keep_file file st h) (keep_dir dir files st h) (keep_dir dir files)

  keep_gotos : (gs : List RulePair) (st : RulesState) → P st → P (check_gotos gs st)
  unfolding check_gotos
  keep_gotos [] st h = h
  keep_gotos (g ∷ gs) st h = keep_gotos gs _ (
      if_both P (st.warnings w_missing_label && not (goto_found g st.labels)) _ _
        (c.on_warning _ _ _ _ st h) h)

  keep_labels : (ls : List RulePair) (st : RulesState) → P st → P (check_labels ls st)
  unfolding check_labels
  keep_labels [] st h = h
  keep_labels (l ∷ ls) st h =
      keep_labels ls _ (if_both P (label_found l st.gotos) _ _ h (c.on_warning _ _ _ _ st h))

  pub keep_goto_label : (st : RulesState) → P st → P (check_goto_label st)
  unfolding check_goto_label
  keep_goto_label st h =
      let k = keep_gotos st.gotos st h in
      if_both P (not ((check_gotos st.gotos st).warnings w_unused_labels)) _ _ k
        (keep_labels (check_gotos st.gotos st).labels _ k)

  keep_reading : (r : Reading) → Read r → Goes P (of_reading r)
  unfolding of_reading
  keep_reading none h = tt
  keep_reading (some (st, true)) h = h
  keep_reading (some (st, false)) h = tt

  keep_input : (i : Input) (st : RulesState) → P st → Goes P (read_input list_sort i st)
  unfolding read_input
  keep_input (regular f) st h = keep_reading (read_file list_sort f st) (keep_file f st h)
  keep_input (directory dir none) st h = tt
  keep_input (directory dir (some files)) st h =
      keep_reading (rules_readdir list_sort dir files st) (keep_dir dir files st h)
  keep_input other st h = tt
  keep_input missing st h = tt

  then-Goes :
      (p : Progress) (f : RulesState → Progress)
      → Goes P p
      → ((st : RulesState) → P st → Goes P (f st))
      → Goes P (bind p f)
  then-Goes (going st) f h k = k st h
  then-Goes (exited n) f h k = tt
  then-Goes crashed f h k = tt

  keep_inputs : (is : List Input) (st : RulesState) → P st → Goes P (read_inputs list_sort is st)
  unfolding read_inputs
  keep_inputs [] st h = h
  keep_inputs (i ∷ is) st h =
      then-Goes (read_input list_sort i st) _ (keep_input i st h) (keep_inputs is)

  pub keep_check :
      (is : List Input) (st : RulesState) → P st → Goes P (check_inputs list_sort is st)
  unfolding check_inputs
  keep_check [] st h = tt
  keep_check (i ∷ is) st h =
      then-Goes (read_inputs list_sort (i ∷ is) st) _ (keep_inputs (i ∷ is) st h) keep_goto_label
