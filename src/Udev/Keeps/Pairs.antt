-- ===== src/Udev/Keeps/Pairs.antt =====
-- Invariants of the checker's state are kept: the checks against the other pairs, and `process_token`.
use make_initrd.Prelude.{
  suc, Bool, not, ◌&&◌, Option, none, some, List, [], ◌∷◌, ltb, if_both, any, str_eq,
}
use make_initrd.Udev.Keys.{
  Key, key_action, key_attr, key_attrs, key_const, key_devpath, key_driver, key_drivers, key_env,
  key_goto, key_group, key_import, key_kernel, key_kernels, key_label, key_mode, key_name,
  key_options, key_owner, key_program, key_result, key_run, key_seclabel, key_subsystem,
  key_subsystems, key_symlink, key_sysctl, key_tag, key_tags, key_test, is_op_match,
}
use make_initrd.Udev.State.{
  RulePair, Rule, RulesState, Warn, w_conflict_match, w_dup_match, w_incomplete_rules,
  w_multi_label, w_multi_goto, Message, contradict, multi_label, multi_goto, conflict_match,
  dup_match,
}
use make_initrd.Udev.Checks.{
  Found, no_findings, contradicts, no_multi, match_step, match_loop, check_match_conditions,
  check_multi_goto_label, other_value, same_value, log_found, multi_loop, warn_at, same_attr,
  same_key, same_op, is_action, check_match_only_conditions, check_program_result, result_pairs,
}
use make_initrd.Udev.Token
use make_initrd.Udev.Token.{Token, by_key, check_pair, process_token}
use make_initrd.Udev.Keeps.{Closed}
use make_initrd.Udev.Keeps.Tokens
use make_initrd.Udev.Keeps.Tokens.{Holds, MaybeToken}

module _ (P : RulesState → Type 0) (c : Closed P) where
  keep_warn_at :
      (pair : RulePair) (m : Message) (w : Warn) (st : RulesState) → P st → P (warn_at pair m w st)
  unfolding warn_at
  keep_warn_at pair m w st h = c.on_warning _ _ _ _ st h

  record At (f : Found) : Type 0 where
    at : P f.state

  keep_other : (pair p : RulePair) (f : Found) → At f → At (other_value pair p f)
  unfolding other_value
  keep_other pair p f h =
      if_both At (contradicts pair p f.state) _ _
        (record { at = keep_warn_at pair contradict w_conflict_match f.state h.at }) h

  keep_same : (pair p : RulePair) (f : Found) → At f → At (same_value pair p f)
  unfolding same_value
  keep_same pair p f h = if_both At (not (same_attr pair.attr p.attr)) _ _ h (
      if_both At (same_op pair.op p.op) _ _
        (if_both At (f.state.warnings w_dup_match) (record f { dups_nr = suc f.dups_nr }) _
          (record { at = h.at }) h)
        (if_both At (f.state.warnings w_conflict_match)
          (record f { conflict_nr = suc f.conflict_nr }) _ (record { at = h.at }) h))

  keep_step : (pair p : RulePair) (f : Found) → At f → At (match_step pair p f)
  unfolding match_step
  keep_step pair p f h =
      if_both At (not (same_key pair.key p.key)) _ _ h
        (if_both At (str_eq pair.value p.value) _ _ (keep_same pair p f h) (keep_other pair p f h))

  keep_match : (pair : RulePair) (ps : List RulePair) (f : Found) → At f → At (match_loop pair ps f)
  unfolding match_loop
  keep_match pair [] f h = h
  keep_match pair (p ∷ ps) f h = keep_match pair ps (match_step pair p f) (keep_step pair p f h)

  keep_found : (pair : RulePair) (f : Found) → P f.state → P (log_found pair f)
  unfolding log_found
  keep_found pair f h =
      let k =
        if_both P (ltb 0 f.dups_nr) (warn_at pair dup_match w_dup_match f.state) f.state
          (keep_warn_at pair dup_match w_dup_match f.state h) h in
      if_both P (ltb 0 f.conflict_nr) _ _ (keep_warn_at pair conflict_match w_conflict_match _ k) k

  pub keep_conditions :
      (earlier : List RulePair) (pair : RulePair) (st : RulesState)
      → P st
      → P (check_match_conditions earlier pair st)
  unfolding check_match_conditions
  keep_conditions earlier pair st h = if_both P (not (is_op_match pair.op)) _ _ h (
      keep_found pair (match_loop pair earlier (no_findings st))
        (keep_match pair earlier (no_findings st) (record { at = h })).at)

  keep_multi_loop :
      (pair : RulePair) (ps : List RulePair) (st : RulesState) → P st → P (multi_loop pair ps st)
  unfolding multi_loop
  keep_multi_loop pair [] st h = h
  keep_multi_loop pair (p ∷ ps) st h =
      if_both P (st.warnings w_multi_label && same_key p.key key_label) _ _
        (keep_warn_at pair multi_label w_multi_label st h)
        (if_both P (st.warnings w_multi_goto && same_key p.key key_goto) _ _
          (keep_warn_at pair multi_goto w_multi_goto st h) (keep_multi_loop pair ps st h))

  pub keep_multi :
      (earlier : List RulePair) (pair : RulePair) (st : RulesState)
      → P st
      → P (check_multi_goto_label earlier pair st)
  unfolding check_multi_goto_label
  keep_multi earlier pair st h =
      if_both P (no_multi pair st) _ _ h (keep_multi_loop pair earlier st h)

  pub keep_only : (r : Rule) (st : RulesState) → P st → P (check_match_only_conditions r st)
  unfolding check_match_only_conditions
  keep_only r st h =
      if_both P (not (st.warnings w_incomplete_rules)) _ _ h
        (if_both P (any is_action r.pairs) _ _ h (c.on_warning _ _ _ _ st h))

  pub keep_result : (r : Rule) (st : RulesState) → P st → P (check_program_result r st)
  unfolding check_program_result
  keep_result r st h =
      if_both P (ltb 1 (result_pairs r.pairs 0 0)) _ _ (c.on_warning _ _ _ _ st h) h

  keep_plain : (t : Token) → Holds P t → Holds P (Token.plain_token t)
  unfolding Token.plain_token
  keep_plain t h = Tokens.keep_no_attr P c t h

  keep_test : (m : Bool) (t : Token) → Holds P t → Holds P (Token.test_token m t)
  unfolding Token.test_token
  keep_test m t h = Tokens.keep_reject P c (not m) t h

  keep_key : (k : Key) (m : Bool) (t : Token) → Holds P t → MaybeToken P (by_key k m t)
  unfolding by_key
  keep_key key_action m t h = Tokens.keep_plain_match P c m t h
  keep_key key_attr m t h = Tokens.keep_attr_token P c t h
  keep_key key_attrs m t h = Tokens.keep_attrs_token P c m t h
  keep_key key_const m t h = Tokens.keep_const_token P c m t h
  keep_key key_devpath m t h = Tokens.keep_plain_match P c m t h
  keep_key key_driver m t h = Tokens.keep_plain_match P c m t h
  keep_key key_drivers m t h = Tokens.keep_plain_match P c m t h
  keep_key key_env m t h = Tokens.keep_env_token P c m t h
  keep_key key_goto m t h = Tokens.keep_goto_token P c t h
  keep_key key_group m t h = Tokens.keep_owner_token P c m t h
  keep_key key_import m t h = Tokens.keep_import_token P c m t h
  keep_key key_kernel m t h = Tokens.keep_plain_match P c m t h
  keep_key key_kernels m t h = Tokens.keep_plain_match P c m t h
  keep_key key_label m t h = Tokens.keep_label_token P c t h
  keep_key key_mode m t h = Tokens.keep_owner_token P c m t h
  keep_key key_name m t h = Tokens.keep_name_token P c m t h
  keep_key key_options m t h = Tokens.keep_owner_token P c m t h
  keep_key key_owner m t h = Tokens.keep_owner_token P c m t h
  keep_key key_program m t h = Tokens.keep_program_token P c m t h
  keep_key key_result m t h = keep_plain t h
  keep_key key_run m t h = Tokens.keep_run_token P c m t h
  keep_key key_seclabel m t h = Tokens.keep_seclabel_token P c m t h
  keep_key key_subsystem m t h = Tokens.keep_subsystem_token P c m t h
  keep_key key_subsystems m t h = Tokens.keep_plain_match P c m t h
  keep_key key_symlink m t h = keep_plain t h
  keep_key key_sysctl m t h = Tokens.keep_attr_token P c t h
  keep_key key_tag m t h = Tokens.keep_tag_token P c t h
  keep_key key_tags m t h = keep_plain t h
  keep_key key_test m t h = keep_test m t h

  keep_checked :
      (earlier : List RulePair) (o : Option Token)
      → MaybeToken P o
      → MaybeToken P (Token.◌>>=◌ o (check_pair earlier))
  unfolding check_pair
  keep_checked earlier none h = tt
  keep_checked earlier (some t) h = record {
    holds = keep_multi earlier t.pair _ (keep_conditions earlier t.pair t.state h.holds);
  }

  pub keep_process :
      (earlier : List RulePair) (t : Token) → P t.state → MaybeToken P (process_token earlier t)
  unfolding process_token
  keep_process earlier t h =
      keep_checked earlier (by_key t.pair.key (is_op_match t.pair.op) t)
        (keep_key t.pair.key (is_op_match t.pair.op) t (record { holds = h }))
