-- ===== src/Udev/Checks.antt =====
-- utils/udev-rules/udev-rules-parser.y: the checks of a pair against the pairs before it in its
-- rule, and of a whole rule at its end. The loops over `rule->pairs` stop at the pair itself, which
-- is the last of the list, so they run over the pairs before it.
use make_initrd.Prelude.{
  ℕ, suc, Bool, true, false, not, ◌&&◌, ◌||◌, Option, none, some, List, [], ◌∷◌, ◌==◌, ltb,
  if◌then◌else◌, any, CString, codes, str_eq,
}
use make_initrd.Udev.Keys.{
  Key, Op, op_match, op_index, key_index, is_op_match, key_action, key_attr, key_attrs, key_const,
  key_devpath, key_driver, key_drivers, key_env, key_goto, key_import, key_kernel, key_kernels,
  key_label, key_name, key_program, key_result, key_subsystem, key_subsystems, key_symlink,
  key_sysctl, key_tag, key_tags,
}
use make_initrd.Udev.State.{
  Warn, w_dup_match, w_conflict_match, w_incomplete_rules, w_multi_label, w_multi_goto, RulePair,
  Rule, RulesState, Message, contradict, dup_match, conflict_match, multi_label, multi_goto,
  incomplete, interleaved, log_warning,
}

abbrev pub same_key : Key → Key → Bool
same_key a b = key_index a == key_index b

abbrev pub same_op : Op → Op → Bool
same_op a b = op_index a == op_index b

unfoldable pub same_attr : Option CString → Option CString → Bool
same_attr none none = true
same_attr (some a) (some b) = str_eq a b
same_attr none (some b) = false
same_attr (some a) none = false

-- The keys of the allowlist.
unfoldable pub may_contradict : Key → Bool
may_contradict key_action = true
may_contradict key_attr = true
may_contradict key_attrs = true
may_contradict key_const = true
may_contradict key_devpath = true
may_contradict key_driver = true
may_contradict key_drivers = true
may_contradict key_env = true
may_contradict key_kernel = true
may_contradict key_kernels = true
may_contradict key_name = true
may_contradict key_result = true
may_contradict key_subsystem = true
may_contradict key_subsystems = true
may_contradict key_symlink = true
may_contradict key_sysctl = true
may_contradict key_tag = true
may_contradict key_tags = true
may_contradict _ = false

-- `strpbrk(s, "*?[|")`.
abbrev pub is_glob : ℕ → Bool
is_glob c = any (λ g. g == c) (codes "*?[|")

unfoldable pub has_glob : CString → Bool
has_glob = any is_glob

pub record Found : Type 0 where
  pub state : RulesState
  pub dups_nr : ℕ
  pub conflict_nr : ℕ

unfoldable pub warn_at : RulePair → Message → Warn → RulesState → RulesState
warn_at pair message w = log_warning pair.rule_file pair.pos_key message (some w)

-- Different values of one key: both are plain, for the same attribute, and both must match.
unfoldable pub contradicts : RulePair → RulePair → RulesState → Bool
unfolding has_glob may_contradict same_attr
contradicts pair p st =
    (st.warnings w_conflict_match && same_op pair.op op_match)
    && may_contradict pair.key
    && not (has_glob p.value)
    && not (has_glob pair.value)
    && same_op pair.op p.op
    && same_attr pair.attr p.attr

unfoldable pub other_value : RulePair → RulePair → Found → Found
unfolding warn_at contradicts
other_value pair p f =
    if contradicts pair p f.state
    then record f { state = warn_at pair contradict w_conflict_match f.state }
    else f

unfoldable pub same_value : RulePair → RulePair → Found → Found
unfolding same_attr
same_value pair p f =
    if not (same_attr pair.attr p.attr)
    then f
    else if same_op pair.op p.op
    then (if f.state.warnings w_dup_match then record f { dups_nr = suc f.dups_nr } else f)
    else if f.state.warnings w_conflict_match
    then record f { conflict_nr = suc f.conflict_nr }
    else f

unfoldable pub match_step : RulePair → RulePair → Found → Found
unfolding other_value same_value
match_step pair p f =
    if not (same_key pair.key p.key)
    then f
    else if str_eq pair.value p.value
    then same_value pair p f
    else other_value pair p f

unfoldable pub match_loop : RulePair → List RulePair → Found → Found
match_loop pair [] f = f
match_loop pair (p ∷ ps) f = match_loop pair ps (match_step pair p f)

abbrev pub no_findings : RulesState → Found
no_findings st = record { state = st; dups_nr = 0; conflict_nr = 0 }

unfoldable pub log_found : RulePair → Found → RulesState
unfolding warn_at
log_found pair f =
    let st = if ltb 0 f.dups_nr then warn_at pair dup_match w_dup_match f.state else f.state in
    if ltb 0 f.conflict_nr then warn_at pair conflict_match w_conflict_match st else st

unfoldable pub check_match_conditions : List RulePair → RulePair → RulesState → RulesState
unfolding log_found
check_match_conditions earlier pair st =
    if not (is_op_match pair.op)
    then st
    else log_found pair (match_loop pair earlier (no_findings st))

unfoldable pub multi_loop : RulePair → List RulePair → RulesState → RulesState
unfolding warn_at
multi_loop pair [] st = st
multi_loop pair (p ∷ ps) st =
    let rest = multi_loop pair ps st in
    if st.warnings w_multi_label && same_key p.key key_label
    then warn_at pair multi_label w_multi_label st
    else if st.warnings w_multi_goto && same_key p.key key_goto
    then warn_at pair multi_goto w_multi_goto st
    else rest

unfoldable pub no_multi : RulePair → RulesState → Bool
no_multi pair st =
    (not (st.warnings w_multi_label) && not (st.warnings w_multi_goto))
    || (not (same_key pair.key key_label) && not (same_key pair.key key_goto))
    || is_op_match pair.op

unfoldable pub check_multi_goto_label : List RulePair → RulePair → RulesState → RulesState
unfolding multi_loop no_multi
check_multi_goto_label earlier pair st = if no_multi pair st then st else multi_loop pair earlier st

-- A pair that does something: an assignment, or a call of a program.
unfoldable pub is_action : RulePair → Bool
is_action p = not (is_op_match p.op) || same_key p.key key_program || same_key p.key key_import

unfoldable pub check_match_only_conditions : Rule → RulesState → RulesState
unfolding is_action
check_match_only_conditions rule st =
    if not (st.warnings w_incomplete_rules)
    then st
    else if any is_action rule.pairs
    then st
    else log_warning rule.file (record { line = rule.line_nr; column = 1 }) incomplete
        (some w_incomplete_rules) st

-- The counters `program` and `program_result_pairs`.
unfoldable pub result_pairs : List RulePair → ℕ → ℕ → ℕ
result_pairs [] program n = n
result_pairs (p ∷ ps) program n =
    let is_program = same_key p.key key_program in
    let reads = ltb 0 program && same_key p.key key_result in
    result_pairs ps (if is_program then suc program else if reads then 0 else program)
      (if is_program then n else if reads then suc n else n)

unfoldable pub check_program_result : Rule → RulesState → RulesState
unfolding result_pairs
check_program_result rule st =
    if ltb 1 (result_pairs rule.pairs 0 0)
    then log_warning rule.file (record { line = rule.line_nr; column = 1 }) interleaved none st
    else st
