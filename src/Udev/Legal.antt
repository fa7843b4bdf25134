-- ===== src/Udev/Legal.antt =====
-- What a pair looks like that `process_token` took without an error.
pub mod First
pub mod Second
pub mod Process
pub mod Faults
use make_initrd.Prelude.{
  ℕ, ◌≡◌, refl, Bool, true, false, not, ◌&&◌, ◌||◌, Option, none, some, List, [], ◌∷◌, arith, ◌==◌,
  if◌then◌else◌, Bool-cases, inl, inr, CString, codes, str_eq,
}
use make_initrd.Udev.Keys.{
  Key, Op, op_match, op_nomatch, op_add, op_remove, op_assign, op_assign_final, op_index,
  is_op_match, key_action, key_attr, key_attrs, key_const, key_devpath, key_driver, key_drivers,
  key_env, key_goto, key_group, key_import, key_kernel, key_kernels, key_label, key_mode, key_name,
  key_options, key_owner, key_program, key_result, key_run, key_seclabel, key_subsystem,
  key_subsystems, key_symlink, key_sysctl, key_tag, key_tags, key_test,
}
use make_initrd.Udev.State.{Pos, RulePair, RulesState, log_error, log_warning}
use make_initrd.Udev.Token
use make_initrd.Udev.Token.{Token, by_key, process_token, is_missing, is_given}

-- What a key takes for an attribute: nothing, a non-empty text, any text, or what it likes.
pub data AttrRule : Type 0 where
  forbidden required present optional : AttrRule

abbrev pub takes_attr : AttrRule → Option CString → Bool
takes_attr forbidden a = not (is_given a)
takes_attr required a = not (is_missing a)
takes_attr present a = is_given a
takes_attr optional a = true

abbrev pub attr_rule : Key → AttrRule
attr_rule key_action = forbidden
attr_rule key_attr = required
attr_rule key_attrs = required
attr_rule key_const = required
attr_rule key_devpath = forbidden
attr_rule key_driver = forbidden
attr_rule key_drivers = forbidden
attr_rule key_env = required
attr_rule key_goto = forbidden
attr_rule key_group = forbidden
attr_rule key_import = required
attr_rule key_kernel = forbidden
attr_rule key_kernels = forbidden
attr_rule key_label = forbidden
attr_rule key_mode = forbidden
attr_rule key_name = forbidden
attr_rule key_options = forbidden
attr_rule key_owner = forbidden
attr_rule key_program = forbidden
attr_rule key_result = forbidden
attr_rule key_run = present
attr_rule key_seclabel = required
attr_rule key_subsystem = forbidden
attr_rule key_subsystems = forbidden
attr_rule key_symlink = forbidden
attr_rule key_sysctl = required
attr_rule key_tag = forbidden
attr_rule key_tags = forbidden
attr_rule key_test = optional

-- The operators that a key is left with.
abbrev pub matches : Op → Bool
matches op_match = true
matches op_nomatch = true
matches _ = false

abbrev pub takes_op : Key → Op → Bool
takes_op key_action op = matches op
takes_op key_attr op_match = true
takes_op key_attr op_nomatch = true
takes_op key_attr op_assign = true
takes_op key_attr _ = false
takes_op key_attrs op = matches op
takes_op key_const op = matches op
takes_op key_devpath op = matches op
takes_op key_driver op = matches op
takes_op key_drivers op = matches op
takes_op key_env op_match = true
takes_op key_env op_nomatch = true
takes_op key_env op_assign = true
takes_op key_env op_add = true
takes_op key_env _ = false
takes_op key_goto op_assign = true
takes_op key_goto _ = false
takes_op key_group op_assign = true
takes_op key_group op_assign_final = true
takes_op key_group _ = false
takes_op key_import op = matches op
takes_op key_kernel op = matches op
takes_op key_kernels op = matches op
takes_op key_label op_assign = true
takes_op key_label _ = false
takes_op key_mode op_assign = true
takes_op key_mode op_assign_final = true
takes_op key_mode _ = false
takes_op key_name op_match = true
takes_op key_name op_nomatch = true
takes_op key_name op_assign = true
takes_op key_name op_assign_final = true
takes_op key_name _ = false
takes_op key_options op_assign = true
takes_op key_options op_assign_final = true
takes_op key_options _ = false
takes_op key_owner op_assign = true
takes_op key_owner op_assign_final = true
takes_op key_owner _ = false
takes_op key_program op = matches op
takes_op key_result op = true
takes_op key_run op_add = true
takes_op key_run op_assign = true
takes_op key_run op_assign_final = true
takes_op key_run _ = false
takes_op key_seclabel op_assign = true
takes_op key_seclabel op_add = true
takes_op key_seclabel _ = false
takes_op key_subsystem op = matches op
takes_op key_subsystems op = matches op
takes_op key_symlink op = true
takes_op key_sysctl op_match = true
takes_op key_sysctl op_nomatch = true
takes_op key_sysctl op_assign = true
takes_op key_sysctl _ = false
takes_op key_tag op_match = true
takes_op key_tag op_nomatch = true
takes_op key_tag op_add = true
takes_op key_tag op_remove = true
takes_op key_tag op_assign = true
takes_op key_tag _ = false
takes_op key_tags op = true
takes_op key_test op = matches op

abbrev pub is_legal : Key → Option CString → Op → Bool
is_legal k a op = takes_attr (attr_rule k) a && takes_op k op

-- A handler left the exit status at 0, and then the pair is legal.
abbrev pub Sound : Option Token → Type 0
Sound none = Unit
Sound (some t) = t.state.retcode ≡ 0 → is_legal t.pair.key t.pair.attr t.pair.op ≡ true

abbrev pub token :
    RulesState → Pos → Pos → Pos → CString → ℕ → ℕ → Key → Op → Option CString → Token
token st pk po pv value line file k op a = record {
  state = st;
  pair = record {
    pos_key = pk;
    pos_op = po;
    pos_value = pv;
    key = k;
    op = op;
    attr = a;
    value = value;
    rule_line = line;
    rule_file = file;
  };
}
