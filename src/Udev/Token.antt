-- ===== src/Udev/Token.antt =====
-- utils/udev-rules/udev-rules-parser.y: `process_token`, the checks of one pair by its key: `Steps`
-- has what its cases share, `Handlers` the cases.
mod Steps
mod Handlers
pub use Steps.{Token, ◌>>=◌, ◌▹◌, is_blank, is_missing, is_given, has_op, key_at, op_at, value_at}
unfoldable pub use Steps.{
  in_list, rule_log_invalid_attr, rule_log_invalid_op, remark, when, set_op, no_attr, need_attr,
  reject_op, no_remove, replace_op, with_attr, print_external,
}
pub use Handlers.{const_names, env_names, external_imports, import_names, run_names}
unfoldable pub use Handlers.{
  plain_match, attr_token, attrs_token, unknown, const_token, warn_subsystem, subsystem_token,
  readonly, env_token, goto_token, label_token, owner_token, show_import, check_import,
  import_token, warn_percent_k, warn_empty_name, name_token, program_token, plain_token,
  default_attr, set_attr, show_run, run_token, seclabel_token, tag_token, test_token,
}
use make_initrd.Prelude.{
  Bool, true, false, not, ◌&&◌, ◌||◌, Option, none, some, List, [], ◌∷◌, ◌++◌, if◌then◌else◌, any,
  CString, codes, str_eq,
}
use make_initrd.Udev.Keys.{
  Key, Op, op_match, op_add, op_remove, op_assign, op_assign_final, is_op_match, key_action,
  key_attr, key_attrs, key_const, key_devpath, key_driver, key_drivers, key_env, key_goto,
  key_group, key_import, key_kernel, key_kernels, key_label, key_mode, key_name, key_options,
  key_owner, key_program, key_result, key_run, key_seclabel, key_subsystem, key_subsystems,
  key_symlink, key_sysctl, key_tag, key_tags, key_test,
}
use make_initrd.Udev.UdevString.{new_string, string_append_str}
use make_initrd.Udev.State.{
  Pos, RulePair, RulesState, Message, invalid_attr, invalid_op, wrong_op, unknown_attr,
  subsystem_name, env_readonly, name_percent_k, name_empty, ExternalKind, external_import,
  external_program, external_run, log_error, log_warning,
}
use make_initrd.Udev.Checks.{same_op, check_match_conditions, check_multi_goto_label}

-- The switch on the key.
unfoldable pub by_key : Key → Bool → Token → Option Token
by_key key_action m t = some (plain_match m t)
by_key key_attr m t = some (attr_token t)
by_key key_attrs m t = some (attrs_token m t)
by_key key_const m t = const_token m t
by_key key_devpath m t = some (plain_match m t)
by_key key_driver m t = some (plain_match m t)
by_key key_drivers m t = some (plain_match m t)
by_key key_env m t = env_token m t
by_key key_goto m t = some (goto_token t)
by_key key_group m t = some (owner_token m t)
by_key key_import m t = import_token m t
by_key key_kernel m t = some (plain_match m t)
by_key key_kernels m t = some (plain_match m t)
by_key key_label m t = some (label_token t)
by_key key_mode m t = some (owner_token m t)
by_key key_name m t = some (name_token m t)
by_key key_options m t = some (owner_token m t)
by_key key_owner m t = some (owner_token m t)
by_key key_program m t = some (program_token m t)
by_key key_result m t = some (plain_token t)
by_key key_run m t = some (run_token m t)
by_key key_seclabel m t = some (seclabel_token m t)
by_key key_subsystem m t = some (subsystem_token m t)
by_key key_subsystems m t = some (plain_match m t)
by_key key_symlink m t = some (plain_token t)
by_key key_sysctl m t = some (attr_token t)
by_key key_tag m t = some (tag_token t)
by_key key_tags m t = some (plain_token t)
by_key key_test m t = some (test_token m t)

unfoldable pub check_pair : List RulePair → Token → Option Token
check_pair earlier t = some (record t {
  state = check_multi_goto_label earlier t.pair (check_match_conditions earlier t.pair t.state);
})

-- `earlier` are the pairs before this one in its rule.
unfoldable pub process_token : List RulePair → Token → Option Token
unfolding by_key check_pair
process_token earlier t = by_key t.pair.key (is_op_match t.pair.op) t >>= check_pair earlier
