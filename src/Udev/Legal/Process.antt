-- ===== src/Udev/Legal/Process.antt =====
-- What `process_token` accepts, and where it reads a missing attribute.
use make_initrd.Prelude.{
  ℕ, ◌<◌, ap, ◌∙◌, ==_iff, ◌≡◌, true, Option, none, some, List, arith, ◌==◌, Bool-cases, inl, inr,
  CString,
}
use mathlib.Core.Path.{subst}
use mathlib.Core.Option.{some-injective}
use make_initrd.Udev.Keys.{
  Key, Op, is_op_match, key_action, key_attr, key_attrs, key_const, key_devpath, key_driver,
  key_drivers, key_env, key_goto, key_group, key_import, key_kernel, key_kernels, key_label,
  key_mode, key_name, key_options, key_owner, key_program, key_result, key_run, key_seclabel,
  key_subsystem, key_subsystems, key_symlink, key_sysctl, key_tag, key_tags, key_test,
}
use make_initrd.Udev.State.{Pos, RulePair, RulesState, log_error, log_warning}
use make_initrd.Udev.Token
use make_initrd.Udev.Token.{Token, by_key, process_token, is_missing, is_given}
use make_initrd.Udev.Checks.{check_match_conditions, check_multi_goto_label}
use make_initrd.Udev.Keeps.{Closed}
use make_initrd.Udev.Keeps.Pairs.{keep_conditions, keep_multi}
use make_initrd.Udev.Legal.{Sound, is_legal, token}
use make_initrd.Udev.Legal.First
use make_initrd.Udev.Legal.Second

key_Sound :
    (st : RulesState) (pk po pv : Pos) (value : CString) (line file : ℕ) (k : Key) (op : Op)
    (a : Option CString)
    → Sound (by_key k (is_op_match op) (token st pk po pv value line file k op a))
key_Sound st pk po pv v l f key_action = First.action_Sound st pk po pv v l f
key_Sound st pk po pv v l f key_attr = First.attr_Sound st pk po pv v l f
key_Sound st pk po pv v l f key_attrs = First.attrs_Sound st pk po pv v l f
key_Sound st pk po pv v l f key_const = First.const_Sound st pk po pv v l f
key_Sound st pk po pv v l f key_devpath = First.devpath_Sound st pk po pv v l f
key_Sound st pk po pv v l f key_driver = First.driver_Sound st pk po pv v l f
key_Sound st pk po pv v l f key_drivers = First.drivers_Sound st pk po pv v l f
key_Sound st pk po pv v l f key_env = First.env_Sound st pk po pv v l f
key_Sound st pk po pv v l f key_goto = First.goto_Sound st pk po pv v l f
key_Sound st pk po pv v l f key_group = First.group_Sound st pk po pv v l f
key_Sound st pk po pv v l f key_import = First.import_Sound st pk po pv v l f
key_Sound st pk po pv v l f key_kernel = First.kernel_Sound st pk po pv v l f
key_Sound st pk po pv v l f key_kernels = First.kernels_Sound st pk po pv v l f
key_Sound st pk po pv v l f key_label = First.label_Sound st pk po pv v l f
key_Sound st pk po pv v l f key_mode = First.mode_Sound st pk po pv v l f
key_Sound st pk po pv v l f key_name = Second.name_Sound st pk po pv v l f
key_Sound st pk po pv v l f key_options = Second.options_Sound st pk po pv v l f
key_Sound st pk po pv v l f key_owner = Second.owner_Sound st pk po pv v l f
key_Sound st pk po pv v l f key_program = Second.program_Sound st pk po pv v l f
key_Sound st pk po pv v l f key_result = Second.result_Sound st pk po pv v l f
key_Sound st pk po pv v l f key_run = Second.run_Sound st pk po pv v l f
key_Sound st pk po pv v l f key_seclabel = Second.seclabel_Sound st pk po pv v l f
key_Sound st pk po pv v l f key_subsystem = Second.subsystem_Sound st pk po pv v l f
key_Sound st pk po pv v l f key_subsystems = Second.subsystems_Sound st pk po pv v l f
key_Sound st pk po pv v l f key_symlink = Second.symlink_Sound st pk po pv v l f
key_Sound st pk po pv v l f key_sysctl = Second.sysctl_Sound st pk po pv v l f
key_Sound st pk po pv v l f key_tag = Second.tag_Sound st pk po pv v l f
key_Sound st pk po pv v l f key_tags = Second.tags_Sound st pk po pv v l f
key_Sound st pk po pv v l f key_test = Second.test_Sound st pk po pv v l f

record Failed (st : RulesState) : Type 0 where
  status : 0 < st.retcode

Failed-Closed : Closed Failed
unfolding log_error log_warning
Failed-Closed = record {
  on_error = λ file at m st h. record { status = omega arith };
  on_warning = λ file at m w st h. record { status = ground (arith, h.status) };
  on_same = λ a b e h. record { status = rw e.retcode h.status };
}

-- Later checks of the pair do not take a failure back.
status-checks :
    (earlier : List RulePair) (t : Token)
    → (check_multi_goto_label earlier t.pair
        (check_match_conditions earlier t.pair t.state)).retcode
      ≡ 0
    → t.state.retcode ≡ 0
status-checks earlier t h = elim (Bool-cases (t.state.retcode == 0)) [
  | inl zero ↦ (==_iff t.state.retcode 0).0 zero
  | inr some_error ↦
      let failed = keep_multi Failed Failed-Closed earlier t.pair _ (
        keep_conditions Failed Failed-Closed earlier t.pair t.state
          (record { status = ground arith })) in
      absurd (omega (arith, failed.status))
]

checked-legal :
    (earlier : List RulePair) (o : Option Token) (t' : Token)
    → Sound o
    → Token.◌>>=◌ o (Token.check_pair earlier) ≡ some t'
    → t'.state.retcode ≡ 0
    → is_legal t'.pair.key t'.pair.attr t'.pair.op ≡ true
unfolding Token.check_pair
checked-legal earlier none t' s e h = cc
checked-legal earlier (some t) t' s e h =
    let same = some-injective _ t' e in
    subst (λ (u : Token). is_legal u.pair.key u.pair.attr u.pair.op ≡ true) same
      (s (status-checks earlier t (ap (λ (u : Token). u.state.retcode) same ∙ h)))

-- A pair that `process_token` takes with the exit status still 0 is legal: its attribute is missing,
-- non-empty or present as the key demands, and its operator, after the corrections, is one that
-- the key takes.
pub process_token_legal :
    (earlier : List RulePair) (t t' : Token)
    → process_token earlier t ≡ some t'
    → t'.state.retcode ≡ 0
    → is_legal t'.pair.key t'.pair.attr t'.pair.op ≡ true
unfolding process_token
process_token_legal earlier t t' e h =
    checked-legal earlier (by_key t.pair.key (is_op_match t.pair.op) t) t'
      (key_Sound t.state t.pair.pos_key t.pair.pos_op t.pair.pos_value t.pair.value t.pair.rule_line
        t.pair.rule_file t.pair.key t.pair.op t.pair.attr)
      e h
