-- ===== src/Udev/Legal/Second.antt =====
-- A handler of `process_token` that leaves the exit status at 0 leaves a legal pair: the other keys.
use make_initrd.Prelude.{ℕ, Option, none, some, [], ◌∷◌, arith, CString}
use make_initrd.Udev.Keys.{
  Key, Op, op_match, is_op_match, key_name, key_options, key_owner, key_program, key_result,
  key_run, key_seclabel, key_subsystem, key_subsystems, key_symlink, key_sysctl, key_tag, key_tags,
  key_test,
}
use make_initrd.Udev.State.{Pos, RulesState, log_error, log_warning}
use make_initrd.Udev.Token
use make_initrd.Udev.Token.{Token, by_key, process_token, is_missing, is_given}
use make_initrd.Udev.Legal.{Sound, token}

module _ (st : RulesState) (pk po pv : Pos) (value : CString) (line file : ℕ) where
  abbrev pub SoundAt : Key → Type 0
  SoundAt k =
      (op : Op) (a : Option CString)
      → Sound (by_key k (is_op_match op) (token st pk po pv value line file k op a))

  pub name_Sound : SoundAt key_name
  unfolding by_key Token.name_token log_error log_warning is_op_match
  name_Sound op_match none = ground arith
  name_Sound _ none = ground arith
  name_Sound _ (some []) = ground arith
  name_Sound _ (some (x ∷ xs)) = ground arith

  pub options_Sound : SoundAt key_options
  unfolding by_key Token.owner_token log_error log_warning is_op_match
  options_Sound op_match none = ground arith
  options_Sound _ none = ground arith
  options_Sound _ (some []) = ground arith
  options_Sound _ (some (x ∷ xs)) = ground arith

  pub owner_Sound : SoundAt key_owner
  unfolding by_key Token.owner_token log_error log_warning is_op_match
  owner_Sound op_match none = ground arith
  owner_Sound _ none = ground arith
  owner_Sound _ (some []) = ground arith
  owner_Sound _ (some (x ∷ xs)) = ground arith

  pub program_Sound : SoundAt key_program
  unfolding by_key Token.program_token log_error log_warning is_op_match
  program_Sound op_match none = ground arith
  program_Sound _ none = ground arith
  program_Sound _ (some []) = ground arith
  program_Sound _ (some (x ∷ xs)) = ground arith

  pub result_Sound : SoundAt key_result
  unfolding by_key Token.plain_token log_error log_warning is_op_match
  result_Sound op_match none = ground arith
  result_Sound _ none = ground arith
  result_Sound _ (some []) = ground arith
  result_Sound _ (some (x ∷ xs)) = ground arith

  pub run_Sound : SoundAt key_run
  unfolding by_key Token.run_token log_error log_warning is_op_match
  run_Sound op_match none = ground arith
  run_Sound _ none = ground arith
  run_Sound _ (some []) = ground arith
  run_Sound _ (some (x ∷ xs)) = ground arith

  pub seclabel_Sound : SoundAt key_seclabel
  unfolding by_key Token.seclabel_token log_error log_warning is_op_match
  seclabel_Sound op_match none = ground arith
  seclabel_Sound _ none = ground arith
  seclabel_Sound _ (some []) = ground arith
  seclabel_Sound _ (some (x ∷ xs)) = ground arith

  pub subsystem_Sound : SoundAt key_subsystem
  unfolding by_key Token.subsystem_token log_error log_warning is_op_match
  subsystem_Sound op_match none = ground arith
  subsystem_Sound _ none = ground arith
  subsystem_Sound _ (some []) = ground arith
  subsystem_Sound _ (some (x ∷ xs)) = ground arith

  pub subsystems_Sound : SoundAt key_subsystems
  unfolding by_key Token.plain_match log_error log_warning is_op_match
  subsystems_Sound op_match none = ground arith
  subsystems_Sound _ none = ground arith
  subsystems_Sound _ (some []) = ground arith
  subsystems_Sound _ (some (x ∷ xs)) = ground arith

  pub symlink_Sound : SoundAt key_symlink
  unfolding by_key Token.plain_token log_error log_warning is_op_match
  symlink_Sound op_match none = ground arith
  symlink_Sound _ none = ground arith
  symlink_Sound _ (some []) = ground arith
  symlink_Sound _ (some (x ∷ xs)) = ground arith

  pub sysctl_Sound : SoundAt key_sysctl
  unfolding by_key Token.attr_token log_error log_warning is_op_match
  sysctl_Sound op_match none = ground arith
  sysctl_Sound _ none = ground arith
  sysctl_Sound _ (some []) = ground arith
  sysctl_Sound _ (some (x ∷ xs)) = ground arith

  pub tag_Sound : SoundAt key_tag
  unfolding by_key Token.tag_token log_error log_warning is_op_match
  tag_Sound op_match none = ground arith
  tag_Sound _ none = ground arith
  tag_Sound _ (some []) = ground arith
  tag_Sound _ (some (x ∷ xs)) = ground arith

  pub tags_Sound : SoundAt key_tags
  unfolding by_key Token.plain_token log_error log_warning is_op_match
  tags_Sound op_match none = ground arith
  tags_Sound _ none = ground arith
  tags_Sound _ (some []) = ground arith
  tags_Sound _ (some (x ∷ xs)) = ground arith

  pub test_Sound : SoundAt key_test
  unfolding by_key Token.test_token log_error log_warning is_op_match
  test_Sound op_match none = ground arith
  test_Sound _ none = ground arith
  test_Sound _ (some []) = ground arith
  test_Sound _ (some (x ∷ xs)) = ground arith
