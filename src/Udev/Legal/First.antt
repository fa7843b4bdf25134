-- ===== src/Udev/Legal/First.antt =====
-- A handler of `process_token` that leaves the exit status at 0 leaves a legal pair: the keys up to LABEL and MODE.
use make_initrd.Prelude.{ℕ, Option, none, some, [], ◌∷◌, arith, CString}
use make_initrd.Udev.Keys.{
  Key, Op, op_match, is_op_match, key_action, key_attr, key_attrs, key_const, key_devpath,
  key_driver, key_drivers, key_env, key_goto, key_group, key_import, key_kernel, key_kernels,
  key_label, key_mode,
}
use make_initrd.Udev.State.{Pos, RulesState, log_error, log_warning}
use make_initrd.Udev.Token
use make_initrd.Udev.Token.{Token, by_key, process_token, is_missing, is_given}
use make_initrd.Udev.Legal.{Sound, token}

module _ (st : RulesState) (pk po pv : Pos) (value : CString) (line file : ℕ) where
  abbrev pub SoundAt : Key → Type 0
  SoundAt k =
      (op : Op) (a : Option CString)
      → Sound (by_key k (is_op_match op) (token st pk po pv value line file k op a))

  pub action_Sound : SoundAt key_action
  unfolding by_key Token.plain_match log_error log_warning is_op_match
  action_Sound op_match none = ground arith
  action_Sound _ none = ground arith
  action_Sound _ (some []) = ground arith
  action_Sound _ (some (x ∷ xs)) = ground arith

  pub attr_Sound : SoundAt key_attr
  unfolding by_key Token.attr_token log_error log_warning is_op_match
  attr_Sound op_match none = ground arith
  attr_Sound _ none = ground arith
  attr_Sound _ (some []) = ground arith
  attr_Sound _ (some (x ∷ xs)) = ground arith

  pub attrs_Sound : SoundAt key_attrs
  unfolding by_key Token.attrs_token log_error log_warning is_op_match
  attrs_Sound op_match none = ground arith
  attrs_Sound _ none = ground arith
  attrs_Sound _ (some []) = ground arith
  attrs_Sound _ (some (x ∷ xs)) = ground arith

  pub const_Sound : SoundAt key_const
  unfolding by_key Token.const_token log_error log_warning is_op_match
  const_Sound op_match none = ground arith
  const_Sound _ none = ground arith
  const_Sound _ (some []) = ground arith
  const_Sound _ (some (x ∷ xs)) = ground arith

  pub devpath_Sound : SoundAt key_devpath
  unfolding by_key Token.plain_match log_error log_warning is_op_match
  devpath_Sound op_match none = ground arith
  devpath_Sound _ none = ground arith
  devpath_Sound _ (some []) = ground arith
  devpath_Sound _ (some (x ∷ xs)) = ground arith

  pub driver_Sound : SoundAt key_driver
  unfolding by_key Token.plain_match log_error log_warning is_op_match
  driver_Sound op_match none = ground arith
  driver_Sound _ none = ground arith
  driver_Sound _ (some []) = ground arith
  driver_Sound _ (some (x ∷ xs)) = ground arith

  pub drivers_Sound : SoundAt key_drivers
  unfolding by_key Token.plain_match log_error log_warning is_op_match
  drivers_Sound op_match none = ground arith
  drivers_Sound _ none = ground arith
  drivers_Sound _ (some []) = ground arith
  drivers_Sound _ (some (x ∷ xs)) = ground arith

  pub env_Sound : SoundAt key_env
  unfolding by_key Token.env_token log_error log_warning is_op_match
  env_Sound op_match none = ground arith
  env_Sound _ none = ground arith
  env_Sound _ (some []) = ground arith
  env_Sound _ (some (x ∷ xs)) = ground arith

  pub goto_Sound : SoundAt key_goto
  unfolding by_key Token.goto_token log_error log_warning is_op_match
  goto_Sound op_match none = ground arith
  goto_Sound _ none = ground arith
  goto_Sound _ (some []) = ground arith
  goto_Sound _ (some (x ∷ xs)) = ground arith

  pub group_Sound : SoundAt key_group
  unfolding by_key Token.owner_token log_error log_warning is_op_match
  group_Sound op_match none = ground arith
  group_Sound _ none = ground arith
  group_Sound _ (some []) = ground arith
  group_Sound _ (some (x ∷ xs)) = ground arith

  pub import_Sound : SoundAt key_import
  unfolding by_key Token.import_token log_error log_warning is_op_match
  import_Sound op_match none = ground arith
  import_Sound _ none = ground arith
  import_Sound _ (some []) = ground arith
  import_Sound _ (some (x ∷ xs)) = ground arith

  pub kernel_Sound : SoundAt key_kernel
  unfolding by_key Token.plain_match log_error log_warning is_op_match
  kernel_Sound op_match none = ground arith
  kernel_Sound _ none = ground arith
  kernel_Sound _ (some []) = ground arith
  kernel_Sound _ (some (x ∷ xs)) = ground arith

  pub kernels_Sound : SoundAt key_kernels
  unfolding by_key Token.plain_match log_error log_warning is_op_match
  kernels_Sound op_match none = ground arith
  kernels_Sound _ none = ground arith
  kernels_Sound _ (some []) = ground arith
  kernels_Sound _ (some (x ∷ xs)) = ground arith

  pub label_Sound : SoundAt key_label
  unfolding by_key Token.label_token log_error log_warning is_op_match
  label_Sound op_match none = ground arith
  label_Sound _ none = ground arith
  label_Sound _ (some []) = ground arith
  label_Sound _ (some (x ∷ xs)) = ground arith

  pub mode_Sound : SoundAt key_mode
  unfolding by_key Token.owner_token log_error log_warning is_op_match
  mode_Sound op_match none = ground arith
  mode_Sound _ none = ground arith
  mode_Sound _ (some []) = ground arith
  mode_Sound _ (some (x ∷ xs)) = ground arith
