-- ===== src/Udev/Tables.antt =====
-- The tables of keys, operators and warnings.
use make_initrd.Prelude.{
  ◌≡◌, refl, ap, ◌∙◌, Bool, true, false, not, Option, none, some, List, [], ◌∷◌, ◌++◌, arith, ◌==◌,
  if◌then◌else◌, any, CString, codes, str_eq, get_or,
}
use mathlib.Core.Path.{fun_ext}
use make_initrd.Udev.Keys.{
  Key, Op, key_index, all_keys, all_ops, rule_key_name, rule_op_name, key_pattern, op_pattern,
  find_key, find_op, scan_key, scan_op,
}
use make_initrd.Udev.State.{Warn, w_error, warn_index}
use make_initrd.Udev.Options.{set_warning, warning_str}

abbrev pub is_some {ℓ} : {A : Type ℓ} → Option A → Bool
is_some none = false
is_some (some a) = true

find-key :
    (t : CString) (ks : List Key)
    → is_some (find_key t ks) ≡ any (λ k. str_eq t (rule_key_name k)) ks
unfolding find_key
find-key t [] = refl
find-key t (k ∷ ks) = ground (arith, find-key t ks)

find-op :
    (t : CString) (os : List Op) → is_some (find_op t os) ≡ any (λ o. str_eq t (rule_op_name o)) os
unfolding find_op
find-op t [] = refl
find-op t (o ∷ os) = ground (arith, find-op t os)

key_names :
    (t : CString) → any (λ k. str_eq t (rule_key_name k)) all_keys ≡ any (str_eq t) key_pattern
unfolding rule_key_name
key_names t = refl

op_names : (t : CString) → any (λ o. str_eq t (rule_op_name o)) all_ops ≡ op_pattern t
unfolding rule_op_name op_pattern str_eq
op_names [] = refl
op_names (c ∷ []) = ground arith
op_names (c ∷ d ∷ []) = ground arith
op_names (c ∷ d ∷ e ∷ cs) = ground arith

key_in_place : (k : Key) → scan_key (get_or key_pattern (key_index k) []) ≡ some k
unfolding scan_key find_key rule_key_name key_index str_eq
key_in_place Key.key_action = refl
key_in_place Key.key_attr = refl
key_in_place Key.key_attrs = refl
key_in_place Key.key_const = refl
key_in_place Key.key_devpath = refl
key_in_place Key.key_driver = refl
key_in_place Key.key_drivers = refl
key_in_place Key.key_env = refl
key_in_place Key.key_goto = refl
key_in_place Key.key_group = refl
key_in_place Key.key_import = refl
key_in_place Key.key_kernel = refl
key_in_place Key.key_kernels = refl
key_in_place Key.key_label = refl
key_in_place Key.key_mode = refl
key_in_place Key.key_name = refl
key_in_place Key.key_options = refl
key_in_place Key.key_owner = refl
key_in_place Key.key_program = refl
key_in_place Key.key_result = refl
key_in_place Key.key_run = refl
key_in_place Key.key_seclabel = refl
key_in_place Key.key_subsystem = refl
key_in_place Key.key_subsystems = refl
key_in_place Key.key_symlink = refl
key_in_place Key.key_sysctl = refl
key_in_place Key.key_tag = refl
key_in_place Key.key_tags = refl
key_in_place Key.key_test = refl

-- A text is found among the names of the keys exactly if it is an alternative of the pattern under which
-- the scanner looks there, and among those of the operators exactly if it has the form of their pattern:
-- under the patterns no text is reported as invalid, and no name is out of the scanner's reach. Each key
-- is read from the alternative at its own place in the pattern.
pub scanner_complete :
    (t : CString) (k : Key)
    → (is_some (scan_key t) ≡ any (str_eq t) key_pattern)
      × (is_some (scan_op t) ≡ op_pattern t)
      × (scan_key (get_or key_pattern (key_index k) []) ≡ some k)
unfolding scan_key scan_op
scanner_complete t k =
    (find-key t all_keys ∙ key_names t, find-op t all_ops ∙ op_names t, key_in_place k)

named :
    (w : Warn) (ws : Warn → Bool)
    → set_warning (warning_str w) ws
      ≡ some (λ v. if warn_index w == warn_index v then true else ws v)
unfolding set_warning str_eq
named w_error ws = refl
named _ ws = refl

no_named :
    (w : Warn) (ws : Warn → Bool)
    → set_warning (codes "no-" ++ warning_str w) ws
      ≡ some (λ v. if warn_index w == warn_index v then false else ws v)
unfolding set_warning str_eq
no_named w_error ws = refl
no_named _ ws = refl

-- `-W` with the name of a warning turns that warning on and no other, with `no-` before it off and no
-- other; `-Wall` turns all warnings on and `-Wno-all` off, and both turn -Werror off.
pub set_warning_lem :
    (w : Warn) (ws : Warn → Bool)
    → (set_warning (warning_str w) ws
        ≡ some (λ v. if warn_index w == warn_index v then true else ws v))
      × (set_warning (codes "no-" ++ warning_str w) ws
          ≡ some (λ v. if warn_index w == warn_index v then false else ws v))
      × (set_warning (codes "all") ws ≡ some (λ v. not (0 == warn_index v)))
      × (set_warning (codes "no-all") ws ≡ some (λ v. false))
unfolding set_warning str_eq
set_warning_lem w ws = (
  named w ws,
  no_named w ws,
  ap some (fun_ext λ v. ground arith),
  ap some (fun_ext λ v. ground arith),
)
