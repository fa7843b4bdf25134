-- ===== src/Udev/Keys.antt =====
-- utils/udev-rules/udev-rules.h: operators, keys, their names and the order of the pairs of a rule.
use make_initrd.Prelude.{
  ℕ, suc, ◌+◌, Bool, true, false, Option, none, some, List, [], ◌∷◌, ◌==◌, ◌||◌, ◌&&◌, ltb,
  if◌then◌else◌, CString, codes, str_eq,
}

pub data Op : Type 0 where
  op_match op_nomatch op_add op_remove op_assign op_assign_final : Op

pub data Key : Type 0 where
  key_action key_attr key_attrs key_const key_devpath key_driver : Key
  key_drivers key_env key_goto key_group key_import key_kernel : Key
  key_kernels key_label key_mode key_name key_options key_owner : Key
  key_program key_result key_run key_seclabel key_subsystem key_subsystems : Key
  key_symlink key_sysctl key_tag key_tags key_test : Key

-- The values of the enumerations.
unfoldable pub op_index : Op → ℕ
op_index op_match = 0
op_index op_nomatch = 1
op_index op_add = 2
op_index op_remove = 3
op_index op_assign = 4
op_index op_assign_final = 5

abbrev pub all_ops : List Op
all_ops = op_match ∷ op_nomatch ∷ op_add ∷ op_remove ∷ op_assign ∷ op_assign_final ∷ []

unfoldable pub key_index : Key → ℕ
key_index key_action = 0
key_index key_attr = 1
key_index key_attrs = 2
key_index key_const = 3
key_index key_devpath = 4
key_index key_driver = 5
key_index key_drivers = 6
key_index key_env = 7
key_index key_goto = 8
key_index key_group = 9
key_index key_import = 10
key_index key_kernel = 11
key_index key_kernels = 12
key_index key_label = 13
key_index key_mode = 14
key_index key_name = 15
key_index key_options = 16
key_index key_owner = 17
key_index key_program = 18
key_index key_result = 19
key_index key_run = 20
key_index key_seclabel = 21
key_index key_subsystem = 22
key_index key_subsystems = 23
key_index key_symlink = 24
key_index key_sysctl = 25
key_index key_tag = 26
key_index key_tags = 27
key_index key_test = 28

abbrev pub all_keys : List Key
all_keys =
    key_action ∷ key_attr ∷ key_attrs ∷ key_const ∷ key_devpath ∷ key_driver ∷ key_drivers ∷ key_env
    ∷ key_goto ∷ key_group ∷ key_import ∷ key_kernel ∷ key_kernels ∷ key_label ∷ key_mode ∷ key_name
    ∷ key_options ∷ key_owner ∷ key_program ∷ key_result ∷ key_run ∷ key_seclabel ∷ key_subsystem
    ∷ key_subsystems ∷ key_symlink ∷ key_sysctl ∷ key_tag ∷ key_tags ∷ key_test ∷ []

unfoldable pub rule_op_name : Op → CString
rule_op_name op_match = codes "=="
rule_op_name op_nomatch = codes "!="
rule_op_name op_add = codes "+="
rule_op_name op_remove = codes "-="
rule_op_name op_assign = codes "="
rule_op_name op_assign_final = codes ":="

unfoldable pub rule_key_name : Key → CString
rule_key_name key_action = codes "ACTION"
rule_key_name key_attr = codes "ATTR"
rule_key_name key_attrs = codes "ATTRS"
rule_key_name key_const = codes "CONST"
rule_key_name key_devpath = codes "DEVPATH"
rule_key_name key_driver = codes "DRIVER"
rule_key_name key_drivers = codes "DRIVERS"
rule_key_name key_env = codes "ENV"
rule_key_name key_goto = codes "GOTO"
rule_key_name key_group = codes "GROUP"
rule_key_name key_import = codes "IMPORT"
rule_key_name key_kernel = codes "KERNEL"
rule_key_name key_kernels = codes "KERNELS"
rule_key_name key_label = codes "LABEL"
rule_key_name key_mode = codes "MODE"
rule_key_name key_name = codes "NAME"
rule_key_name key_options = codes "OPTIONS"
rule_key_name key_owner = codes "OWNER"
rule_key_name key_program = codes "PROGRAM"
rule_key_name key_result = codes "RESULT"
rule_key_name key_run = codes "RUN"
rule_key_name key_seclabel = codes "SECLABEL"
rule_key_name key_subsystem = codes "SUBSYSTEM"
rule_key_name key_subsystems = codes "SUBSYSTEMS"
rule_key_name key_symlink = codes "SYMLINK"
rule_key_name key_sysctl = codes "SYSCTL"
rule_key_name key_tag = codes "TAG"
rule_key_name key_tags = codes "TAGS"
rule_key_name key_test = codes "TEST"

-- `op < _OP_TYPE_IS_ACTION`.
unfoldable pub is_op_match : Op → Bool
unfolding op_index
is_op_match op = ltb (op_index op) 2

abbrev pub key_type_max : ℕ
key_type_max = 29

-- `key + PAIR_OP_MATCH` or `key + PAIR_OP_ACTION`.
unfoldable pub pair_type : Key → Bool → ℕ
unfolding key_index
pair_type key match = key_index key + (if match then 0 else key_type_max)

unfoldable pub rule_pair_prio : List ℕ
unfolding pair_type
rule_pair_prio =
    pair_type key_label false
    ∷ pair_type key_action true
    ∷ pair_type key_devpath true
    ∷ pair_type key_kernel true
    ∷ pair_type key_symlink true
    ∷ pair_type key_name true
    ∷ pair_type key_env true
    ∷ pair_type key_const true
    ∷ pair_type key_tag true
    ∷ pair_type key_subsystem true
    ∷ pair_type key_driver true
    ∷ pair_type key_attr true
    ∷ pair_type key_sysctl true
    ∷ pair_type key_kernels true
    ∷ pair_type key_subsystems true
    ∷ pair_type key_drivers true
    ∷ pair_type key_attrs true
    ∷ pair_type key_tags true
    ∷ pair_type key_test true
    ∷ pair_type key_program true
    ∷ pair_type key_import true
    ∷ pair_type key_result true
    ∷ pair_type key_options false
    ∷ pair_type key_owner false
    ∷ pair_type key_group false
    ∷ pair_type key_mode false
    ∷ pair_type key_tag false
    ∷ pair_type key_seclabel false
    ∷ pair_type key_env false
    ∷ pair_type key_name false
    ∷ pair_type key_symlink false
    ∷ pair_type key_attr false
    ∷ pair_type key_sysctl false
    ∷ pair_type key_run false
    ∷ pair_type key_goto false
    ∷ []

unfoldable pub find_index : ℕ → List ℕ → ℕ → ℕ
find_index t [] i = 0
find_index t (x ∷ xs) i = if x == t then i else find_index t xs (suc i)

-- The position in the table; 0 for what it does not list.
unfoldable pub rule_pair_priority : Key → Op → ℕ
unfolding find_index is_op_match
rule_pair_priority key op = find_index (pair_type key (is_op_match op)) rule_pair_prio 0

-- `rule_pair_cmp` returns the value of `>=`.
unfoldable pub rule_pair_cmp : Key × Op → Key × Op → ℕ
rule_pair_cmp (ka, oa) (kb, ob) =
    if ltb (rule_pair_priority ka oa) (rule_pair_priority kb ob) then 0 else 1

-- The alternatives of the pattern under which the scanner looks for a key.
abbrev pub key_pattern : List CString
key_pattern =
    codes "ACTION"
    ∷ codes "ATTR"
    ∷ codes "ATTRS"
    ∷ codes "CONST"
    ∷ codes "DEVPATH"
    ∷ codes "DRIVER"
    ∷ codes "DRIVERS"
    ∷ codes "ENV"
    ∷ codes "GOTO"
    ∷ codes "GROUP"
    ∷ codes "IMPORT"
    ∷ codes "KERNEL"
    ∷ codes "KERNELS"
    ∷ codes "LABEL"
    ∷ codes "MODE"
    ∷ codes "NAME"
    ∷ codes "OPTIONS"
    ∷ codes "OWNER"
    ∷ codes "PROGRAM"
    ∷ codes "RESULT"
    ∷ codes "RUN"
    ∷ codes "SECLABEL"
    ∷ codes "SUBSYSTEM"
    ∷ codes "SUBSYSTEMS"
    ∷ codes "SYMLINK"
    ∷ codes "SYSCTL"
    ∷ codes "TAG"
    ∷ codes "TAGS"
    ∷ codes "TEST"
    ∷ []

-- The pattern under which it looks for an operator: a colon, an exclamation mark or one of `=+-` before
-- an equals sign, or that alone.
unfoldable pub op_pattern : CString → Bool
op_pattern [] = false
op_pattern (c ∷ []) = c == b'='
op_pattern (c ∷ d ∷ []) =
    (c == b':' || (c == b'!' || (c == b'=' || (c == b'+' || c == b'-')))) && d == b'='
op_pattern (c ∷ d ∷ e ∷ cs) = false

-- What the scanner does with a text under the pattern: the search in the table of names, in the order
-- of the keys. none is the report of an invalid key.
unfoldable pub find_key : CString → List Key → Option Key
find_key text [] = none
find_key text (k ∷ ks) = if str_eq text (rule_key_name k) then some k else find_key text ks

unfoldable pub scan_key : CString → Option Key
unfolding find_key rule_key_name
scan_key text = find_key text all_keys

unfoldable pub find_op : CString → List Op → Option Op
find_op text [] = none
find_op text (o ∷ os) = if str_eq text (rule_op_name o) then some o else find_op text os

unfoldable pub scan_op : CString → Option Op
unfolding find_op rule_op_name
scan_op text = find_op text all_ops
