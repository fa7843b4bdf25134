-- ===== src/Udev/Token/Handlers.antt =====
-- utils/udev-rules/udev-rules-parser.y: the cases of `process_token`. `is_match` is computed before a
-- handler changes the operator.
use make_initrd.Prelude.{
  Bool, not, ◌&&◌, ◌||◌, Option, none, some, List, [], ◌∷◌, ◌++◌, if◌then◌else◌, CString, codes,
  str_eq,
}
use make_initrd.Udev.Keys.{op_match, op_add, op_remove, op_assign, op_assign_final}
use make_initrd.Udev.UdevString.{new_string, string_append_str}
use make_initrd.Udev.State.{
  unknown_attr, subsystem_name, env_readonly, name_percent_k, name_empty, external_import,
  external_program, external_run,
}
use make_initrd.Udev.Token.Steps.{
  Token, ◌>>=◌, ◌▹◌, is_blank, has_op, key_at, op_at, value_at, in_list, remark, when, set_op,
  no_attr, need_attr, reject_op, no_remove, replace_op, with_attr, print_external,
}

-- ACTION, DEVPATH, DRIVER, DRIVERS, KERNEL, KERNELS, SUBSYSTEMS
unfoldable pub plain_match : Bool → Token → Token
unfolding no_attr reject_op
plain_match is_match t = t ▹ no_attr ▹ reject_op (not is_match)

-- ATTR, SYSCTL
unfoldable pub attr_token : Token → Token
unfolding need_attr no_remove replace_op
attr_token t = t ▹ need_attr ▹ no_remove ▹ λ u.
    replace_op (has_op op_add u || has_op op_assign_final u) op_at u

unfoldable pub attrs_token : Bool → Token → Token
unfolding need_attr reject_op
attrs_token is_match t = t ▹ need_attr ▹ reject_op (not is_match)

unfoldable pub unknown : List CString → CString → Token → Token
unfolding when in_list remark
unknown names a t = when (not (in_list a names)) (remark key_at unknown_attr) t

abbrev pub const_names : List CString
const_names = codes "arch" ∷ codes "virt" ∷ []

unfoldable pub const_token : Bool → Token → Option Token
unfolding need_attr with_attr unknown reject_op
const_token is_match t =
    with_attr (unknown const_names) (need_attr t) >>= λ u. some (reject_op (not is_match) u)

unfoldable pub warn_subsystem : Token → Token
unfolding when in_list remark
warn_subsystem t =
    when (in_list t.pair.value (codes "bus" ∷ codes "class" ∷ [])) (remark value_at subsystem_name)
      t

unfoldable pub subsystem_token : Bool → Token → Token
unfolding plain_match warn_subsystem
subsystem_token is_match t = t ▹ plain_match is_match ▹ warn_subsystem

abbrev pub env_names : List CString
env_names =
    codes "ACTION"
    ∷ codes "DEVLINKS"
    ∷ codes "DEVNAME"
    ∷ codes "DEVPATH"
    ∷ codes "DEVTYPE"
    ∷ codes "DRIVER"
    ∷ codes "IFINDEX"
    ∷ codes "MAJOR"
    ∷ codes "MINOR"
    ∷ codes "SEQNUM"
    ∷ codes "SUBSYSTEM"
    ∷ codes "TAGS"
    ∷ []

unfoldable pub readonly : CString → Token → Token
unfolding when in_list remark
readonly a t = when (in_list a env_names) (remark key_at env_readonly) t

unfoldable pub env_token : Bool → Token → Option Token
unfolding need_attr no_remove replace_op with_attr readonly
env_token is_match t =
    let u = t ▹ need_attr ▹ no_remove ▹ λ v. replace_op (has_op op_assign_final v) key_at v in
    if is_match then some u else with_attr readonly u

unfoldable pub goto_token : Token → Token
unfolding no_attr reject_op
goto_token t = t ▹ no_attr ▹ (λ u. reject_op (not (has_op op_assign u)) u) ▹ λ u. record u {
  state = record u.state { gotos = u.state.gotos ++ u.pair ∷ [] };
}

unfoldable pub label_token : Token → Token
unfolding no_attr reject_op
label_token t = t ▹ no_attr ▹ (λ u. reject_op (not (has_op op_assign u)) u) ▹ λ u. record u {
  state = record u.state { labels = u.state.labels ++ u.pair ∷ [] };
}

-- OWNER, GROUP, MODE, OPTIONS
unfoldable pub owner_token : Bool → Token → Token
unfolding no_attr reject_op when set_op
owner_token is_match t = t ▹ no_attr ▹ (λ u. reject_op (is_match || has_op op_remove u) u) ▹ λ u.
    when (has_op op_add u) (set_op op_assign) u

abbrev pub external_imports : List CString
external_imports = codes "file" ∷ codes "program" ∷ codes "builtin" ∷ []

abbrev pub import_names : List CString
import_names = external_imports ++ codes "db" ∷ codes "cmdline" ∷ codes "parent" ∷ []

unfoldable pub show_import : CString → Token → Token
unfolding when in_list print_external
show_import a t =
    when (t.state.show_external && in_list a external_imports) (print_external external_import a) t

unfoldable pub check_import : CString → Token → Token
unfolding unknown show_import
check_import a t = t ▹ unknown import_names a ▹ show_import a

unfoldable pub import_token : Bool → Token → Option Token
unfolding need_attr no_remove when set_op with_attr check_import
import_token is_match t =
    let u = t ▹ need_attr ▹ no_remove ▹ when (not is_match) (set_op op_match) in
    with_attr check_import u

unfoldable pub warn_percent_k : Bool → Token → Token
unfolding when remark
warn_percent_k is_match t =
    when (not is_match && str_eq t.pair.value (codes "%k")) (remark key_at name_percent_k) t

unfoldable pub warn_empty_name : Bool → Token → Token
unfolding when remark
warn_empty_name is_match t =
    when (not is_match && is_blank t.pair.value) (remark key_at name_empty) t

unfoldable pub name_token : Bool → Token → Token
unfolding no_attr no_remove replace_op warn_percent_k warn_empty_name
name_token is_match t =
    t
    ▹ no_attr
    ▹ no_remove
    ▹ (λ u. replace_op (has_op op_add u) op_at u)
    ▹ warn_percent_k is_match
    ▹ warn_empty_name is_match

unfoldable pub program_token : Bool → Token → Token
unfolding no_attr no_remove when set_op print_external
program_token is_match t = t ▹ no_attr ▹ no_remove ▹ when (not is_match) (set_op op_match) ▹ λ u.
    when u.state.show_external (print_external external_program (codes "program")) u

-- RESULT, SYMLINK, TAGS
unfoldable pub plain_token : Token → Token
unfolding no_attr
plain_token t = no_attr t

unfoldable pub default_attr : Option CString → CString
unfolding new_string string_append_str
default_attr none = (string_append_str new_string (codes "program") 7).text
default_attr (some a) = a

abbrev pub run_names : List CString
run_names = codes "builtin" ∷ codes "program" ∷ []

unfoldable pub set_attr : CString → Token → Token
set_attr attr t = record t { pair = record t.pair { attr = some attr } }

unfoldable pub show_run : CString → Token → Token
unfolding when print_external
show_run attr t = when t.state.show_external (print_external external_run attr) t

unfoldable pub run_token : Bool → Token → Token
unfolding default_attr set_attr reject_op unknown show_run
run_token is_match t =
    let attr = default_attr t.pair.attr in
    t
    ▹ set_attr attr
    ▹ (λ u. reject_op (is_match || has_op op_remove u) u)
    ▹ unknown run_names attr
    ▹ show_run attr

unfoldable pub seclabel_token : Bool → Token → Token
unfolding need_attr reject_op replace_op
seclabel_token is_match t =
    t ▹ need_attr ▹ (λ u. reject_op (is_match || has_op op_remove u) u) ▹ λ u.
    replace_op (has_op op_assign_final u) key_at u

unfoldable pub tag_token : Token → Token
unfolding no_attr replace_op
tag_token t = t ▹ no_attr ▹ λ u. replace_op (has_op op_assign_final u) key_at u

unfoldable pub test_token : Bool → Token → Token
unfolding reject_op
test_token is_match t = reject_op (not is_match) t
