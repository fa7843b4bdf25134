-- ===== src/Udev/State.antt =====
-- utils/udev-rules: `struct rules_state`, the pairs of a rule, and how a finding is reported
-- (udev-rules.h and the logging functions of udev-rules-parser.y). A text on stderr is a `Diag` in
-- `log`, a line on stdout an `External` in `output`. A pair has the `line_nr` and the file of the
-- rule that it points to; files are told apart by a number, as the C code does by address.
use make_initrd.Prelude.{
  ℕ, suc, Bool, true, false, Option, none, some, List, [], ◌∷◌, ◌++◌, ◌==◌, if◌then◌else◌, CString,
}
use make_initrd.Udev.Keys.{Key, Op}

pub data Warn : Type 0 where
  w_error w_missing_label w_unused_labels w_dup_match w_conflict_match : Warn
  w_incomplete_rules w_multi_label w_multi_goto : Warn

abbrev pub warn_index : Warn → ℕ
warn_index w_error = 0
warn_index w_missing_label = 1
warn_index w_unused_labels = 2
warn_index w_dup_match = 3
warn_index w_conflict_match = 4
warn_index w_incomplete_rules = 5
warn_index w_multi_label = 6
warn_index w_multi_goto = 7

pub record Pos : Type 0 where
  pub line : ℕ
  pub column : ℕ

pub record RulePair : Type 0 where
  pub pos_key : Pos
  pub pos_op : Pos
  pub pos_value : Pos
  pub key : Key
  pub op : Op
  pub attr : Option CString
  pub value : CString
  pub rule_line : ℕ
  pub rule_file : ℕ

pub data Message : Type 0 where
  invalid_attr invalid_op contradict dup_match conflict_match multi_label multi_goto : Message
  incomplete interleaved wrong_op unknown_attr subsystem_name env_readonly name_percent_k : Message
  name_empty missing_label unused_label syntax_error : Message

-- An error, or a warning with the argument of `warning_update_retcode` (none for -1).
pub data Severity : Type 0 where
  error : Severity
  warning : Option Warn → Severity

pub record Diag : Type 0 where
  pub file : ℕ
  pub at : Pos
  pub message : Message
  pub severity : Severity

pub data ExternalKind : Type 0 where
  external_import external_program external_run : ExternalKind

pub record External : Type 0 where
  pub kind : ExternalKind
  pub at : Pos
  pub attr : CString
  pub value : CString

pub record Rule : Type 0 where
  pub pairs : List RulePair
  pub line_nr : ℕ
  pub file : ℕ

pub record RulesState : Type 0 where
  pub rules : List Rule
  pub gotos : List RulePair
  pub labels : List RulePair
  pub global_rule_nr : ℕ
  pub file_rules_nr : ℕ
  pub cur_file : ℕ
  pub cur_rule : Option Rule
  pub warnings : Warn → Bool
  pub warning_summary : Warn → ℕ
  pub show_external : Bool
  pub retcode : ℕ
  pub log : List Diag
  pub output : List External

-- `yyerror`, `rule_log_invalid_attr` and `rule_log_invalid_op` set `retcode` to 1.
unfoldable pub log_error : ℕ → Pos → Message → RulesState → RulesState
log_error file at message st = record st {
  retcode = 1;
  log = st.log ++ record { file = file; at = at; message = message; severity = error } ∷ [];
}

abbrev pub bit : Bool → ℕ
bit true = 1
bit false = 0

unfoldable pub bump_summary : Option Warn → (Warn → ℕ) → Warn → ℕ
bump_summary none f v = f v
bump_summary (some w_error) f v = f v
bump_summary (some w) f v = if warn_index w == warn_index v then suc (f v) else f v

unfoldable pub warning_update_retcode : Option Warn → RulesState → RulesState
unfolding bump_summary
warning_update_retcode warn st = record st {
  retcode = if st.retcode == 0 then bit (st.warnings w_error) else st.retcode;
  warning_summary = bump_summary warn st.warning_summary;
}

-- A `warnx` and the `warning_update_retcode` behind it.
unfoldable pub log_warning : ℕ → Pos → Message → Option Warn → RulesState → RulesState
unfolding warning_update_retcode
log_warning file at message warn st = warning_update_retcode warn (record st {
  log = st.log ++ record { file = file; at = at; message = message; severity = warning warn } ∷ [];
})
