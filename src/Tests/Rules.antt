-- ===== src/Tests/Rules.antt =====
-- The theorems on udev-rules at a few pairs.
use make_initrd.Prelude.{
  ℕ, ◌≡◌, refl, true, false, not, none, some, [], ◌∷◌, ◌++◌, codes, arith, CString, take,
  if◌then◌else◌, ◌==◌, any, str_eq, get_or,
}
use make_initrd.Udev.Keys.{
  Key, Op, op_match, op_assign, key_kernel, key_goto, key_label, key_import, key_index, is_op_match,
  scan_key, scan_op, key_pattern, op_pattern,
}
use make_initrd.Udev.State.{
  Pos, RulePair, RulesState, w_dup_match, warn_index, error, syntax_error, log_error,
}
use make_initrd.Udev.UdevString.{
  new_string, string_append_str, string_append_chr, Fits, append-Fits,
}
use make_initrd.Udev.Token.{Token, process_token, plain_match}
use make_initrd.Udev.Checks.{check_multi_goto_label, check_match_conditions, match_loop}
use make_initrd.Udev.Rules.{syntax, rules_readfile, read_file, rules_parse, run_action}
use make_initrd.Udev.Goto.{check_goto_label, check_gotos}
use make_initrd.Udev.Options.{
  read_options, check_inputs, read_inputs, read_input, regular, going, initial, udev_rules_main,
  set_warning, warning_str,
}
use make_initrd.Udev.Reports.{Accurate, main-Accurate}
use make_initrd.Udev.Jumps.{InOrder, lost, useless, check_goto_label_lem}
use make_initrd.Udev.Legal.{is_legal}
use make_initrd.Udev.Legal.Process.{process_token_legal}
use make_initrd.Udev.Legal.Faults.{is_fault, null_read, process_token_faults}
use make_initrd.Udev.Tables.{is_some, scanner_complete, set_warning_lem}

abbrev at : ℕ → Pos
at n = record { line = n; column = 1 }

abbrev pair_at : ℕ → Key → Op → CString → RulePair
pair_at n k o v = record {
  pos_key = at n;
  pos_op = at n;
  pos_value = at n;
  key = k;
  op = o;
  attr = none;
  value = v;
  rule_line = n;
  rule_file = 1;
}

abbrev kernel : RulePair
kernel = pair_at 1 key_kernel op_match (codes "sda")

abbrev import_pair : RulePair
import_pair = pair_at 1 key_import op_match (codes "x")

abbrev kernel_token : Token
kernel_token = record { state = initial; pair = kernel }

taken : process_token [] kernel_token ≡ some kernel_token
unfolding process_token check_multi_goto_label plain_match check_match_conditions is_op_match
    match_loop
taken = refl

process_token_legal_example : is_legal key_kernel none op_match ≡ true
process_token_legal_example = process_token_legal [] kernel_token kernel_token taken refl

process_token_faults_example :
    is_fault (process_token [] (record { state = initial; pair = import_pair }))
    ≡ null_read key_import true none
process_token_faults_example =
    process_token_faults [] (record { state = initial; pair = import_pair })

abbrev jump : RulePair
jump = pair_at 2 key_goto op_assign (codes "end")

abbrev label : RulePair
label = pair_at 5 key_label op_assign (codes "end")

abbrev all_on : RulesState
all_on = record initial { warnings = λ w. true; gotos = jump ∷ []; labels = label ∷ label ∷ [] }

one-InOrder : InOrder (jump ∷ [])
unfolding InOrder
one-InOrder = (tt, tt)

check_goto_label_lem_example :
    (check_goto_label all_on).log
    ≡ [] ++ lost (jump ∷ []) (label ∷ label ∷ []) ++ useless (label ∷ label ∷ []) (jump ∷ [])
check_goto_label_lem_example = check_goto_label_lem all_on refl refl one-InOrder

append-Fits_example :
    Fits (string_append_str new_string (codes "udev") 3)
    × ((string_append_str new_string (codes "udev") 3).text
        ≡ new_string.text ++ take 3 (codes "udev"))
    × Fits (string_append_chr new_string b'x')
    × ((string_append_chr new_string b'x').text ≡ new_string.text ++ b'x' ∷ [])
append-Fits_example = append-Fits new_string (codes "udev") 3 b'x' (omega arith)

scanner_complete_example :
    (is_some (scan_key (codes "LABEL")) ≡ any (str_eq (codes "LABEL")) key_pattern)
    × (is_some (scan_op (codes "LABEL")) ≡ op_pattern (codes "LABEL"))
    × (scan_key (get_or key_pattern (key_index key_goto) []) ≡ some key_goto)
scanner_complete_example = scanner_complete (codes "LABEL") key_goto

set_warning_lem_example :
    (set_warning (warning_str w_dup_match) (λ v. false)
      ≡ some (λ v. if warn_index w_dup_match == warn_index v then true else false))
    × (set_warning (codes "no-" ++ warning_str w_dup_match) (λ v. false)
        ≡ some (λ v. if warn_index w_dup_match == warn_index v then false else false))
    × (set_warning (codes "all") (λ v. false) ≡ some (λ v. not (0 == warn_index v)))
    × (set_warning (codes "no-all") (λ v. false) ≡ some (λ v. false))
set_warning_lem_example = set_warning_lem w_dup_match (λ v. false)

abbrev ended : RulesState
ended = record initial {
  cur_file = 1;
  retcode = 1;
  log = record { file = 1; at = at 3; message = syntax_error; severity = error } ∷ [];
}

broken : udev_rules_main (λ ps. ps) [] (regular (some (syntax (at 3) ∷ [])) ∷ []) ≡ going ended
unfolding udev_rules_main read_options check_inputs read_inputs read_input read_file rules_readfile
    rules_parse check_goto_label check_gotos run_action log_error
broken = refl

main-Accurate_example : Accurate ended
main-Accurate_example =
    main-Accurate (λ ps. ps) [] (regular (some (syntax (at 3) ∷ [])) ∷ []) ended broken
