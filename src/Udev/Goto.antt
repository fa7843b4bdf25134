-- ===== src/Udev/Goto.antt =====
-- utils/udev-rules/udev-goto-label.c: jumps without a label and labels without a jump. A GOTO and a
-- LABEL are the pairs that `process_token` recorded; files are told apart by their number.
use make_initrd.Prelude.{
  ℕ, Bool, true, false, not, ◌&&◌, some, List, [], ◌∷◌, ◌==◌, ltb, leb, if◌then◌else◌, str_eq,
}
use make_initrd.Udev.State.{
  RulePair, RulesState, w_missing_label, w_unused_labels, missing_label, unused_label, log_warning,
}

abbrev pub rec_order : RulePair → ℕ
rec_order r = r.rule_line

-- The inner loop for a GOTO: some label of that name and file stands on a later line.
unfoldable pub goto_found : RulePair → List RulePair → Bool
goto_found g [] = false
goto_found g (l ∷ ls) =
    let rest = goto_found g ls in
    if not (str_eq g.value l.value)
    then rest
    else if not (g.rule_file == l.rule_file)
    then rest
    else if ltb (rec_order g) (rec_order l)
    then true
    else rest

unfoldable pub check_gotos : List RulePair → RulesState → RulesState
check_gotos [] st = st
check_gotos (g ∷ gs) st = check_gotos gs (
    if st.warnings w_missing_label && not (goto_found g st.labels)
    then log_warning g.rule_file g.pos_key missing_label (some w_missing_label) st
    else st)

-- The inner loop for a LABEL: the first jump of that name and file decides.
unfoldable pub label_found : RulePair → List RulePair → Bool
label_found l [] = false
label_found l (g ∷ gs) =
    let rest = label_found l gs in
    if not (g.rule_file == l.rule_file)
    then rest
    else if not (str_eq l.value g.value)
    then rest
    else if leb (rec_order l) (rec_order g)
    then false
    else true

unfoldable pub check_labels : List RulePair → RulesState → RulesState
check_labels [] st = st
check_labels (l ∷ ls) st = check_labels ls (
    if label_found l st.gotos
    then st
    else log_warning l.rule_file l.pos_key unused_label (some w_unused_labels) st)

unfoldable pub check_goto_label : RulesState → RulesState
check_goto_label st =
    let st' = check_gotos st.gotos st in
    if not (st'.warnings w_unused_labels) then st' else check_labels st'.labels st'
