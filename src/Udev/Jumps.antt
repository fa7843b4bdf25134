-- ===== src/Udev/Jumps.antt =====
-- What `check_goto_label` reports.
use make_initrd.Prelude.{
  ◌≤◌, ◌≡◌, refl, sym, ap, ◌∙◌, Bool, true, false, not, ◌&&◌, some, List, [], ◌∷◌, ◌++◌, arith,
  ◌==◌, ltb, if◌then◌else◌, any, str_eq, str_eq_iff, Bool-cases, inl, inr, All,
}
use mathlib.Core.Path.{subst, ap₂}
use mathlib.Core.List.{append_assoc, append-nil}
use make_initrd.Udev.State.{
  RulePair, RulesState, Warn, Diag, warning, w_missing_label, w_unused_labels, missing_label,
  unused_label, log_warning,
}
use make_initrd.Udev.Goto.{
  rec_order, goto_found, check_gotos, label_found, check_labels, check_goto_label,
}

-- The jump goes to this label: same name, same file, on a later line.
abbrev pub jumps_to : RulePair → RulePair → Bool
jumps_to g l =
    str_eq g.value l.value && (g.rule_file == l.rule_file) && ltb (rec_order g) (rec_order l)

pub goto_found_lem : (g : RulePair) (ls : List RulePair) → goto_found g ls ≡ any (jumps_to g) ls
unfolding goto_found
goto_found_lem g [] = refl
goto_found_lem g (l ∷ ls) = ground (arith, goto_found_lem g ls)

abbrev pub missing : RulePair → Diag
missing g = record {
  file = g.rule_file;
  at = g.pos_key;
  message = missing_label;
  severity = warning (some w_missing_label);
}

-- The reports of the jumps for which no label fits, in the order of the jumps.
pub lost : List RulePair → List RulePair → List Diag
lost [] ls = []
lost (g ∷ gs) ls = if any (jumps_to g) ls then lost gs ls else missing g ∷ lost gs ls

-- With -Wmissing-label the first loop reports exactly the jumps that have no label of the same name
-- on a later line of the same file, each once and in order; the labels, the jumps and the options
-- stay.
pub check_gotos_lem :
    (gs : List RulePair) (st : RulesState)
    → st.warnings w_missing_label ≡ true
    → ((check_gotos gs st).log ≡ st.log ++ lost gs st.labels)
      × ((check_gotos gs st).labels ≡ st.labels)
      × ((check_gotos gs st).gotos ≡ st.gotos)
      × ((check_gotos gs st).warnings ≡ st.warnings)
unfolding check_gotos lost log_warning
check_gotos_lem [] st on = (sym (append-nil st.log), refl, refl, refl)
check_gotos_lem (g ∷ gs) st on = elim (Bool-cases (any (jumps_to g) st.labels)) [
  | inl found ↦ rw (on, goto_found_lem g st.labels, found, check_gotos) (check_gotos_lem gs st on)
  | inr gone ↦
      let st' = log_warning g.rule_file g.pos_key missing_label (some w_missing_label) st in
      let (log, labels, gotos, warnings) = check_gotos_lem gs st' on in
      rw (on, goto_found_lem g st.labels, gone, check_gotos)
        (log ∙ append_assoc st.log (missing g ∷ []) (lost gs st.labels), labels, gotos, warnings)
]

-- In the order of parsing, the jumps of one file have lines that do not fall.
unfoldable pub InOrder : List RulePair → Type 0
InOrder [] = Unit
InOrder (g ∷ gs) = All (λ h. g.rule_file ≡ h.rule_file → rec_order g ≤ rec_order h) gs × InOrder gs

late_jumps :
    (l : RulePair) (g : RulePair) (gs : List RulePair)
    → g.rule_file ≡ l.rule_file
    → rec_order l ≤ rec_order g
    → All (λ h. g.rule_file ≡ h.rule_file → rec_order g ≤ rec_order h) gs
    → any (λ h. jumps_to h l) gs ≡ false
late_jumps l g [] e n h = refl
late_jumps l g (x ∷ xs) e n h = ground (arith, late_jumps l g xs e n h.1, h.0)

-- Where the jumps are in the order of parsing, a label is found useful exactly if some jump goes to
-- it, although the loop stops at the first jump of that name and file.
label_found_lem :
    (l : RulePair) (gs : List RulePair) → InOrder gs → label_found l gs ≡ any (λ g. jumps_to g l) gs
unfolding label_found InOrder
label_found_lem l [] h = refl
label_found_lem l (g ∷ gs) h = ground (
  arith,
  label_found_lem l gs h.1,
  late_jumps l g gs,
  str_eq_iff l.value g.value,
  str_eq_iff g.value l.value,
)

abbrev pub idle : RulePair → Diag
idle l = record {
  file = l.rule_file;
  at = l.pos_key;
  message = unused_label;
  severity = warning (some w_unused_labels);
}

-- The reports of the labels to which no jump goes, in the order of the labels.
pub useless : List RulePair → List RulePair → List Diag
useless [] gs = []
useless (l ∷ ls) gs = if any (λ g. jumps_to g l) gs then useless ls gs else idle l ∷ useless ls gs

check_labels_lem :
    (ls : List RulePair) (st : RulesState)
    → InOrder st.gotos
    → (check_labels ls st).log ≡ st.log ++ useless ls st.gotos
unfolding check_labels useless log_warning
check_labels_lem [] st h = sym (append-nil st.log)
check_labels_lem (l ∷ ls) st h = elim (Bool-cases (any (λ g. jumps_to g l) st.gotos)) [
  | inl found ↦ rw (label_found_lem l st.gotos h, found, check_labels) (check_labels_lem ls st h)
  | inr gone ↦
      let st' = log_warning l.rule_file l.pos_key unused_label (some w_unused_labels) st in
      rw (label_found_lem l st.gotos h, gone, check_labels)
        (check_labels_lem ls st' h ∙ append_assoc st.log (idle l ∷ []) (useless ls st.gotos))
]

not_skipped : (b : Bool) (x y : RulesState) → b ≡ true → (if not b then x else y) ≡ y
not_skipped b x y e = rw e

-- With both warnings on, and the jumps in the order of parsing, `check_goto_label` adds to the log
-- exactly one report for each jump that goes to no label and then one for each label to which no
-- jump goes; a jump goes to a label of the same name on a later line of the same file.
pub check_goto_label_lem :
    (st : RulesState)
    → st.warnings w_missing_label ≡ true
    → st.warnings w_unused_labels ≡ true
    → InOrder st.gotos
    → (check_goto_label st).log ≡ st.log ++ lost st.gotos st.labels ++ useless st.labels st.gotos
unfolding check_goto_label
check_goto_label_lem st missing_on unused_on h =
    let (log, labels, gotos, warnings) = check_gotos_lem st.gotos st missing_on in
    let st' = check_gotos st.gotos st in
    ap (λ (s : RulesState). s.log)
      (not_skipped (st'.warnings w_unused_labels) st' (check_labels st'.labels st')
        (ap (λ (w : Warn → Bool). w w_unused_labels) warnings ∙ unused_on))
    ∙ check_labels_lem st'.labels st' (subst InOrder (sym gotos) h)
    ∙ ap₂ (λ xs ys. xs ++ ys) log (ap₂ useless labels gotos)
