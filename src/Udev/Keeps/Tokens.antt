-- ===== src/Udev/Keeps/Tokens.antt =====
-- Invariants of the checker's state are kept: the checks of a pair.
use make_initrd.Prelude.{
  refl, Bool, true, false, not, Option, none, some, List, if◌then◌else◌, if_both, CString,
}
use make_initrd.Udev.Keys
use make_initrd.Udev.Keys.{Key, Op}
use make_initrd.Udev.State.{Pos, RulePair, RulesState, Message, ExternalKind}
use make_initrd.Udev.Token
use make_initrd.Udev.Token.{Token, ◌▹◌, by_key, check_pair, process_token}
use make_initrd.Udev.Keeps.{Closed, SameReports}

pub record Holds (P : RulesState → Type 0) (t : Token) : Type 0 where
  pub holds : P t.state

abbrev pub MaybeToken : (RulesState → Type 0) → Option Token → Type 0
MaybeToken P none = Unit
MaybeToken P (some t) = Holds P t

module _ (P : RulesState → Type 0) (c : Closed P) where
  abbrev pub Keeps : (Token → Token) → Type 0
  Keeps f = (t : Token) → Holds P t → Holds P (f t)

  pub keep_when : (b : Bool) (f : Token → Token) → Keeps f → Keeps (Token.when b f)
  unfolding Token.when
  keep_when true f k t h = k t h
  keep_when false f k t h = h

  pub same-Holds : (t u : Token) → SameReports t.state u.state → Holds P t → Holds P u
  same-Holds t u e h = record { holds = c.on_same t.state u.state e h.holds }

  pub keep_invalid_attr : Keeps Token.rule_log_invalid_attr
  unfolding Token.rule_log_invalid_attr
  keep_invalid_attr t h = record { holds = c.on_error _ _ _ t.state h.holds }

  pub keep_invalid_op : Keeps Token.rule_log_invalid_op
  unfolding Token.rule_log_invalid_op
  keep_invalid_op t h = record { holds = c.on_error _ _ _ t.state h.holds }

  pub keep_remark : (at : RulePair → Pos) (m : Message) → Keeps (Token.remark at m)
  unfolding Token.remark
  keep_remark at m t h = record { holds = c.on_warning _ _ _ _ t.state h.holds }

  pub keep_set_op : (op : Op) → Keeps (Token.set_op op)
  unfolding Token.set_op
  keep_set_op op t h = record { holds = h.holds }

  pub keep_print : (k : ExternalKind) (a : CString) → Keeps (Token.print_external k a)
  unfolding Token.print_external
  keep_print k a t h =
      same-Holds t _ (record { retcode = refl; log = refl; warnings = refl; summary = refl }) h

  pub keep_no_attr : Keeps Token.no_attr
  unfolding Token.no_attr
  keep_no_attr t h = keep_when (Token.is_given t.pair.attr) _ keep_invalid_attr t h

  pub keep_need_attr : Keeps Token.need_attr
  unfolding Token.need_attr
  keep_need_attr t h = keep_when (Token.is_missing t.pair.attr) _ keep_invalid_attr t h

  pub keep_reject : (bad : Bool) → Keeps (Token.reject_op bad)
  unfolding Token.reject_op
  keep_reject bad t h = keep_when bad _ keep_invalid_op t h

  pub keep_no_remove : Keeps Token.no_remove
  unfolding Token.no_remove
  keep_no_remove t h = keep_reject (Token.has_op Keys.op_remove t) t h

  pub keep_replace : (bad : Bool) (at : RulePair → Pos) → Keeps (Token.replace_op bad at)
  unfolding Token.replace_op
  keep_replace bad at t h =
      keep_when bad _ (λ u k. keep_set_op Keys.op_assign _ (keep_remark at _ u k)) t h

  some_or_fault :
      (o : Option CString) (f : CString → Token → Token) (t : Token)
      → ((a : CString) → Keeps (f a))
      → Holds P t
      → MaybeToken P (elim o [ none ↦ none | some a ↦ some (f a t) ])
  some_or_fault none f t k h = tt
  some_or_fault (some a) f t k h = k a t h

  pub keep_with_attr :
      (f : CString → Token → Token) (t : Token)
      → ((a : CString) → Keeps (f a))
      → Holds P t
      → MaybeToken P (Token.with_attr f t)
  unfolding Token.with_attr
  keep_with_attr f t k h = some_or_fault t.pair.attr f t k h

  pub keep_unknown : (names : List CString) (a : CString) → Keeps (Token.unknown names a)
  unfolding Token.unknown
  keep_unknown names a t h =
      keep_when (not (Token.in_list a names)) _ (keep_remark Token.key_at _) t h

  pub keep_plain_match : (m : Bool) → Keeps (Token.plain_match m)
  unfolding Token.plain_match
  keep_plain_match m t h = keep_reject (not m) _ (keep_no_attr t h)

  pub keep_attr_token : Keeps Token.attr_token
  unfolding Token.attr_token
  keep_attr_token t h = keep_replace _ _ _ (keep_no_remove _ (keep_need_attr t h))

  pub keep_attrs_token : (m : Bool) → Keeps (Token.attrs_token m)
  unfolding Token.attrs_token
  keep_attrs_token m t h = keep_reject (not m) _ (keep_need_attr t h)

  pub then_keep :
      (o : Option Token) (f : Token → Token)
      → Keeps f
      → MaybeToken P o
      → MaybeToken P (Token.◌>>=◌ o (λ u. some (f u)))
  then_keep none f k h = tt
  then_keep (some t) f k h = k t h

  pub keep_const_token : (m : Bool) (t : Token) → Holds P t → MaybeToken P (Token.const_token m t)
  unfolding Token.const_token
  keep_const_token m t h =
      then_keep (Token.with_attr (Token.unknown Token.const_names) (Token.need_attr t))
        (Token.reject_op (not m)) (keep_reject (not m))
        (keep_with_attr _ _ (keep_unknown Token.const_names) (keep_need_attr t h))

  pub keep_warn_subsystem : Keeps Token.warn_subsystem
  unfolding Token.warn_subsystem
  keep_warn_subsystem t h = keep_when _ _ (keep_remark Token.value_at _) t h

  pub keep_subsystem_token : (m : Bool) → Keeps (Token.subsystem_token m)
  unfolding Token.subsystem_token
  keep_subsystem_token m t h = keep_warn_subsystem _ (keep_plain_match m t h)

  pub keep_readonly : (a : CString) → Keeps (Token.readonly a)
  unfolding Token.readonly
  keep_readonly a t h =
      keep_when (Token.in_list a Token.env_names) _ (keep_remark Token.key_at _) t h

  maybe_if :
      (b : Bool) (x y : Option Token)
      → MaybeToken P x
      → MaybeToken P y
      → MaybeToken P (if b then x else y)
  maybe_if b x y h k = if_both (MaybeToken P) b x y h k

  pub keep_env_token : (m : Bool) (t : Token) → Holds P t → MaybeToken P (Token.env_token m t)
  unfolding Token.env_token
  keep_env_token m t h =
      let k =
        keep_replace (Token.has_op Keys.op_assign_final (Token.no_remove (Token.need_attr t)))
          Token.key_at _ (keep_no_remove _ (keep_need_attr t h)) in
      maybe_if m _ _ k (keep_with_attr Token.readonly _ keep_readonly k)

  pub keep_goto_token : Keeps Token.goto_token
  unfolding Token.goto_token
  keep_goto_token t h =
      same-Holds _ _ (record { retcode = refl; log = refl; warnings = refl; summary = refl })
        (keep_reject (not (Token.has_op Keys.op_assign (Token.no_attr t))) _ (keep_no_attr t h))

  pub keep_label_token : Keeps Token.label_token
  unfolding Token.label_token
  keep_label_token t h =
      same-Holds _ _ (record { retcode = refl; log = refl; warnings = refl; summary = refl })
        (keep_reject (not (Token.has_op Keys.op_assign (Token.no_attr t))) _ (keep_no_attr t h))

  pub keep_owner_token : (m : Bool) → Keeps (Token.owner_token m)
  unfolding Token.owner_token
  keep_owner_token m t h =
      keep_when _ _ (keep_set_op Keys.op_assign) _ (keep_reject _ _ (keep_no_attr t h))

  pub keep_show_import : (a : CString) → Keeps (Token.show_import a)
  unfolding Token.show_import
  keep_show_import a t h = keep_when _ _ (keep_print _ a) t h

  pub keep_check_import : (a : CString) → Keeps (Token.check_import a)
  unfolding Token.check_import
  keep_check_import a t h = keep_show_import a _ (keep_unknown Token.import_names a t h)

  pub keep_import_token : (m : Bool) (t : Token) → Holds P t → MaybeToken P (Token.import_token m t)
  unfolding Token.import_token
  keep_import_token m t h =
      keep_with_attr Token.check_import _ keep_check_import
        (keep_when (not m) _ (keep_set_op Keys.op_match) _ (keep_no_remove _ (keep_need_attr t h)))

  pub keep_percent_k : (m : Bool) → Keeps (Token.warn_percent_k m)
  unfolding Token.warn_percent_k
  keep_percent_k m t h = keep_when _ _ (keep_remark Token.key_at _) t h

  pub keep_empty_name : (m : Bool) → Keeps (Token.warn_empty_name m)
  unfolding Token.warn_empty_name
  keep_empty_name m t h = keep_when _ _ (keep_remark Token.key_at _) t h

  pub keep_name_token : (m : Bool) → Keeps (Token.name_token m)
  unfolding Token.name_token
  keep_name_token m t h =
      keep_empty_name m _
        (keep_percent_k m _ (keep_replace _ Token.op_at _ (keep_no_remove _ (keep_no_attr t h))))

  pub keep_program_token : (m : Bool) → Keeps (Token.program_token m)
  unfolding Token.program_token
  keep_program_token m t h =
      keep_when _ _ (keep_print _ _) _
        (keep_when (not m) _ (keep_set_op Keys.op_match) _ (keep_no_remove _ (keep_no_attr t h)))

  pub keep_set_attr : (a : CString) → Keeps (Token.set_attr a)
  unfolding Token.set_attr
  keep_set_attr a t h = record { holds = h.holds }

  pub keep_show_run : (a : CString) → Keeps (Token.show_run a)
  unfolding Token.show_run
  keep_show_run a t h = keep_when _ _ (keep_print _ a) t h

  pub keep_run_token : (m : Bool) → Keeps (Token.run_token m)
  unfolding Token.run_token
  keep_run_token m t h =
      keep_show_run _ _ (keep_unknown Token.run_names _ _ (keep_reject _ _ (keep_set_attr _ t h)))

  pub keep_seclabel_token : (m : Bool) → Keeps (Token.seclabel_token m)
  unfolding Token.seclabel_token
  keep_seclabel_token m t h = keep_replace _ Token.key_at _ (keep_reject _ _ (keep_need_attr t h))

  pub keep_tag_token : Keeps Token.tag_token
  unfolding Token.tag_token
  keep_tag_token t h = keep_replace _ Token.key_at _ (keep_no_attr t h)
