-- ===== src/Udev/Token/Steps.antt =====
-- utils/udev-rules/udev-rules-parser.y: what the cases of `process_token` do: the reports, the tests of
-- an attribute and of an operator. A handler works on the state and the pair; `none` is the read of a
-- missing attribute through a null pointer.
use make_initrd.Prelude.{
  Bool, true, false, not, ◌&&◌, Option, none, some, List, [], ◌∷◌, ◌++◌, any, CString, str_eq,
}
use make_initrd.Udev.Keys.{Op, op_remove, op_assign}
use make_initrd.Udev.State.{
  Pos, RulePair, RulesState, Message, invalid_attr, invalid_op, wrong_op, ExternalKind, log_error,
  log_warning,
}
use make_initrd.Udev.Checks.{same_op}

pub record Token : Type 0 where
  pub state : RulesState
  pub pair : RulePair

-- A handler may fault.
infixl 5 ◌>>=◌
abbrev pub ◌>>=◌ : Option Token → (Token → Option Token) → Option Token
none >>= f = none
some t >>= f = f t

infixl 4 ◌▹◌
abbrev pub ◌▹◌ : Token → (Token → Token) → Token
t ▹ f = f t

abbrev pub is_blank : CString → Bool
is_blank [] = true
is_blank (c ∷ cs) = false

abbrev pub is_missing : Option CString → Bool
is_missing none = true
is_missing (some a) = is_blank a

abbrev pub is_given : Option CString → Bool
is_given none = false
is_given (some a) = true

-- `in_list`; an empty name never fits.
unfoldable pub in_list : CString → List CString → Bool
in_list k names = any (λ s. not (is_blank s) && str_eq k s) names

unfoldable pub rule_log_invalid_attr : Token → Token
rule_log_invalid_attr t = record t {
  state = log_error t.pair.rule_file t.pair.pos_key invalid_attr t.state;
}

unfoldable pub rule_log_invalid_op : Token → Token
rule_log_invalid_op t = record t {
  state = log_error t.pair.rule_file t.pair.pos_op invalid_op t.state;
}

-- A `warnx` with `warning_update_retcode(state, -1)`.
unfoldable pub remark : (RulePair → Pos) → Message → Token → Token
remark at message t = record t {
  state = log_warning t.pair.rule_file (at t.pair) message none t.state;
}

unfoldable pub when : Bool → (Token → Token) → Token → Token
when true f t = f t
when false f t = t

unfoldable pub set_op : Op → Token → Token
set_op op t = record t { pair = record t.pair { op = op } }

abbrev pub has_op : Op → Token → Bool
has_op op t = same_op t.pair.op op

unfoldable pub no_attr : Token → Token
unfolding when rule_log_invalid_attr
no_attr t = when (is_given t.pair.attr) rule_log_invalid_attr t

unfoldable pub need_attr : Token → Token
unfolding when rule_log_invalid_attr
need_attr t = when (is_missing t.pair.attr) rule_log_invalid_attr t

unfoldable pub reject_op : Bool → Token → Token
unfolding when rule_log_invalid_op
reject_op bad t = when bad rule_log_invalid_op t

unfoldable pub no_remove : Token → Token
unfolding reject_op
no_remove t = reject_op (has_op op_remove t) t

-- A remark on an operator that the key does not take, which is then read as `=`.
unfoldable pub replace_op : Bool → (RulePair → Pos) → Token → Token
unfolding when remark set_op
replace_op bad at t = when bad (λ u. set_op op_assign (remark at wrong_op u)) t

abbrev pub key_at : RulePair → Pos
key_at p = p.pos_key

abbrev pub op_at : RulePair → Pos
op_at p = p.pos_op

abbrev pub value_at : RulePair → Pos
value_at p = p.pos_value

-- The attribute that a call dereferences.
unfoldable pub with_attr : (CString → Token → Token) → Token → Option Token
with_attr f t = elim t.pair.attr [ none ↦ none | some a ↦ some (f a t) ]

unfoldable pub print_external : ExternalKind → CString → Token → Token
print_external kind attr t = record t {
  state = record t.state {
    output =
        t.state.output
        ++ record { kind = kind; at = t.pair.pos_key; attr = attr; value = t.pair.value } ∷ [];
  };
}
