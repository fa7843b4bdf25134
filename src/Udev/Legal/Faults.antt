-- ===== src/Udev/Legal/Faults.antt =====
-- Missing attributes in `process_token`.
use make_initrd.Prelude.{
  ℕ, ◌∙◌, ◌≡◌, refl, Bool, true, false, not, Option, none, some, List, arith, CString,
}
use make_initrd.Udev.Keys.{Key, Op, op_match, is_op_match, key_const, key_env, key_import}
use make_initrd.Udev.State.{Pos, RulePair, RulesState, log_error, log_warning}
use make_initrd.Udev.Token
use make_initrd.Udev.Token.{Token, by_key, process_token, is_missing, is_given}
use make_initrd.Udev.Legal.{token}

-- A key whose attribute is read without a test, at a pair that has none.
abbrev pub null_read : Key → Bool → Option CString → Bool
null_read k m (some a) = false
null_read key_const m none = true
null_read key_import m none = true
null_read key_env m none = not m
null_read _ m none = false

abbrev pub is_fault : Option Token → Bool
is_fault none = true
is_fault (some t) = false

key_fault :
    (st : RulesState) (pk po pv : Pos) (value : CString) (line file : ℕ) (k : Key) (op : Op)
    (a : Option CString)
    → is_fault (by_key k (is_op_match op) (token st pk po pv value line file k op a))
      ≡ null_read k (is_op_match op) a
unfolding by_key Token.const_token Token.env_token Token.import_token is_op_match log_error
    log_warning
key_fault st pk po pv v l f key_const op none = refl
key_fault st pk po pv v l f key_import op_match none = refl
key_fault st pk po pv v l f key_import _ none = refl
key_fault st pk po pv v l f key_env op_match none = refl
key_fault st pk po pv v l f key_env _ none = refl
key_fault st pk po pv v l f _ op none = refl
key_fault st pk po pv v l f key_env op_match (some a) = ground arith
key_fault st pk po pv v l f key_env _ (some a) = ground arith
key_fault st pk po pv v l f key_const op (some a) = ground arith
key_fault st pk po pv v l f key_import op_match (some a) = ground arith
key_fault st pk po pv v l f key_import _ (some a) = ground arith
key_fault st pk po pv v l f _ op (some a) = refl

checked_fault :
    (earlier : List RulePair) (o : Option Token)
    → is_fault (Token.◌>>=◌ o (Token.check_pair earlier)) ≡ is_fault o
unfolding Token.check_pair
checked_fault earlier none = refl
checked_fault earlier (some t) = refl

-- `process_token` reads a missing attribute through a null pointer exactly for a CONST or an IMPORT
-- without an attribute, with any operator, and for an ENV without one that is not a match.
pub process_token_faults :
    (earlier : List RulePair) (t : Token)
    → is_fault (process_token earlier t) ≡ null_read t.pair.key (is_op_match t.pair.op) t.pair.attr
unfolding process_token
process_token_faults earlier t =
    checked_fault earlier (by_key t.pair.key (is_op_match t.pair.op) t)
    ∙ key_fault t.state t.pair.pos_key t.pair.pos_op t.pair.pos_value t.pair.value t.pair.rule_line
        t.pair.rule_file t.pair.key t.pair.op t.pair.attr
