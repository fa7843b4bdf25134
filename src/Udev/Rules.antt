-- ===== src/Udev/Rules.antt =====
-- utils/udev-rules/udev-rules-parser.y: the actions of the grammar, and the reading of files. The
-- parser that bison generates is the list of the actions that it runs. After a syntax error
-- `rules_parse` calls it again, so a list goes on behind an error. `list_sort`, a copy of the
-- kernel's, is a parameter. A rule is in `cur_rule` until its line ends, and then in `rules`.
use make_initrd.Prelude.{
  ◌+◌, ◌-◌, Bool, true, false, ◌&&◌, Option, none, some, List, [], ◌∷◌, ◌++◌, ltb, if◌then◌else◌,
  length, drop, CString, codes, str_eq,
}
use make_initrd.Udev.Keys.{Key, Op}
use make_initrd.Udev.State.{Pos, RulePair, Rule, RulesState, syntax_error, log_error}
use make_initrd.Udev.Checks.{check_match_only_conditions, check_program_result}
use make_initrd.Udev.Token.{Token, process_token}

pub record Parts : Type 0 where
  pub key : Key
  pub attr : Option CString
  pub op : Op
  pub value : CString
  pub key_pos : Pos
  pub op_pos : Pos
  pub value_pos : Pos

pub data Action : Type 0 where
  pair : Parts → Action
  ruleline : Action
  syntax : Pos → Action

unfoldable pub get_rule : Pos → RulesState → Rule
get_rule at st = elim st.cur_rule [
  | some r ↦ r
  | none ↦ record { pairs = []; line_nr = at.line; file = st.cur_file }
]

unfoldable pub get_pair : Parts → Rule → RulePair
get_pair p r = record {
  pos_key = p.key_pos;
  pos_op = p.op_pos;
  pos_value = p.value_pos;
  key = p.key;
  op = p.op;
  attr = p.attr;
  value = p.value;
  rule_line = r.line_nr;
  rule_file = r.file;
}

unfoldable pub store_pair : Rule → Option Token → Option RulesState
store_pair r none = none
store_pair r (some t) =
    some (record t.state { cur_rule = some (record r { pairs = r.pairs ++ t.pair ∷ [] }) })

unfoldable pub pair_action : Parts → RulesState → Option RulesState
unfolding get_rule get_pair store_pair
pair_action p st =
    let r = get_rule p.key_pos st in
    store_pair r (
      process_token r.pairs
        (record { state = record st { cur_rule = some r }; pair = get_pair p r }))

-- `yyerror`; the rule that was being read stays the current one.
unfoldable pub yyerror : Pos → RulesState → RulesState
yyerror at st = log_error st.cur_file at syntax_error st

-- `rules_readdir` reads the entries whose name ends in `.rules` and has something before that.
unfoldable pub is_rules_name : CString → Bool
is_rules_name name = ltb 6 (length name) && str_eq (drop (length name - 6) name) (codes ".rules")

-- The path, unless it and its zero byte need more than PATH_MAX bytes.
unfoldable pub rules_path : CString → CString → Option CString
unfolding is_rules_name
rules_path dir name =
    let path = dir ++ b'/' ∷ name in
    if is_rules_name name && ltb (length path) 4096 then some path else none

-- What stat, fopen and the parser give for a file: none where it cannot be read.
abbrev pub File : Type 0
File = Option (List Action)

-- The state and whether every file could be read; or a fault.
abbrev pub Reading : Type 0
Reading = Option (RulesState × Bool)

module _ (list_sort : List RulePair → List RulePair) where
  unfoldable pub close_rule : Option Rule → RulesState → RulesState
  close_rule none st = st
  close_rule (some r) st =
      let st' = check_program_result r (check_match_only_conditions r st) in
      record st' { rules = st'.rules ++ record r { pairs = list_sort r.pairs } ∷ [] }

  unfoldable pub ruleline_action : RulesState → RulesState
  unfolding close_rule
  ruleline_action st =
      let st' = close_rule st.cur_rule st in
      record st' {
        global_rule_nr = st'.global_rule_nr + 1;
        file_rules_nr = st'.file_rules_nr + 1;
        cur_rule = none;
      }

  unfoldable pub run_action : Action → RulesState → Option RulesState
  unfolding pair_action ruleline_action yyerror
  run_action (pair p) st = pair_action p st
  run_action ruleline st = some (ruleline_action st)
  run_action (syntax at) st = some (yyerror at st)

  -- A fault ends the program.
  unfoldable pub rules_parse : List Action → RulesState → Option RulesState
  rules_parse [] st = some st
  rules_parse (a ∷ acts) st = elim (run_action a st) [
    | none ↦ none
    | some st' ↦ rules_parse acts st'
  ]

  -- A rule that the end of a file cuts off stays on the list of rules.
  unfoldable pub rules_readfile : List Action → RulesState → Option RulesState
  rules_readfile acts st = rules_parse acts (record st {
    rules = elim st.cur_rule [ none ↦ st.rules | some r ↦ st.rules ++ r ∷ [] ];
    cur_file = st.cur_file + 1;
    file_rules_nr = 0;
    cur_rule = none;
  })

  unfoldable pub read_file : File → RulesState → Reading
  read_file none st = some (st, false)
  read_file (some acts) st = elim (rules_readfile acts st) [
    | none ↦ none
    | some st' ↦ some (st', true)
  ]

  unfoldable pub both : Bool → Reading → Reading
  both ok none = none
  both ok (some (st, done)) = some (st, ok && done)

  -- A file that cannot be read does not stop the others.
  unfoldable pub rules_readdir : CString → List (CString × File) → RulesState → Reading
  unfolding both
  rules_readdir dir [] st = some (st, true)
  rules_readdir dir ((name, file) ∷ files) st = elim (rules_path dir name) [
    | none ↦ rules_readdir dir files st
    | some path ↦ elim (read_file file st) [
      | none ↦ none
      | some (st', ok) ↦ both ok (rules_readdir dir files st')
    ]
  ]
