-- ===== src/Scanmod/Match.antt =====
-- utils/initrd-scanmod/initrd-scanmod-walk.c: a module against a set of rules. What libkmod answers
-- about a module is the parameter `Answers`; its calls give the same answer each time. The list that
-- it gives is kept, so it is asked once. What is printed to stderr under -v is left out.
use make_initrd.Prelude.{
  Bool, true, false, not, ◌&&◌, ◌||◌, Option, none, some, List, [], ◌∷◌, if◌then◌else◌, CString,
  codes, str_eq,
}
use make_initrd.Scanmod.Rules.{
  Keyword, kw_alias, kw_author, kw_depends, kw_description, kw_filename, kw_firmware, kw_license,
  kw_name, kw_symbol, RulePair, Ruleset,
}

-- The switch on the type of a rule: whether the loop goes on.
unfoldable pub keeps : RulePair → Bool → Bool
keeps r is_match = if r.negated then not is_match else is_match

unfoldable pub match_filename : CString → List RulePair → Bool
unfolding keeps
match_filename filename [] = true
match_filename filename (r ∷ rs) =
    if keeps r (r.value filename) then match_filename filename rs else false

-- An entry of the information on a module; libkmod may give no key or no value.
pub record InfoEntry : Type 0 where
  pub key : Option CString
  pub value : Option CString

unfoldable pub keyword_name : Keyword → CString
keyword_name kw_alias = codes "alias"
keyword_name kw_author = codes "author"
keyword_name kw_depends = codes "depends"
keyword_name kw_description = codes "description"
keyword_name kw_filename = codes "filename"
keyword_name kw_firmware = codes "firmware"
keyword_name kw_license = codes "license"
keyword_name kw_name = codes "name"
keyword_name kw_symbol = codes "symbol"

unfoldable pub value_fits : RulePair → Option CString → Bool
value_fits r none = false
value_fits r (some v) = r.value v

unfoldable pub entry_fits : RulePair → InfoEntry → Bool
unfolding keyword_name value_fits
entry_fits r e = elim e.key [
  | none ↦ false
  | some k ↦ if str_eq (keyword_name r.keyword) k then value_fits r e.value else false
]

-- The inner loop, which stops at the first entry that fits.
unfoldable pub some_entry : RulePair → List InfoEntry → Bool
unfolding entry_fits
some_entry r [] = false
some_entry r (e ∷ es) = let rest = some_entry r es in if entry_fits r e then true else rest

unfoldable pub match : List InfoEntry → List RulePair → Bool
unfolding keeps some_entry
match infolist [] = true
match infolist (r ∷ rs) = if keeps r (some_entry r infolist) then match infolist rs else false

unfoldable pub has_symbol_match : List (Option CString) → RulePair → Bool
unfolding value_fits
has_symbol_match [] r = false
has_symbol_match (s ∷ ss) r =
    let rest = has_symbol_match ss r in if value_fits r s then true else rest

unfoldable pub match_symbols : List (Option CString) → List (Option CString) → List RulePair → Bool
unfolding keeps has_symbol_match
match_symbols provided required [] = true
match_symbols provided required (r ∷ rs) =
    if keeps r (has_symbol_match provided r || has_symbol_match required r)
    then match_symbols provided required rs
    else false

-- kmod_module_get_symbols and its like: a list, none (-ENOENT or -ENODATA), or another error.
pub data Listing : Type 0 where
  got : List (Option CString) → Listing
  absent : Listing
  broken : Listing

unfoldable pub listed : Listing → Option (List (Option CString))
listed (got l) = some l
listed absent = some []
listed broken = none

-- What libkmod says of the file: whether it makes a module of it, and whether that has a name.
pub record Answers : Type 0 where
  pub opens : Bool
  pub named : Bool
  pub info : Option (List InfoEntry)
  pub provided : Listing
  pub required : Listing

-- The symbols that the module provides, and then those that it requires.
abbrev pub fetch : Answers → Option (List (Option CString) × List (Option CString))
fetch k = elim (listed k.provided) [
  | none ↦ none
  | some p ↦ elim (listed k.required) [ none ↦ none | some q ↦ some (p, q) ]
]

-- `info_state` and `symbols_state`: 0, 1 with the lists, or -1.
pub data InfoState : Type 0 where
  unread : InfoState
  read : List InfoEntry → InfoState
  failed : InfoState

pub data SymbolsState : Type 0 where
  unread : SymbolsState
  read : List (Option CString) → List (Option CString) → SymbolsState
  failed : SymbolsState

pub record ModuleData : Type 0 where
  pub mod_set : Bool
  pub info_state : InfoState
  pub symbols_state : SymbolsState

abbrev pub blank : ModuleData
blank = record {
  mod_set = false;
  info_state = InfoState.unread;
  symbols_state = SymbolsState.unread;
}

-- What a part of the rules says of the module: the test failed, or could not be made, and the
-- function returns 0, or the test passed.
abbrev pub Outcome : Type 0
Outcome = Bool × ModuleData

unfoldable pub keep_symbols :
    Option (List (Option CString) × List (Option CString)) → ModuleData → Ruleset → Outcome
keep_symbols none m set = (false, record m { symbols_state = SymbolsState.failed })
keep_symbols (some (p, q)) m set =
    (match_symbols p q set.symbols, record m { symbols_state = SymbolsState.read p q })

module _ (k : Answers) (filename : CString) where
  unfoldable pub init_module_mod : ModuleData → Outcome
  init_module_mod m =
      if m.mod_set
      then (true, m)
      else if k.opens
      then (k.named, record m { mod_set = true })
      else (false, m)

  unfoldable pub read_info : ModuleData → Ruleset → Outcome
  read_info m set = elim m.info_state [
    | InfoState.unread ↦ elim k.info [
      | none ↦ (false, record m { info_state = InfoState.failed })
      | some l ↦ (match l set.info, record m { info_state = InfoState.read l })
    ]
    | InfoState.read l ↦ (match l set.info, m)
    | InfoState.failed ↦ (false, m)
  ]

  unfoldable pub info_part : ModuleData → Ruleset → Outcome
  unfolding init_module_mod read_info
  info_part m set =
      let (ready, m') = init_module_mod m in
      let rest = read_info m' set in
      if not set.has_info then (true, m) else if ready then rest else (false, m')

  unfoldable pub read_symbols : ModuleData → Ruleset → Outcome
  unfolding keep_symbols
  read_symbols m set = elim m.symbols_state [
    | SymbolsState.unread ↦ keep_symbols (fetch k) m set
    | SymbolsState.read p q ↦ (match_symbols p q set.symbols, m)
    | SymbolsState.failed ↦ (false, m)
  ]

  unfoldable pub symbols_part : ModuleData → Ruleset → Outcome
  unfolding init_module_mod read_symbols
  symbols_part m set =
      let (ready, m') = init_module_mod m in
      let rest = read_symbols m' set in
      if not set.has_symbols then (true, m) else if ready then rest else (false, m')

  -- Whether the file name is printed.
  unfoldable pub process_module_ruleset : ModuleData → Ruleset → Outcome
  unfolding info_part symbols_part match_filename
  process_module_ruleset m set =
      let (info_ok, m1) = info_part m set in
      let (symbols_ok, m2) = symbols_part m1 set in
      let after_info : Outcome = if info_ok then (symbols_ok, m2) else (false, m1) in
      if not (set.has_paths || (set.has_info || set.has_symbols))
      then (false, m)
      else if set.has_paths && not (match_filename filename set.paths)
      then (false, m)
      else if set.has_paths && not (set.has_info || set.has_symbols)
      then (true, m)
      else after_info

  -- The first set that the module fits ends the loop.
  unfoldable pub process_sets : ModuleData → List Ruleset → Bool
  process_sets m [] = false
  process_sets m (set ∷ sets) =
      let (printed, m') = process_module_ruleset m set in
      let rest = process_sets m' sets in if printed then true else rest

  unfoldable pub process_module : List Ruleset → Bool
  unfolding process_sets
  process_module sets = process_sets blank sets
