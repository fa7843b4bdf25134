-- ===== src/Scanmod/Rules.antt =====
-- utils/initrd-scanmod/initrd-scanmod-rules.c: the rules files. A compiled regular expression is the
-- test that `regexec` makes with it; `regcomp` of the C library is a parameter, and so is `open_map`,
-- which gives the bytes of a file. Where the program exits with a message the result is an error.
use make_initrd.Prelude.{
  ℕ, suc, Bool, true, false, ◌&&◌, ◌||◌, Option, none, some, List, [], ◌∷◌, ◌++◌, ◌==◌,
  if◌then◌else◌, leb, take, drop, any, CString, codes, str_eq,
}

pub data Keyword : Type 0 where
  kw_alias kw_author kw_depends kw_description kw_filename : Keyword
  kw_firmware kw_license kw_name kw_symbol : Keyword

abbrev pub keywords : List (CString × Keyword)
keywords =
    (codes "alias", kw_alias)
    ∷ (codes "author", kw_author)
    ∷ (codes "depends", kw_depends)
    ∷ (codes "description", kw_description)
    ∷ (codes "filename", kw_filename)
    ∷ (codes "firmware", kw_firmware)
    ∷ (codes "license", kw_license)
    ∷ (codes "name", kw_name)
    ∷ (codes "symbol", kw_symbol)
    ∷ []

unfoldable pub find_keyword : List (CString × Keyword) → CString → Option Keyword
find_keyword [] value = none
find_keyword ((name, k) ∷ ks) value = if str_eq name value then some k else find_keyword ks value

-- none is KW_UNKNOWN_KEYWORD.
unfoldable pub get_keyword : CString → Option Keyword
unfolding find_keyword
get_keyword value = find_keyword keywords value

-- `type` is RULE_NOT_MATCH where `negated` is true.
pub record RulePair : Type 0 where
  pub negated : Bool
  pub keyword : Keyword
  pub value : CString → Bool

pub record Ruleset : Type 0 where
  pub filename : CString
  pub has_info : Bool
  pub has_symbols : Bool
  pub has_paths : Bool
  pub info : List RulePair
  pub symbols : List RulePair
  pub paths : List RulePair

abbrev pub empty_set : CString → Ruleset
empty_set filename = record {
  filename = filename;
  has_info = false;
  has_symbols = false;
  has_paths = false;
  info = [];
  symbols = [];
  paths = [];
}

-- The bytes up to a line feed; a line feed at the end of the file begins no line.
unfoldable pub lines : List ℕ → List (List ℕ)
lines [] = []
lines (c ∷ cs) =
    if c == 10
    then [] ∷ lines cs
    else elim (lines cs) [ [] ↦ (c ∷ []) ∷ [] | l ∷ ls ↦ (c ∷ l) ∷ ls ]

-- A line as a C string: the bytes before the first zero.
unfoldable pub cstring : List ℕ → CString
cstring [] = []
cstring (c ∷ cs) = if c == 0 then [] else c ∷ cstring cs

abbrev pub is_blank : ℕ → Bool
is_blank c = c == 32 || c == 9

abbrev pub is_space : ℕ → Bool
is_space c = c == 32 || (leb 9 c && leb c 13)

unfoldable pub skip : (ℕ → Bool) → CString → CString
skip test [] = []
skip test (c ∷ cs) = if test c then skip test cs else c ∷ cs

-- Drops carriage returns and blanks at the end.
unfoldable pub trim_end : CString → CString
trim_end [] = []
trim_end (c ∷ cs) =
    let rest = trim_end cs in
    elim rest [ [] ↦ if c == 13 || is_blank c then [] else c ∷ [] | d ∷ ds ↦ c ∷ d ∷ ds ]

-- The characters up to a space, and what follows.
unfoldable pub word : CString → CString × CString
word [] = ([], [])
word (c ∷ cs) = let (w, rest) = word cs in if is_space c then ([], c ∷ cs) else (c ∷ w, rest)

-- sscanf with "%ms %m[^\n]" where it converts both: spaces, a word, spaces, and the rest, which has no
-- line feed.
unfoldable pub scan_pair : CString → Option (CString × CString)
unfolding skip word
scan_pair s =
    let (kw, rest) = word (skip is_space s) in
    let value = skip is_space rest in
    elim kw [ [] ↦ none | c ∷ cs ↦ elim value [ [] ↦ none | d ∷ ds ↦ some (c ∷ cs, d ∷ ds) ] ]

abbrev pub not_prefix : CString
not_prefix = codes "not-"

-- The same with "not-" in front; false is RULE_MATCH.
unfoldable pub scan_rule : CString → Option (Bool × CString × CString)
unfolding scan_pair
scan_rule p =
    let plain : Option (Bool × CString × CString) = elim (scan_pair p) [
      | none ↦ none
      | some (kw, value) ↦ some (false, kw, value)
    ] in
    if str_eq (take 4 p) not_prefix
    then elim (scan_pair (drop 4 p)) [ none ↦ plain | some (kw, value) ↦ some (true, kw, value) ]
    else plain

pub data RuleError : Type 0 where
  bad_line_format unknown_keyword not_a_regex : RuleError

pub data Line : Type 0 where
  -- a comment or an empty line
  ignored : Line
  rule : RulePair → Line
  rejected : RuleError → Line

-- A rule goes to the list of its keyword, and the flag of that list is set.
unfoldable pub add_rule : RulePair → Ruleset → Ruleset
add_rule r set = elim r.keyword [
  | kw_symbol ↦ record set { symbols = set.symbols ++ r ∷ []; has_symbols = true }
  | kw_filename ↦ record set { paths = set.paths ++ r ∷ []; has_paths = true }
  | _ ↦ record set { info = set.info ++ r ∷ []; has_info = true }
]

-- What the program has read, or the line at which it exits.
pub data Reading {ℓ} (A : Type ℓ) : Type ℓ where
  done : A → Reading A
  unreadable : CString → Reading A
  stopped : CString → ℕ → RuleError → Reading A

infixl 5 ◌>>=◌
abbrev pub ◌>>=◌ {ℓ κ} : {A : Type ℓ} {B : Type κ} → Reading A → (A → Reading B) → Reading B
done a >>= f = f a
unreadable file >>= f = unreadable file
stopped file n e >>= f = stopped file n e

module _ (regcomp : CString → Option (CString → Bool)) where
  unfoldable pub compile : Bool → CString → Keyword → Line
  compile negated value k = elim (regcomp value) [
    | none ↦ rejected not_a_regex
    | some test ↦ rule (record { negated = negated; keyword = k; value = test })
  ]

  unfoldable pub parse_pair : Option (Bool × CString × CString) → Line
  unfolding compile get_keyword
  parse_pair none = rejected bad_line_format
  parse_pair (some (negated, kw, value)) = elim (get_keyword kw) [
    | none ↦ rejected unknown_keyword
    | some k ↦ compile negated value k
  ]

  unfoldable pub parse_line : List ℕ → Line
  unfolding cstring skip trim_end scan_rule parse_pair
  parse_line l = elim (skip is_blank (cstring l)) [
    | [] ↦ ignored
    | c ∷ cs ↦ if c == b'#' then ignored else parse_pair (scan_rule (trim_end (c ∷ cs)))
  ]

  unfoldable pub parse_lines : ℕ → List (List ℕ) → Ruleset → Reading Ruleset
  unfolding parse_line add_rule
  parse_lines n [] set = done set
  parse_lines n (l ∷ ls) set = elim (parse_line l) [
    | ignored ↦ parse_lines (suc n) ls set
    | rejected e ↦ stopped set.filename n e
    | rule r ↦ parse_lines (suc n) ls (add_rule r set)
  ]

  unfoldable pub parse_ruleset : CString → Option (List ℕ) → Reading Ruleset
  unfolding parse_lines lines
  parse_ruleset filename none = unreadable filename
  parse_ruleset filename (some bytes) = parse_lines 1 (lines bytes) (empty_set filename)

  unfoldable pub filename_in_ruleset : List Ruleset → CString → Bool
  filename_in_ruleset sets filename = any (λ s. str_eq s.filename filename) sets

  module _ (open_map : CString → Option (List ℕ)) where
    -- A file that is named twice is read once.
    unfoldable pub parse_rules : List CString → List Ruleset → Reading (List Ruleset)
    unfolding parse_ruleset filename_in_ruleset
    parse_rules [] sets = done sets
    parse_rules (f ∷ fs) sets =
        let next = parse_ruleset f (open_map f) >>= λ set. parse_rules fs (sets ++ set ∷ []) in
        let same = parse_rules fs sets in if filename_in_ruleset sets f then same else next
