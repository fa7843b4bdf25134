-- ===== src/Depinfo/Builtin.antt =====
-- utils/depinfo/kmod-depinfo.c: what is built into the kernel. An entry stands in the tree once, by its
-- name; the list of those with aliases is the list of their names, and `looped` says that the last one's
-- pointer goes back to itself. `fnmatch` is a parameter.
use make_initrd.Prelude.{
  ℕ, Bool, true, false, Option, none, some, List, [], ◌∷◌, ◌++◌, ◌==◌, if◌then◌else◌, any, CString,
  codes, str_eq,
}

pub record KernelBuiltin : Type 0 where
  pub name : CString
  pub aliases : List CString
  pub firmware : List CString
  pub tracked : Bool

pub record Builtins : Type 0 where
  pub tree : List KernelBuiltin
  pub with_aliases : List CString
  pub looped : Bool

unfoldable pub by_name : CString → List KernelBuiltin → Option KernelBuiltin
by_name name [] = none
by_name name (b ∷ bs) = let rest = by_name name bs in if str_eq b.name name then some b else rest

unfoldable pub change :
    CString → (KernelBuiltin → KernelBuiltin) → List KernelBuiltin → List KernelBuiltin
change name f [] = []
change name f (b ∷ bs) = (if str_eq b.name name then f b else b) ∷ change name f bs

-- What a look-up gives; `endless` where its loop goes around for ever.
pub data Search : Type 0 where
  found : KernelBuiltin → Search
  missing endless : Search

unfoldable pub named_or : Option KernelBuiltin → Search → Search
named_or none rest = rest
named_or (some b) rest = found b

module _ (fnmatch : CString → CString → Bool) where
  unfoldable pub alias_or : CString → Option KernelBuiltin → Search → Search
  alias_or str none rest = rest
  alias_or str (some b) rest = if any (λ a. fnmatch a str) b.aliases then found b else rest

  unfoldable pub by_alias : CString → Bool → List CString → List KernelBuiltin → Search
  unfolding by_name alias_or
  by_alias str looped [] tree = if looped then endless else missing
  by_alias str looped (n ∷ ns) tree = alias_or str (by_name n tree) (by_alias str looped ns tree)

  unfoldable pub find_kernel_builtin : CString → Builtins → Search
  unfolding by_name by_alias named_or
  find_kernel_builtin [] bs = missing
  find_kernel_builtin (c ∷ cs) bs =
      named_or (by_name (c ∷ cs) bs.tree) (by_alias (c ∷ cs) bs.looped bs.with_aliases bs.tree)

unfoldable pub append_kernel_builtin : CString → Builtins → Builtins
unfolding by_name
append_kernel_builtin name bs = elim (by_name name bs.tree) [
  | some b ↦ bs
  | none ↦ record bs {
    tree = bs.tree ++ record { name = name; aliases = []; firmware = []; tracked = false } ∷ [];
  }
]

-- An empty string is not appended.
unfoldable pub append_string_entry : List CString → CString → List CString
append_string_entry l [] = l
append_string_entry l (c ∷ cs) = l ++ (c ∷ cs) ∷ []

unfoldable pub has_aliases : Option KernelBuiltin → Bool
has_aliases none = false
has_aliases (some b) = elim b.aliases [ [] ↦ false | a ∷ l ↦ true ]

-- The list up to an entry.
unfoldable pub up_to : CString → List CString → List CString
up_to name [] = []
up_to name (n ∷ ns) = let rest = up_to name ns in if str_eq n name then n ∷ [] else n ∷ rest

unfoldable pub is_last : CString → List CString → Bool
is_last name [] = false
is_last name (n ∷ ns) = let rest = is_last name ns in elim ns [ [] ↦ str_eq n name | m ∷ ms ↦ rest ]

-- STAILQ_INSERT_TAIL clears the entry's pointer and then sets that of the last entry. Where the entry
-- is the last one already, it points to itself; where others stand behind it, they are lost.
unfoldable pub insert_tail : CString → Builtins → Builtins
unfolding up_to is_last
insert_tail name bs = record bs {
  with_aliases =
      if any (λ n. str_eq n name) bs.with_aliases
      then up_to name bs.with_aliases
      else bs.with_aliases ++ name ∷ [];
  looped = is_last name bs.with_aliases;
}

unfoldable pub append_kernel_builtin_alias : CString → CString → Builtins → Builtins
unfolding has_aliases by_name change append_string_entry insert_tail
append_kernel_builtin_alias name alias bs =
    let listed = if has_aliases (by_name name bs.tree) then bs else insert_tail name bs in
    record listed {
      tree = change name (λ b. record b { aliases = append_string_entry b.aliases alias }) bs.tree;
    }

-- The text before and behind the first such character, and the last one.
unfoldable pub split_first : ℕ → CString → Option (CString × CString)
split_first sep [] = none
split_first sep (c ∷ cs) =
    let more : Option (CString × CString) = elim (split_first sep cs) [
      | none ↦ none
      | some (a, b) ↦ some (c ∷ a, b)
    ] in
    if c == sep then some ([], cs) else more

unfoldable pub split_last : ℕ → CString → Option (CString × CString)
split_last sep [] = none
split_last sep (c ∷ cs) = elim (split_last sep cs) [
  | some (a, b) ↦ some (c ∷ a, b)
  | none ↦ if c == sep then some ([], cs) else none
]

-- The strings of the file; a zero stands behind each.
unfoldable pub strings : List ℕ → List CString
strings [] = []
strings (c ∷ cs) =
    let rest = strings cs in
    if c == 0 then [] ∷ rest else elim rest [ [] ↦ (c ∷ []) ∷ [] | s ∷ ss ↦ (c ∷ s) ∷ ss ]

unfoldable pub add_field : CString → CString → CString → Builtins → Builtins
unfolding append_kernel_builtin append_kernel_builtin_alias change append_string_entry
add_field name field value bs =
    let b = append_kernel_builtin name bs in
    if str_eq field (codes "alias")
    then append_kernel_builtin_alias name value b
    else if str_eq field (codes "firmware")
    then record b {
      tree = change name (λ e. record e { firmware = append_string_entry e.firmware value }) b.tree;
    }
    else b

-- `none` where the line has no `=`, or no dot before it.
unfoldable pub split_line : CString → Option (CString × CString × CString)
unfolding split_first split_last
split_line s = elim (split_first b'=' s) [
  | none ↦ none
  | some (left, value) ↦ elim (split_last b'.' left) [
    | none ↦ none
    | some (name, field) ↦ some (name, field, value)
  ]
]

abbrev pub no_builtins : Builtins
no_builtins = record { tree = []; with_aliases = []; looped = false }

-- A line of another form ends the reading, and all is dropped.
unfoldable pub read_strings : List CString → Builtins → Builtins
unfolding split_line add_field
read_strings [] bs = bs
read_strings (s ∷ ss) bs = elim (split_line s) [
  | none ↦ no_builtins
  | some (name, field, value) ↦ read_strings ss (add_field name field value bs)
]

unfoldable pub read_kernel_builtin : Option (List ℕ) → Builtins
unfolding read_strings strings
read_kernel_builtin none = no_builtins
read_kernel_builtin (some bytes) = read_strings (strings bytes) no_builtins
