-- ===== src/Depinfo/Search.antt =====
-- The look-up of an entry that is built into the kernel.
use make_initrd.Prelude.{
  ◌≡◌, refl, Bool, true, false, Option, none, some, List, [], ◌∷◌, CString, any, if_both,
  Bool-cases, inl, inr,
}
use make_initrd.Depinfo.Builtin.{
  KernelBuiltin, Builtins, Search, found, endless, named_or, alias_or, by_name, by_alias,
  find_kernel_builtin,
}

unfoldable pub is_endless : Search → Bool
is_endless endless = true
is_endless _ = false

or-endless :
    (fnmatch : CString → CString → Bool) (str : CString) (b : Option KernelBuiltin) (rest : Search)
    → is_endless rest ≡ false
    → is_endless (alias_or fnmatch str b rest) ≡ false
unfolding alias_or is_endless
or-endless fnmatch str none rest h = h
or-endless fnmatch str (some b) rest h =
    if_both (λ (r : Search). is_endless r ≡ false) (any (λ a. fnmatch a str) b.aliases) (found b)
      rest refl h

named-endless :
    (b : Option KernelBuiltin) (rest : Search)
    → is_endless rest ≡ false
    → is_endless (named_or b rest) ≡ false
unfolding named_or is_endless
named-endless none rest h = h
named-endless (some b) rest h = refl

alias-endless :
    (fnmatch : CString → CString → Bool) (str : CString) (looped : Bool) (ns : List CString)
    (tree : List KernelBuiltin)
    → looped ≡ false
    → is_endless (by_alias fnmatch str looped ns tree) ≡ false
unfolding by_alias is_endless
alias-endless fnmatch str looped [] tree h = rw h refl
alias-endless fnmatch str looped (n ∷ ns) tree h =
    or-endless fnmatch str (by_name n tree) _ (alias-endless fnmatch str looped ns tree h)

found-endless :
    (fnmatch : CString → CString → Bool) (str : CString) (bs : Builtins)
    → bs.looped ≡ false
    → is_endless (find_kernel_builtin fnmatch str bs) ≡ false
unfolding find_kernel_builtin is_endless
found-endless fnmatch [] bs h = refl
found-endless fnmatch (c ∷ cs) bs h =
    named-endless (by_name (c ∷ cs) bs.tree) _
      (alias-endless fnmatch (c ∷ cs) bs.looped bs.with_aliases bs.tree h)

-- Only in a looped list does a look-up go on for ever.
pub search-endless :
    (fnmatch : CString → CString → Bool) (str : CString) (bs : Builtins)
    → is_endless (find_kernel_builtin fnmatch str bs) ≡ true
    → bs.looped ≡ true
search-endless fnmatch str bs h = elim (Bool-cases bs.looped) [
  | inl looped ↦ looped
  | inr ends ↦ let e = found-endless fnmatch str bs ends in cc
]
