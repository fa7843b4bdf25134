-- ===== src/Tests/Modules.antt =====
-- The theorems on the choice of kernel modules at one set of rules and two files.
use make_initrd.Prelude.{
  ℕ, zero, suc, ◌<◌, ◌≤◌, CString, ◌≡◌, refl, true, false, some, List, [], ◌∷◌, codes, str_eq, any,
  arith, All,
}
use make_initrd.Scanmod.Rules.{Ruleset, kw_alias, empty_set, parse_rules}
use make_initrd.Scanmod.Match.{Answers, absent, process_module}
use make_initrd.Scanmod.Walk.{
  FtsEntry, file, other, is_kernel_modname, find_modules, started, n_workers, printed,
}
use make_initrd.Scanmod.Chosen.{accepts, process_module_lem}
use make_initrd.Scanmod.Turns.{count, turns}
use make_initrd.Scanmod.Workers.{chosen}
use make_initrd.Scanmod.Walked.{module_paths, find_modules_lem}
use make_initrd.Scanmod.Loaded.{IsSorted, Loads, parse_rules-IsSorted}

-- A module with one alias.
abbrev usb : Answers
usb = record {
  opens = true;
  named = true;
  info = some (record { key = some (codes "alias"); value = some (codes "usb:v1") } ∷ []);
  provided = absent;
  required = absent;
}

abbrev usb_rules : Ruleset
usb_rules = record (empty_set (codes "r")) {
  has_info = true;
  info = record { negated = false; keyword = kw_alias; value = str_eq (codes "usb:v1") } ∷ [];
}

process_module_lem_example :
    process_module usb (codes "a.ko") (usb_rules ∷ [])
    ≡ any (accepts usb (codes "a.ko")) (usb_rules ∷ [])
process_module_lem_example = process_module_lem usb (codes "a.ko") (usb_rules ∷ []) (λ h. refl)

abbrev walk : List FtsEntry
walk =
    record { fts_info = other; fts_accpath = codes "k"; fts_path = codes "k" }
    ∷ record { fts_info = file; fts_accpath = codes "a.ko"; fts_path = codes "k/a.ko" }
    ∷ record { fts_info = file; fts_accpath = codes "b.txt"; fts_path = codes "k/b.txt" }
    ∷ record { fts_info = file; fts_accpath = codes "c.ko.xz"; fts_path = codes "k/c.ko.xz" }
    ∷ []

two_of_three : (i : ℕ) → i < 2 → 5 ≤ turns i (0 ∷ 1 ∷ 1 ∷ 0 ∷ 1 ∷ 0 ∷ 0 ∷ 1 ∷ 1 ∷ 0 ∷ [])
unfolding turns
two_of_three zero h = ground arith
two_of_three (suc zero) h = ground arith
two_of_three (suc (suc i)) h = absurd (omega arith)

-- Two workers on two modules; a third would have nothing to do.
find_modules_lem_example :
    (l : List CString) × (find_modules
        (λ p. usb)
        (usb_rules ∷ [])
        3
        4
        2
        (0 ∷ 1 ∷ 1 ∷ 0 ∷ 1 ∷ 0 ∷ 0 ∷ 1 ∷ 1 ∷ 0 ∷ [])
        walk
      ≡ printed l)
    × ((x : CString) → count x l ≡ count x (chosen (λ p. usb) (usb_rules ∷ []) (module_paths walk)))
unfolding module_paths is_kernel_modname str_eq started n_workers
find_modules_lem_example =
    find_modules_lem (λ p. usb) (usb_rules ∷ []) 3 4 2 (0 ∷ 1 ∷ 1 ∷ 0 ∷ 1 ∷ 0 ∷ 0 ∷ 1 ∷ 1 ∷ 0 ∷ [])
      walk (λ p h. refl) refl (omega arith) two_of_three

parse_rules-IsSorted_example : Loads (All IsSorted) (
    parse_rules
      (λ r. some (str_eq r))
      (λ f. some (codes "alias usb:v1\nnot-symbol x"))
      (codes "r" ∷ [])
      [])
parse_rules-IsSorted_example =
    parse_rules-IsSorted (λ r. some (str_eq r)) (λ f. some (codes "alias usb:v1\nnot-symbol x"))
      (codes "r" ∷ []) [] tt
