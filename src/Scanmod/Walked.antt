-- ===== src/Scanmod/Walked.antt =====
-- What the program prints, whatever the order of the workers.
use make_initrd.Prelude.{
  ℕ, ◌+◌, ◌*◌, ◌≤◌, ◌≡◌, sym, ap, ◌∙◌, Bool, true, false, some, List, [], ◌∷◌, ◌++◌, arith,
  if◌then◌else◌, length, all, CString, Bool-cases, inl, inr, ◌<◌,
}
use mathlib.Core.List.{append_assoc, append-nil}
use make_initrd.Scanmod.Rules.{Ruleset}
use make_initrd.Scanmod.Match.{Answers}
use make_initrd.Scanmod.Walk.{
  FtsEntry, FtsInfo, file, unread, other, is_kernel_modname, collect, printed, n_workers, started,
  find_modules,
}
use make_initrd.Scanmod.Turns.{count, turns}
use make_initrd.Scanmod.Workers.{chosen, share_lem}

-- The kernel modules among the entries, in the order of the walk.
unfoldable pub module_paths : List FtsEntry → List CString
module_paths [] = []
module_paths (e ∷ es) = elim e.fts_info [
  | file ↦ if is_kernel_modname e.fts_accpath then e.fts_path ∷ module_paths es else module_paths es
  | _ ↦ module_paths es
]

abbrev pub is_readable : FtsEntry → Bool
is_readable e = elim e.fts_info [ unread ↦ false | _ ↦ true ]

collect_step :
    (i : FtsInfo) (a p : CString) (es : List FtsEntry) (ps : List CString)
    → ((qs : List CString) → collect es qs ≡ some (qs ++ module_paths es))
    → let e : FtsEntry = record { fts_info = i; fts_accpath = a; fts_path = p } in
      is_readable e ≡ true → collect (e ∷ es) ps ≡ some (ps ++ module_paths (e ∷ es))
unfolding collect module_paths
collect_step file a p es ps ih r = elim (Bool-cases (is_kernel_modname a)) [
  | inl fits ↦ rw fits (ih (ps ++ p ∷ []) ∙ ap some (append_assoc ps (p ∷ []) (module_paths es)))
  | inr not_one ↦ rw not_one (ih ps)
]
collect_step unread a p es ps ih r = cc
collect_step other a p es ps ih r = ih ps

collect_lem :
    (es : List FtsEntry) (ps : List CString)
    → all is_readable es ≡ true
    → collect es ps ≡ some (ps ++ module_paths es)
collect_lem [] ps h = unfold collect module_paths in ap some (sym (append-nil ps))
collect_lem (e ∷ es) ps h =
    collect_step e.fts_info e.fts_accpath e.fts_path es ps (λ qs. collect_lem es qs (ground arith))
      (ground arith)

-- Where every entry of the walk can be read, libkmod names each module that it opens, a thread could be
-- created, and each worker has two steps for each module and one more, find_modules comes to its end in
-- whatever order the workers take their steps, and has printed each kernel module that some set of
-- rules accepts as often as the walk met it, and nothing else.
pub find_modules_lem :
    (kmod : CString → Answers) (sets : List Ruleset) (jobs nprocs created : ℕ) (schedule : List ℕ)
    (entries : List FtsEntry)
    → ((p : CString) → (kmod p).opens ≡ true → (kmod p).named ≡ true)
    → all is_readable entries ≡ true
    → 1 ≤ created
    → (let paths = module_paths entries in
        (i : ℕ)
        → i < started (n_workers jobs nprocs (length paths)) created
        → 2 * length paths + 1 ≤ turns i schedule)
    → (l : List CString) × (find_modules kmod sets jobs nprocs created schedule entries ≡ printed l)
      × ((x : CString) → count x l ≡ count x (chosen kmod sets (module_paths entries)))
unfolding find_modules
find_modules_lem kmod sets jobs nprocs created schedule entries named readable threads fair =
    rw (collect_lem entries [] readable, find_modules)
      (share_lem kmod sets named jobs nprocs created schedule (module_paths entries) threads fair)
