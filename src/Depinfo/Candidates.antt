-- ===== src/Depinfo/Candidates.antt =====
-- Which firmware file is shown.
use make_initrd.Prelude.{
  ℕ, ◌≡◌, refl, sym, ap, ◌∙◌, List, [], ◌∷◌, ◌++◌, leb, if◌then◌else◌, length, CString, codes,
  Bool-cases, inl, inr,
}
use make_initrd.Depinfo.Firmware.{
  Files, Line, Settings, suffixes, max_path_len, versioned_path, plain_path, parts, expand_pattern,
  or_else, try_suffixes, process_firmware_pattern, try_dirs, class_path, process_firmware,
}

-- The paths under a directory: for each suffix the one of the kernel's version and then the plain one.
pub under : CString → CString → CString → List CString → List CString
under kversion basedir pattern [] = []
under kversion basedir pattern (s ∷ ss) =
    versioned_path kversion basedir pattern s
    ∷ plain_path basedir pattern s
    ∷ under kversion basedir pattern ss

-- All paths, in the order in which they are looked for; an empty directory stands for none.
pub candidates : CString → CString → List CString → List CString
candidates kversion pattern [] = []
candidates kversion pattern ([] ∷ ds) = candidates kversion pattern ds
candidates kversion pattern ((c ∷ cs) ∷ ds) =
    (if leb max_path_len (length (c ∷ cs)) then [] else under kversion (c ∷ cs) pattern suffixes)
    ++ candidates kversion pattern ds

module _ (files : Files) (set : Settings) (depth : ℕ) where
  -- The first of the paths that stands for a file, or else what comes last.
  pub first_found : List CString → List Line → List Line
  first_found [] last = last
  first_found (p ∷ ps) last = elim (expand_pattern files set depth (codes "firmware") p) [
    | [] ↦ first_found ps last
    | l ∷ ls ↦ l ∷ ls
  ]

  pub missing : CString → List Line
  missing pattern =
      if set.show_missing_firmware
      then record { depth = depth; keyword = codes "missing-firmware"; value = pattern } ∷ []
      else []

  found_step :
      (p : CString) (ps : List CString) (last : List Line)
      → first_found (p ∷ ps) last
        ≡ or_else files set depth
            (expand_pattern files set depth (codes "firmware") p)
            (first_found ps last)
  unfolding first_found or_else
  found_step p ps last =
      elim (expand_pattern files set depth (codes "firmware") p)
        as (λ e.
          (elim e [ [] ↦ first_found ps last | l ∷ ls ↦ l ∷ ls ])
          ≡ or_else files set depth e (first_found ps last)) [ [] ↦ refl | l ∷ ls ↦ refl ]

  or_assoc :
      (a b c : List Line)
      → or_else files set depth (or_else files set depth a b) c
        ≡ or_else files set depth a (or_else files set depth b c)
  unfolding or_else
  or_assoc [] b c = refl
  or_assoc (l ∷ ls) b c = refl

  found-append :
      (ps qs : List CString) (last : List Line)
      → first_found (ps ++ qs) last
        ≡ or_else files set depth (first_found ps []) (first_found qs last)
  unfolding or_else
  found-append [] qs last = unfold first_found in refl
  found-append (p ∷ ps) qs last =
      found_step p (ps ++ qs) last
      ∙ ap (or_else files set depth (expand_pattern files set depth (codes "firmware") p))
          (found-append ps qs last)
      ∙ sym (or_assoc _ (first_found ps []) (first_found qs last))
      ∙ ap (λ x. or_else files set depth x (first_found qs last)) (sym (found_step p ps []))

  suffixes_lem :
      (basedir pattern : CString) (ss : List CString)
      → try_suffixes files set depth basedir pattern ss
        ≡ first_found (under set.kversion basedir pattern ss) []
  unfolding try_suffixes under
  suffixes_lem basedir pattern [] = unfold first_found in refl
  suffixes_lem basedir pattern (s ∷ ss) =
      let own =
        expand_pattern files set depth (codes "firmware")
          (versioned_path set.kversion basedir pattern s) in
      let plain =
        expand_pattern files set depth (codes "firmware") (plain_path basedir pattern s) in
      ap (λ x. or_else files set depth own (or_else files set depth plain x))
        (suffixes_lem basedir pattern ss)
      ∙ ap (or_else files set depth own) (sym (found_step _ _ []))
      ∙ sym (found_step _ _ [])

  one_dir :
      (c : ℕ) (cs pattern : CString)
      → process_firmware_pattern files set depth (c ∷ cs) pattern
        ≡ first_found
            (if leb max_path_len (length (c ∷ cs))
              then []
              else under set.kversion (c ∷ cs) pattern suffixes)
            []
  unfolding process_firmware_pattern
  one_dir c cs pattern = elim (Bool-cases (leb max_path_len (length (c ∷ cs)))) [
    | inl long ↦ rw long (unfold first_found in refl)
    | inr short ↦ rw short (suffixes_lem (c ∷ cs) pattern suffixes)
  ]

  dirs_lem :
      (pattern : CString) (ds : List CString)
      → try_dirs files set depth pattern ds
        ≡ first_found (candidates set.kversion pattern ds) (missing pattern)
  unfolding try_dirs candidates missing
  dirs_lem pattern [] = unfold first_found in refl
  dirs_lem pattern ([] ∷ ds) = dirs_lem pattern ds
  dirs_lem pattern ((c ∷ cs) ∷ ds) =
      ap (λ x. or_else files set depth x (try_dirs files set depth pattern ds))
        (one_dir c cs pattern)
      ∙ ap (or_else files set depth _) (dirs_lem pattern ds)
      ∙ sym (found-append _ (candidates set.kversion pattern ds) (missing pattern))

  class_first :
      (pattern class_dir : CString) (ds : List CString)
      → or_else files set depth
          (class_path files set depth class_dir pattern)
          (try_dirs files set depth pattern ds)
        ≡ first_found (candidates set.kversion pattern (class_dir ∷ ds)) (missing pattern)
  unfolding class_path or_else candidates
  class_first pattern [] ds = dirs_lem pattern ds
  class_first pattern (c ∷ cs) ds = unfold try_dirs in dirs_lem pattern ((c ∷ cs) ∷ ds)

-- A firmware is looked for in the directory of the kernel's parameter and then in those of the list;
-- what is shown is what the first path stands for that exists or that glob expands, in the order of
-- directories, suffixes, and the kernel's version before none, or the report that it is missing.
pub process_firmware_lem :
    (files : Files) (set : Settings) (depth : ℕ) (pattern : CString)
    → process_firmware files set depth pattern
      ≡ first_found files set depth
          (candidates set.kversion pattern (set.firmware_class_path ∷ parts set.firmware_dir))
          (missing files set depth pattern)
unfolding process_firmware
process_firmware_lem files set depth pattern =
    class_first files set depth pattern set.firmware_class_path (parts set.firmware_dir)
