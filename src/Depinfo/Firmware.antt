-- ===== src/Depinfo/Firmware.antt =====
-- utils/depinfo/kmod-depinfo.c: the search for firmware. What access and glob answer is the record
-- `Files`; what is printed is a list of lines with their depth.
use make_initrd.Prelude.{
  ℕ, zero, suc, ◌-◌, Bool, List, [], ◌∷◌, ◌++◌, ◌==◌, ltb, leb, if◌then◌else◌, length, take, map,
  CString, codes,
}

pub record Files : Type 0 where
  pub exists : CString → Bool
  pub glob : CString → List CString

pub record Line : Type 0 where
  pub depth : ℕ
  pub keyword : CString
  pub value : CString

unfoldable pub indent : ℕ → CString
indent zero = codes "\\_ "
indent (suc n) = codes "   " ++ indent n

-- The text of a line; the flag is SHOW_PREFIX.
unfoldable pub show_with_prefix : Bool → Line → CString
unfolding indent
show_with_prefix show_prefix l =
    (if ltb 1 l.depth then indent (l.depth - 1) else [])
    ++ ((if show_prefix then l.keyword ++ codes " " else []) ++ (l.value ++ 10 ∷ []))

pub record Settings : Type 0 where
  pub kversion : CString
  pub firmware_class_path : CString
  pub firmware_dir : CString
  pub show_missing_firmware : Bool

abbrev pub suffixes : List CString
suffixes = [] ∷ codes ".zst" ∷ codes ".xz" ∷ codes ".bz2" ∷ codes ".gz" ∷ []

abbrev pub max_path_len : ℕ
max_path_len = 4096

-- What snprintf leaves of a path.
abbrev pub fit : CString → CString
fit path = take (max_path_len - 1) path

-- The two paths for a suffix.
unfoldable pub versioned_path : CString → CString → CString → CString → CString
versioned_path kversion basedir pattern suffix =
    fit (basedir ++ (b'/' ∷ (kversion ++ (b'/' ∷ (pattern ++ suffix)))))

unfoldable pub plain_path : CString → CString → CString → CString
plain_path basedir pattern suffix = fit (basedir ++ (b'/' ∷ (pattern ++ suffix)))

-- The parts between colons.
unfoldable pub parts : CString → List CString
parts [] = [] ∷ []
parts (c ∷ cs) =
    let rest = parts cs in
    if c == b':' then [] ∷ rest else elim rest [ [] ↦ (c ∷ []) ∷ [] | p ∷ ps ↦ (c ∷ p) ∷ ps ]

module _ (files : Files) (set : Settings) (show_tree : ℕ) where
  -- The lines that it prints; it answers whether there are any.
  unfoldable pub expand_pattern : CString → CString → List Line
  expand_pattern keyword pattern =
      if files.exists pattern
      then record { depth = show_tree; keyword = keyword; value = pattern } ∷ []
      else map (λ p. record { depth = show_tree; keyword = keyword; value = p })
          (files.glob pattern)

  -- Goes on where nothing was found.
  unfoldable pub or_else : List Line → List Line → List Line
  or_else [] next = next
  or_else (l ∷ ls) next = l ∷ ls

  unfoldable pub try_suffixes : CString → CString → List CString → List Line
  unfolding expand_pattern or_else versioned_path plain_path
  try_suffixes basedir pattern [] = []
  try_suffixes basedir pattern (s ∷ ss) =
      or_else (expand_pattern (codes "firmware") (versioned_path set.kversion basedir pattern s)) (
        or_else (expand_pattern (codes "firmware") (plain_path basedir pattern s))
          (try_suffixes basedir pattern ss))

  -- A directory that does not fit the buffer has nothing.
  unfoldable pub process_firmware_pattern : CString → CString → List Line
  unfolding try_suffixes
  process_firmware_pattern basedir pattern =
      if leb max_path_len (length basedir) then [] else try_suffixes basedir pattern suffixes

  unfoldable pub try_dirs : CString → List CString → List Line
  unfolding process_firmware_pattern or_else
  try_dirs pattern [] =
      if set.show_missing_firmware
      then record { depth = show_tree; keyword = codes "missing-firmware"; value = pattern } ∷ []
      else []
  try_dirs pattern ([] ∷ ds) = try_dirs pattern ds
  try_dirs pattern ((c ∷ cs) ∷ ds) =
      or_else (process_firmware_pattern (c ∷ cs) pattern) (try_dirs pattern ds)

  unfoldable pub class_path : CString → CString → List Line
  unfolding process_firmware_pattern
  class_path [] pattern = []
  class_path (c ∷ cs) pattern = process_firmware_pattern (c ∷ cs) pattern

  unfoldable pub process_firmware : CString → List Line
  unfolding class_path try_dirs or_else parts
  process_firmware pattern =
      or_else (class_path set.firmware_class_path pattern)
        (try_dirs pattern (parts set.firmware_dir))
