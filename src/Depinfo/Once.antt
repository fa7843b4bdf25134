-- ===== src/Depinfo/Once.antt =====
-- What is shown of the modules, and that firmware and built-in modules add nothing to it.
use make_initrd.Prelude.{
  ℕ, ◌≡◌, refl, ap, ◌∙◌, Bool, true, false, not, ◌&&◌, List, [], ◌∷◌, ◌++◌, map, arith, ◌==◌, leb,
  if◌then◌else◌, length, any, all, CString, codes, str_eq, if_both,
}
use mathlib.Core.List.{append-nil}
use make_initrd.Depinfo.Firmware.{
  Files, Line, Settings, suffixes, max_path_len, expand_pattern, or_else, try_suffixes,
  process_firmware_pattern, try_dirs, class_path, process_firmware, parts,
}
use make_initrd.Depinfo.Walk.{State}

abbrev pub is_absolute : CString → Bool
is_absolute [] = false
is_absolute (c ∷ cs) = c == b'/'

abbrev pub is_shown : Line → Bool
is_shown l = str_eq l.keyword (codes "module") && is_absolute l.value

-- The absolute paths of the modules that are shown.
unfoldable pub shown : List Line → List CString
shown [] = []
shown (l ∷ ls) = if is_shown l then l.value ∷ shown ls else shown ls

abbrev pub contains : CString → List CString → Bool
contains p ps = any (λ q. str_eq q p) ps

-- No path occurs twice.
unfoldable pub unique : List CString → Bool
unique [] = true
unique (p ∷ ps) = not (contains p ps) && unique ps

-- What is shown is shown once, and it is tracked.
pub record Once (out : List Line) (tracked : List CString) : Type 0 where
  pub once : unique (shown out) ≡ true
  pub all_tracked : all (λ p. contains p tracked) (shown out) ≡ true

pub record IsOnce (s : State) : Type 0 where
  pub kept : Once s.out s.tracked_modules

pub shown-append : (ls ms : List Line) → shown (ls ++ ms) ≡ shown ls ++ shown ms
unfolding shown
shown-append [] ms = refl
shown-append (l ∷ ls) ms = ground (arith, shown-append ls ms)

pub append_other :
    (out ms : List Line) (tracked : List CString)
    → shown ms ≡ []
    → Once out tracked
    → Once (out ++ ms) tracked
append_other out ms tracked e o =
    let same : shown (out ++ ms) ≡ shown out =
      shown-append out ms ∙ ap (λ x. shown out ++ x) e ∙ append-nil (shown out) in
    record { once = rw same o.once; all_tracked = rw same o.all_tracked }

module _ (files : Files) (set : Settings) (depth : ℕ) where
  glob_other :
      (keyword : CString) (ps : List CString)
      → str_eq keyword (codes "module") ≡ false
      → shown (map (λ p. record { depth = depth; keyword = keyword; value = p }) ps) ≡ []
  unfolding shown
  glob_other keyword [] h = refl
  glob_other keyword (p ∷ ps) h = rw h (glob_other keyword ps h)

  one_other :
      (keyword value : CString)
      → str_eq keyword (codes "module") ≡ false
      → shown (record { depth = depth; keyword = keyword; value = value } ∷ []) ≡ []
  unfolding shown
  one_other keyword value h = rw h refl

  abbrev Other : List Line → Type 0
  Other ls = shown ls ≡ []

  firmware_word : str_eq (codes "firmware") (codes "module") ≡ false
  unfolding str_eq
  firmware_word = refl

  missing_word : str_eq (codes "missing-firmware") (codes "module") ≡ false
  unfolding str_eq
  missing_word = refl

  expand-Other : (p : CString) → Other (expand_pattern files set depth (codes "firmware") p)
  unfolding expand_pattern
  expand-Other p =
      if_both Other (files.exists p) _ _ (one_other (codes "firmware") p firmware_word)
        (glob_other (codes "firmware") (files.glob p) firmware_word)

  or_else-Other : (a b : List Line) → Other a → Other b → Other (or_else files set depth a b)
  unfolding or_else
  or_else-Other [] b h k = k
  or_else-Other (l ∷ ls) b h k = h

  suffixes-Other :
      (dir p : CString) (ss : List CString) → Other (try_suffixes files set depth dir p ss)
  unfolding try_suffixes
  suffixes-Other dir p [] = unfold shown in refl
  suffixes-Other dir p (s ∷ ss) =
      or_else-Other _ _ (expand-Other _)
        (or_else-Other _ _ (expand-Other _) (suffixes-Other dir p ss))

  dir-Other : (dir p : CString) → Other (process_firmware_pattern files set depth dir p)
  unfolding process_firmware_pattern
  dir-Other dir p =
      if_both Other (leb max_path_len (length dir)) _ _ (unfold shown in refl)
        (suffixes-Other dir p suffixes)

  dirs-Other : (p : CString) (ds : List CString) → Other (try_dirs files set depth p ds)
  unfolding try_dirs
  dirs-Other p [] =
      if_both Other set.show_missing_firmware _ _
        (one_other (codes "missing-firmware") p missing_word) (unfold shown in refl)
  dirs-Other p ([] ∷ ds) = dirs-Other p ds
  dirs-Other p ((c ∷ cs) ∷ ds) = or_else-Other _ _ (dir-Other (c ∷ cs) p) (dirs-Other p ds)

  class-Other : (dir p : CString) → Other (class_path files set depth dir p)
  unfolding class_path
  class-Other [] p = unfold shown in refl
  class-Other (c ∷ cs) p = dir-Other (c ∷ cs) p

  pub firmware-Other : (p : CString) → Other (process_firmware files set depth p)
  unfolding process_firmware
  firmware-Other p =
      or_else-Other _ _ (class-Other set.firmware_class_path p)
        (dirs-Other p (parts set.firmware_dir))
