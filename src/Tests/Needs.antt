-- ===== src/Tests/Needs.antt =====
-- The theorems on dependencies at two modules that need each other and a firmware file.
use make_initrd.Prelude.{
  if_both, CString, ℕ, ◌≡◌, refl, true, false, none, some, [], ◌∷◌, ◌++◌, ◌==◌, if◌then◌else◌,
  codes, str_eq,
}
use make_initrd.Depinfo.Firmware.{Files, Settings, process_firmware, parts}
use make_initrd.Depinfo.Candidates.{candidates, first_found, missing, process_firmware_lem}
use make_initrd.Depinfo.Builtin.{no_builtins, read_kernel_builtin}
use make_initrd.Depinfo.Walk.{Kmod, Shows, State, depinfo}
use make_initrd.Depinfo.Ends.{depinfo_ends}
use make_initrd.Depinfo.Once.{contains, IsOnce, shown, unique}
use make_initrd.Depinfo.Tracked.{depinfo-Once}

abbrev one_compressed : Files
one_compressed = record { exists = str_eq (codes "/lib/firmware/fw.bin.xz"); glob = λ p. [] }

abbrev usual : Settings
usual = record {
  kversion = codes "6.1";
  firmware_class_path = [];
  firmware_dir = codes "/lib/firmware/updates:/lib/firmware";
  show_missing_firmware = true;
}

process_firmware_lem_example :
    process_firmware one_compressed usual 1 (codes "fw.bin")
    ≡ first_found one_compressed usual 1
        (candidates usual.kversion
          (codes "fw.bin")
          (usual.firmware_class_path ∷ parts usual.firmware_dir))
        (missing one_compressed usual 1 (codes "fw.bin"))
process_firmware_lem_example = process_firmware_lem one_compressed usual 1 (codes "fw.bin")

-- The module 0 needs 1 and 1 needs 0.
abbrev each_other : Kmod
each_other = record {
  path = λ m. some (if m == 0 then codes "/a.ko" else codes "/b.ko");
  name = λ m. if m == 0 then codes "a" else codes "b";
  info = λ m. some ((codes "depends", if m == 0 then codes "b" else codes "a") ∷ []);
  lookup = λ n. some (if str_eq n (codes "a") then 0 ∷ [] else 1 ∷ []);
  softdeps = λ m. none;
  weakdeps = λ m. none;
  drop_blacklisted = λ l. some l;
  drop_builtin = λ l. some l;
}

abbrev everything : Shows
everything = record {
  deps = true;
  modules = true;
  firmware = true;
  builtin = true;
  use_blacklist = false;
  settings = usual;
}

abbrev nothing_yet : State
nothing_yet = record {
  builtins = no_builtins;
  tracked_modules = [];
  show_tree = 1;
  out = [];
  ended = true;
}

nothing_yet-IsOnce : IsOnce nothing_yet
unfolding shown unique
nothing_yet-IsOnce = record { kept = record { once = refl; all_tracked = refl } }

depinfo-Once_example :
    IsOnce (depinfo str_eq one_compressed each_other everything 3 0 nothing_yet).1
depinfo-Once_example =
    depinfo-Once str_eq one_compressed each_other everything 3 0 nothing_yet nothing_yet-IsOnce

two_paths :
    (m : ℕ)
    → (p : CString) × (each_other.path m ≡ some p)
      × (contains p (codes "/a.ko" ∷ codes "/b.ko" ∷ []) ≡ true)
unfolding str_eq
two_paths m =
    if_both
      (λ q.
        (p : CString) × (some q ≡ some p)
        × (contains p (codes "/a.ko" ∷ codes "/b.ko" ∷ []) ≡ true))
      (m == 0) (codes "/a.ko") (codes "/b.ko") (codes "/a.ko", refl, refl)
      (codes "/b.ko", refl, refl)

depinfo_ends_example :
    (depinfo str_eq one_compressed each_other everything 3 0 nothing_yet).1.ended ≡ true
depinfo_ends_example =
    depinfo_ends str_eq one_compressed each_other everything (codes "/a.ko" ∷ codes "/b.ko" ∷ [])
      two_paths 0 nothing_yet refl refl

-- An empty alias and then another: the entry stands twice in the list, which has a loop.
empty_alias :
    (read_kernel_builtin (some (codes "a.alias=" ++ 0 ∷ codes "a.alias=b" ++ 0 ∷ []))).looped ≡ true
unfolding read_kernel_builtin str_eq
empty_alias = refl
