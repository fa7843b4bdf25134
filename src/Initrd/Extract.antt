-- ===== src/Initrd/Extract.antt =====
-- utils/initrd-extract/initrd-extract.c: the entries of one archive of an image, or of all of them,
-- written as one archive. `n_archive` is 0 where the option is not given; parts count from 1, a
-- bootconfig among them.
use make_initrd.Prelude.{ℕ, suc, ◌||◌, List, [], ◌∷◌, ◌++◌, ◌==◌, if◌then◌else◌}
use make_initrd.Initrd.Header.{CpioHeader}
use make_initrd.Initrd.Write.{Written, write_cpio, write_trailer, ◌▹◌}
use make_initrd.Initrd.Stream.{Cpio, cpio_archive, cpio_bootconfig}

unfoldable pub write_entries : List CpioHeader → ℕ → Written
write_entries [] offset = (offset, [])
write_entries (h ∷ hs) offset = write_cpio h offset ▹ write_entries hs

unfoldable pub write_parts : ℕ → ℕ → List Cpio → ℕ → Written
unfolding write_entries
write_parts n_archive c [] offset = (offset, [])
write_parts n_archive c (cpio_bootconfig raw size ∷ ps) offset =
    write_parts n_archive (suc c) ps offset
write_parts n_archive c (cpio_archive m size hs ∷ ps) offset =
    (if n_archive == 0 || c == n_archive then write_entries hs offset else (offset, []))
    ▹ write_parts n_archive (suc c) ps

unfoldable pub extract : ℕ → List Cpio → List ℕ
unfolding write_parts
extract n_archive parts =
    let (offset, out) = write_parts n_archive 1 parts 0 in out ++ write_trailer offset
