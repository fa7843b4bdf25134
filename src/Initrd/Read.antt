-- ===== src/Initrd/Read.antt =====
-- utils/initrd-cpio.c: `read_cpio`, and the list operations of initrd-common.c that it uses.
-- `size` is the archive's, and the buffer is the list of its bytes; `over_read` is a read past the
-- last of them.
-- `errx` is `failed`. Running out of memory is not modelled.
use make_initrd.Prelude.{
  ℕ, zero, suc, ◌+◌, ◌*◌, ◌/◌, ◌%◌, not, List, [], ◌∷◌, ◌++◌, ◌==◌, ltb, leb, if◌then◌else◌, length,
  take, drop, CString, codes, str_eq,
}
use make_initrd.Initrd.Header.{CpioHeader, cpio_header_size, add64, n_align, parse_header}

-- `list_append` puts an entry behind the last one, and `list_shift` drops the last one.
unfoldable pub list_append {ℓ} : {A : Type ℓ} → List A → A → List A
list_append xs x = xs ++ x ∷ []

unfoldable pub list_shift {ℓ} : {A : Type ℓ} → List A → List A
list_shift [] = []
list_shift (x ∷ []) = []
list_shift (x ∷ y ∷ ys) = x ∷ list_shift (y ∷ ys)

abbrev pub format_newascii : CString
format_newascii = codes "070701"

abbrev pub format_oldascii : CString
format_oldascii = codes "070707"

abbrev pub trailer : CString
trailer = codes "TRAILER!!!"

pub data Failure : Type 0 where
  less_than_header old_format no_magic header_exceeds invalid_name entry_exceeds : Failure

-- One round of the loop: the next offset, the end behind the trailer, or a stop.
pub data Step : Type 0 where
  next : ℕ → List CpioHeader → Step
  last : ℕ → List CpioHeader → Step
  failed : Failure → Step
  over_read : Step

-- `(offset + 3) & ~3UL`
abbrev pub align_entry : ℕ → ℕ
align_entry offset = add64 offset 3 / 4 * 4

-- `while (offset % 512) offset++`; it stops within 512 rounds.
unfoldable pub round_block : ℕ → ℕ → ℕ
round_block zero offset = offset
round_block (suc fuel) offset =
    let rest = round_block fuel (offset + 1) in if offset % 512 == 0 then offset else rest

-- The test for the trailer, once the entry is known to lie in the archive.
unfoldable pub end_entry : ℕ → CpioHeader → List CpioHeader → Step
end_entry offset h hs =
    if not (leb 11 h.name_len)
    then next offset hs
    else if ltb (length h.name) 10
    then over_read
    else if str_eq (take 10 h.name) trailer
    then last (round_block 512 offset) (list_shift hs)
    else next offset hs

unfoldable pub bound_entry : ℕ → ℕ → CpioHeader → List CpioHeader → Step
unfolding end_entry
bound_entry size offset h hs =
    let end = add64 (add64 offset (n_align h.name_len)) h.body_len in
    if ltb size end
    then failed entry_exceeds
    else if ltb size (align_entry end)
    then failed entry_exceeds
    else end_entry (align_entry end) h hs

unfoldable pub header_entry : ℕ → ℕ → List ℕ → List CpioHeader → Step
unfolding bound_entry list_append
header_entry size offset rest hs =
    let h = parse_header rest in
    if ltb size (add64 offset cpio_header_size)
    then failed header_exceeds
    else if ltb (length rest) cpio_header_size
    then over_read
    else if h.name_len == 0
    then failed invalid_name
    else bound_entry size (add64 offset cpio_header_size) h (list_append hs h)

unfoldable pub read_entry : ℕ → List ℕ → ℕ → List CpioHeader → Step
unfolding header_entry
read_entry size raw offset hs =
    let rest = drop offset raw in
    if ltb size 116
    then failed less_than_header
    else if ltb (length rest) 6
    then over_read
    else if str_eq (take 6 rest) format_oldascii
    then failed old_format
    else if not (str_eq (take 6 rest) format_newascii)
    then failed no_magic
    else header_entry size offset rest hs

pub data Archive : Type 0 where
  archive : ℕ → List CpioHeader → Archive
  stopped : Failure → Archive
  faulted : Archive
  out_of_fuel : Archive

unfoldable pub read_loop : ℕ → ℕ → List ℕ → ℕ → List CpioHeader → Archive
read_loop zero size raw offset hs = if ltb offset size then out_of_fuel else archive offset hs
read_loop (suc fuel) size raw offset hs =
    let rest : Archive = elim (read_entry size raw offset hs) [
      | next offset' hs' ↦ read_loop fuel size raw offset' hs'
      | last offset' hs' ↦ archive offset' hs'
      | failed e ↦ stopped e
      | over_read ↦ faulted
    ] in
    if ltb offset size then rest else archive offset hs

-- As many rounds as the archive has bytes; `Ends` is about whether they are enough.
unfoldable pub read_cpio : ℕ → List ℕ → Archive
unfolding read_loop
read_cpio size raw = read_loop size size raw 0 []
