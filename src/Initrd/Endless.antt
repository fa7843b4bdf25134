-- ===== src/Initrd/Endless.antt =====
-- A header with a signed size, and the loop of `read_cpio`.
use make_initrd.Prelude.{
  ℕ, zero, suc, ◌+◌, ◌≤◌, ◌≡◌, refl, true, false, List, [], ◌∷◌, ◌++◌, arith, ltb, ◌^◌, ◌-◌, length,
  length-append, codes, take, str_eq,
}
use make_initrd.Initrd.Header.{
  CpioHeader, parse_header, strtoul16, parse_fields, n_align, signed, unprefixed, hex_run, hex_val,
}
use make_initrd.Initrd.Read.{
  next, read_entry, header_entry, bound_entry, end_entry, out_of_fuel, read_loop, list_append,
  format_oldascii, format_newascii,
}

-- A header with a name of one byte and the body length "-0000070", and the name.
abbrev pub signed_entry : List ℕ
signed_entry =
    codes "070701000000000000000000000000000000000000000000000000"
    ++ codes "-0000070"
    ++ codes "0000000000000000000000000000000000000001"
    ++ codes "00000000"
    ++ 0 ∷ 0 ∷ []

signed_length : length signed_entry ≡ 112
signed_length = refl

header_sizes :
    (tail : List ℕ)
    → ((parse_header (signed_entry ++ tail)).name_len ≡ 1)
      × ((parse_header (signed_entry ++ tail)).body_len ≡ 2 ^ 64 - 112)
unfolding parse_header parse_fields strtoul16 signed unprefixed hex_run hex_val
header_sizes tail = (refl, refl)

magic :
    (tail : List ℕ)
    → (str_eq (take 6 (signed_entry ++ tail)) format_oldascii ≡ false)
      × (str_eq (take 6 (signed_entry ++ tail)) format_newascii ≡ true)
unfolding str_eq
magic tail = (refl, refl)

whole_length : (tail : List ℕ) → length (signed_entry ++ tail) ≡ 112 + length tail
whole_length tail = length-append signed_entry tail

back :
    (tail : List ℕ) (hs : List CpioHeader)
    → 4 ≤ length tail
    → read_entry (length (signed_entry ++ tail)) (signed_entry ++ tail) 0 hs
      ≡ next 0 (list_append hs (parse_header (signed_entry ++ tail)))
unfolding read_entry header_entry bound_entry end_entry n_align
back tail hs l =
    let size = length tail in
    let (n, b) = header_sizes tail in
    let (old, new) = magic tail in
    let large : ltb (112 + size) 116 ≡ false = ground (arith, l) in
    let holds : ltb (112 + size) 6 ≡ false = ground (arith, l) in
    let header : ltb (112 + size) 110 ≡ false = ground (arith, l) in
    let fits : ltb (112 + size) 0 ≡ false = ground (arith, l) in
    rw (whole_length tail, large, holds, old, new, header, n, b, fits) refl

-- Whatever follows this entry, of which four bytes are needed, the loop reads it again and again: no
-- number of rounds is enough. Its body length is negative, so the end of the entry is its start, and
-- the tests of the end against the archive's size pass.
pub signed_entry_never_ends :
    (fuel : ℕ) (tail : List ℕ) (hs : List CpioHeader)
    → 4 ≤ length tail
    → read_loop fuel (length (signed_entry ++ tail)) (signed_entry ++ tail) 0 hs ≡ out_of_fuel
unfolding read_loop
signed_entry_never_ends zero tail hs l =
    let some_left : ltb 0 (112 + length tail) ≡ true = ground arith in
    rw (whole_length tail, some_left) refl
signed_entry_never_ends (suc fuel) tail hs l =
    let some_left : ltb 0 (length (signed_entry ++ tail)) ≡ true =
      ground (arith, whole_length tail) in
    rw (some_left, back tail hs l)
      (signed_entry_never_ends fuel tail (list_append hs (parse_header (signed_entry ++ tail))) l)
