-- ===== src/Tests/Image.antt =====
-- The theorems on images at an archive of one file.
use make_initrd.Prelude.{
  ◌/◌, ℕ, ◌+◌, ◌≤◌, ◌<◌, ◌%◌, ◌≡◌, refl, List, [], ◌∷◌, ◌++◌, codes, arith, length, drop, All,
  replicate, str_eq,
}
use make_initrd.Initrd.Header.{CpioHeader, parse_header, strtoul16, hex_run, hex_val, n_align}
use make_initrd.Initrd.Read.{
  next, read_entry, read_loop, read_cpio, out_of_fuel, list_append, format_newascii, header_entry,
  bound_entry, end_entry,
}
use make_initrd.Initrd.Bounds.{IsUnsigned, IsInside, read_entry_lem}
use make_initrd.Initrd.Ends.{start, round, Ending, read_cpio_lem, read_cpio-Inside}
use make_initrd.Initrd.Endless.{signed_entry, signed_entry_never_ends}
use make_initrd.Initrd.Write.{hex_all, header_fields, write_cpio, write_trailer}
use make_initrd.Initrd.Fields.{IsWord, parse_header-header_fields}
use make_initrd.Initrd.Listing.{Widths, preformat_all}
use make_initrd.Initrd.Columns.{Covers, preformat_all-Covers}
use make_initrd.Initrd.Layout.{write_cpio_lem, write_trailer_lem}

-- The file "a" with the two bytes "hi", padded to 116 bytes.
abbrev one_file : List ℕ
one_file =
    codes "0707010000000100008180000000000000000000000001000000000000000200000000"
    ++ codes "0000000000000000000000000000000200000000"
    ++ b'a' ∷ 0 ∷ b'h' ∷ b'i' ∷ 0 ∷ 0 ∷ []

abbrev file_header : CpioHeader
file_header = parse_header one_file

one_file-length : length one_file ≡ 116
one_file-length = refl

read_cpio_lem_example : Ending one_file (read_cpio (length one_file) one_file)
read_cpio_lem_example = read_cpio_lem one_file (omega arith)

first_round : read_entry (length one_file) one_file 0 [] ≡ next 116 (file_header ∷ [])
unfolding read_entry header_entry bound_entry end_entry str_eq parse_header strtoul16 hex_run
    hex_val n_align
first_round = refl

file-IsUnsigned : IsUnsigned file_header
unfolding parse_header strtoul16 hex_run hex_val
file-IsUnsigned = (omega arith, omega arith)

read_entry_lem_example :
    (file_header ∷ [] ≡ list_append [] (parse_header (drop 0 one_file)))
    × (0 + 110 < 116)
    × (116 ≤ length one_file)
    × IsInside (parse_header (drop 0 one_file))
read_entry_lem_example =
    read_entry_lem one_file 0 [] 116 (file_header ∷ []) (omega arith) (omega arith) file-IsUnsigned
      first_round

read_cpio-Inside_example : All IsInside (file_header ∷ []) × (116 ≤ length one_file)
read_cpio-Inside_example =
    read_cpio-Inside one_file 116 (file_header ∷ []) (omega arith)
      (round (omega arith) first_round start) (file-IsUnsigned, tt)

signed_entry_never_ends_example :
    read_loop 1000 (length (signed_entry ++ replicate 4 0)) (signed_entry ++ replicate 4 0) 0 []
    ≡ out_of_fuel
signed_entry_never_ends_example = signed_entry_never_ends 1000 (replicate 4 0) [] (omega arith)

file_words : All IsWord (header_fields file_header)
unfolding parse_header strtoul16 hex_run hex_val
file_words = ground arith

parse_header-header_fields_example :
    (header_fields
        (parse_header (format_newascii ++ (hex_all (header_fields file_header) ++ b'a' ∷ 0 ∷ [])))
      ≡ header_fields file_header)
    × ((parse_header
          (format_newascii ++ (hex_all (header_fields file_header) ++ b'a' ∷ 0 ∷ []))).name
        ≡ b'a' ∷ 0 ∷ [])
parse_header-header_fields_example =
    parse_header-header_fields file_header (b'a' ∷ 0 ∷ []) file_words

file_body : file_header.body_len ≤ length file_header.body
unfolding parse_header strtoul16 n_align hex_run hex_val
file_body = omega arith

write_cpio_lem_example :
    ((write_cpio file_header 4).0 ≡ 4 + length (write_cpio file_header 4).1)
    × ((write_cpio file_header 4).0 % 4 ≡ 0)
write_cpio_lem_example = write_cpio_lem file_header 4 file_words file_body refl

write_trailer_lem_example : (116 + length (write_trailer 116)) % 512 ≡ 0
write_trailer_lem_example = write_trailer_lem 116

abbrev no_widths : Widths
no_widths = record {
  max_nlinks = 1;
  max_size = 1;
  max_uid = 1;
  max_gid = 1;
  max_min = 1;
  max_maj = 1;
}

preformat_all-Covers_example :
    All
      (Covers
        (λ d. d / 256)
        (λ d. d % 256)
        (preformat_all (λ d. d / 256) (λ d. d % 256) (file_header ∷ []) no_widths))
      (file_header ∷ [])
preformat_all-Covers_example =
    preformat_all-Covers (λ d. d / 256) (λ d. d % 256) (file_header ∷ []) no_widths
