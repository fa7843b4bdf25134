-- ===== src/Initrd/Write.antt =====
-- utils/initrd-cpio.c: `write_cpio` and `write_trailer`. What is written to the output is the list
-- of its bytes. `offset` counts bytes of a file, so it does not wrap.
use make_initrd.Prelude.{
  ℕ, zero, suc, ◌+◌, ◌/◌, ◌%◌, ◌^◌, Bool, ◌||◌, List, [], ◌∷◌, ◌++◌, ◌==◌, ltb, if◌then◌else◌,
  length, take, CString,
}
use make_initrd.Initrd.Header.{CpioHeader, cpio_header_size}
use make_initrd.Initrd.Read.{format_newascii, trailer}

-- The digits of `%X`.
unfoldable pub hex_digit : ℕ → ℕ
hex_digit d = if ltb d 10 then d + b'0' else d + 55

unfoldable pub hex_fixed : ℕ → ℕ → List ℕ
unfolding hex_digit
hex_fixed zero x = []
hex_fixed (suc n) x = hex_fixed n (x / 16) ++ hex_digit (x % 16) ∷ []

-- At least eight digits, and as many as the number needs.
unfoldable pub hex_width : ℕ → ℕ → ℕ → ℕ
hex_width zero w x = w
hex_width (suc fuel) w x = let rest = hex_width fuel (w + 1) x in if ltb x (16 ^ w) then w else rest

-- `%08lX` of an unsigned long, which has sixteen digits at most.
unfoldable pub hex8 : ℕ → List ℕ
unfolding hex_fixed hex_width
hex8 x = hex_fixed (hex_width 8 8 x) x

unfoldable pub hex_all : List ℕ → List ℕ
unfolding hex8
hex_all [] = []
hex_all (x ∷ xs) = hex8 x ++ hex_all xs

-- The bytes before the first zero.
unfoldable pub cstring : List ℕ → CString
cstring [] = []
cstring (c ∷ cs) = if c == 0 then [] else c ∷ cstring cs

-- `while (offset % m) { fputc(0, output); offset++; }`, which stops within m rounds.
unfoldable pub zeros : ℕ → ℕ → ℕ → List ℕ
zeros zero m offset = []
zeros (suc fuel) m offset =
    let rest = zeros fuel m (offset + 1) in if offset % m == 0 then [] else 0 ∷ rest

-- The new offset, and what is written.
abbrev pub Written : Type 0
Written = ℕ × List ℕ

unfoldable pub push_hdr : List ℕ → ℕ → Written
push_hdr s offset = (offset + cpio_header_size, take cpio_header_size s)

unfoldable pub push_string : List ℕ → ℕ → Written
unfolding cstring
push_string name offset = (offset + (length (cstring name) + 1), cstring name ++ 0 ∷ [])

unfoldable pub push_pad : ℕ → Written
unfolding zeros
push_pad offset = let pad = zeros 4 4 offset in (offset + length pad, pad)

unfoldable pub push_rest : List ℕ → ℕ → Written
unfolding cstring zeros
push_rest name offset =
    let name_len = length (cstring name) + 1 in
    let pad = zeros 4 4 (cpio_header_size + name_len) in
    (offset + name_len + length pad, cstring name ++ 0 ∷ pad)

abbrev pub header_fields : CpioHeader → List ℕ
header_fields h =
    h.ino ∷ h.mode ∷ h.uid ∷ h.gid ∷ h.nlink ∷ h.mtime ∷ h.body_len ∷ h.major ∷ h.minor ∷ h.rmajor
    ∷ h.rminor ∷ h.name_len ∷ 0 ∷ []

-- `data->mode & S_IFMT` is S_IFBLK, S_IFCHR, S_IFDIR, S_IFIFO or S_IFSOCK.
unfoldable pub no_body : ℕ → Bool
no_body mode =
    let format = mode / 4096 % 16 in
    format == 6 || (format == 2 || (format == 4 || (format == 1 || format == 12)))

infixl 6 ◌▹◌
abbrev pub ◌▹◌ : Written → (ℕ → Written) → Written
(offset, out) ▹ f = let (offset', out') = f offset in (offset', out ++ out')

unfoldable pub push_body : CpioHeader → ℕ → Written
unfolding push_pad
push_body h offset =
    if h.body_len == 0
    then (offset, [])
    else (offset + h.body_len, take h.body_len h.body) ▹ push_pad

unfoldable pub write_cpio : CpioHeader → ℕ → Written
unfolding push_hdr push_rest push_string push_pad push_body hex_all no_body
write_cpio h offset =
    let header = push_hdr (format_newascii ++ hex_all (header_fields h)) offset in
    if no_body h.mode
    then header ▹ push_rest h.name
    else header ▹ push_string h.name ▹ push_pad ▹ push_body h

abbrev pub trailer_fields : List ℕ
trailer_fields = 0 ∷ 0 ∷ 0 ∷ 0 ∷ 1 ∷ 0 ∷ 0 ∷ 0 ∷ 0 ∷ 0 ∷ 0 ∷ 11 ∷ 0 ∷ []

unfoldable pub write_trailer : ℕ → List ℕ
unfolding push_hdr push_rest hex_all zeros
write_trailer offset =
    let (offset', out) =
      push_hdr (format_newascii ++ hex_all trailer_fields) offset ▹ push_rest trailer in
    out ++ zeros 512 512 offset'
