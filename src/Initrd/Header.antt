-- ===== src/Initrd/Header.antt =====
-- utils/initrd-cpio.c: the header of a cpio entry. A buffer is the list of its bytes, and a pointer
-- into it the bytes from there on. `unsigned long` has 64 bits, `unsigned` 32.
use Prim.Native.Nat.{bit_and, bit_or}
use make_initrd.Prelude.{
  ℕ, zero, suc, ◌+◌, ◌-◌, ◌*◌, ◌/◌, ◌%◌, ◌^◌, Bool, ◌&&◌, ◌||◌, Option, none, some, List, [], ◌∷◌,
  ◌==◌, leb, if◌then◌else◌, get_or, take, drop, CString,
}

abbrev pub cpio_header_size : ℕ
cpio_header_size = 110

abbrev pub add64 : ℕ → ℕ → ℕ
add64 a b = (a + b) % 2 ^ 64

-- `N_ALIGN`: `x & ~3UL` clears the two lowest bits.
unfoldable pub n_align : ℕ → ℕ
n_align len = add64 (add64 len 1 / 4 * 4) 2

pub record CpioHeader : Type 0 where
  pub ino : ℕ
  pub mode : ℕ
  pub uid : ℕ
  pub gid : ℕ
  pub nlink : ℕ
  pub mtime : ℕ
  pub body_len : ℕ
  pub major : ℕ
  pub minor : ℕ
  pub rmajor : ℕ
  pub rminor : ℕ
  pub rdev : ℕ
  pub name_len : ℕ
  pub name : List ℕ
  pub body : List ℕ

-- isspace in the C locale.
abbrev pub is_space : ℕ → Bool
is_space c = c == 32 || (leb 9 c && leb c 13)

-- The value of a hexadecimal digit.
unfoldable pub hex_val : ℕ → Option ℕ
hex_val c =
    if leb b'0' c && leb c b'9'
    then some (c - b'0')
    else if leb b'a' c && leb c b'f'
    then some (c - 87)
    else if leb b'A' c && leb c b'F'
    then some (c - 55)
    else none

unfoldable pub hex_run : ℕ → CString → ℕ
hex_run acc [] = acc
hex_run acc (c ∷ cs) = elim (hex_val c) [ none ↦ acc | some d ↦ hex_run (acc * 16 + d) cs ]

unfoldable pub skip_space : CString → CString
skip_space [] = []
skip_space (c ∷ cs) = if is_space c then skip_space cs else c ∷ cs

-- An optional `0x` before the digits.
unfoldable pub unprefixed : CString → ℕ
unprefixed (z ∷ x ∷ cs) =
    if z == b'0' && (x == b'x' || x == b'X') then hex_run 0 cs else hex_run 0 (z ∷ x ∷ cs)
unprefixed cs = hex_run 0 cs

unfoldable pub signed : CString → ℕ
unfolding unprefixed
signed [] = 0
signed (c ∷ cs) =
    if c == b'-'
    then (2 ^ 64 - unprefixed cs) % 2 ^ 64
    else if c == b'+'
    then unprefixed cs
    else unprefixed (c ∷ cs)

-- strtoul(s, NULL, 16) on the eight characters of a field, which cannot overflow: spaces, a sign,
-- which negates modulo 2^64, and the digits up to the first other character.
unfoldable pub strtoul16 : CString → ℕ
unfolding skip_space signed
strtoul16 s = signed (skip_space s)

unfoldable pub parse_fields : ℕ → List ℕ → List ℕ
parse_fields zero s = []
parse_fields (suc n) s = strtoul16 (take 8 s) ∷ parse_fields n (drop 8 s)

unfoldable pub mkdev : ℕ → ℕ → ℕ
mkdev ma mi = bit_or (ma * 2 ^ 20 % 2 ^ 64) mi

unfoldable pub new_encode_dev : ℕ → ℕ
new_encode_dev dev =
    let major = dev / 2 ^ 20 % 2 ^ 32 in
    let minor = bit_and (dev % 2 ^ 32) (2 ^ 20 - 1) in
    bit_or (bit_or (bit_and minor 0xff) (major * 2 ^ 8 % 2 ^ 32))
      (bit_and minor (2 ^ 32 - 1 - 0xff) * 2 ^ 12 % 2 ^ 32)

-- `s` points to the magic number. A body pointer that wraps is never followed: `read_cpio` stops.
unfoldable pub parse_header : List ℕ → CpioHeader
unfolding parse_fields mkdev new_encode_dev
parse_header s =
    let parsed = parse_fields 13 (drop 6 s) in
    let name = drop 104 (drop 6 s) in
    let name_len = get_or parsed 11 0 in
    record {
      ino = get_or parsed 0 0;
      mode = get_or parsed 1 0 % 2 ^ 32;
      uid = get_or parsed 2 0 % 2 ^ 32;
      gid = get_or parsed 3 0 % 2 ^ 32;
      nlink = get_or parsed 4 0;
      mtime = get_or parsed 5 0;
      body_len = get_or parsed 6 0;
      major = get_or parsed 7 0;
      minor = get_or parsed 8 0;
      rmajor = get_or parsed 9 0;
      rminor = get_or parsed 10 0;
      rdev = new_encode_dev (mkdev (get_or parsed 9 0) (get_or parsed 10 0));
      name_len = name_len;
      name = name;
      body = drop (n_align name_len) name;
    }
