-- ===== src/Initrd/Listing.antt =====
-- utils/initrd-ls/initrd-ls-format.c: the widths of the columns, and the letters of a file mode.
-- `major` and `minor` of the C library are parameters. The printing itself is not modelled.
use make_initrd.Prelude.{
  ℕ, zero, suc, ◌+◌, ◌/◌, ◌%◌, ◌^◌, Bool, not, ◌||◌, List, [], ◌∷◌, ◌==◌, ltb, if◌then◌else◌,
}
use make_initrd.Initrd.Header.{CpioHeader}

pub record Widths : Type 0 where
  pub max_nlinks : ℕ
  pub max_size : ℕ
  pub max_uid : ℕ
  pub max_gid : ℕ
  pub max_min : ℕ
  pub max_maj : ℕ

-- The number of decimal digits of a number below 10^20, as snprintf returns it.
unfoldable pub decimals : ℕ → ℕ → ℕ → ℕ
decimals zero w x = w
decimals (suc fuel) w x = let rest = decimals fuel (w + 1) x in if ltb x (10 ^ w) then w else rest

unfoldable pub bytes : ℕ → ℕ
unfolding decimals
bytes x = decimals 19 1 x

-- `if (bytes > max) max = bytes`
unfoldable pub raise : ℕ → ℕ → ℕ
raise max n = if ltb max n then n else max

-- S_ISCHR or S_ISBLK
unfoldable pub is_device : ℕ → Bool
is_device mode = (mode / 4096 % 16 == 2) || (mode / 4096 % 16 == 6)

module _ (major minor : ℕ → ℕ) where
  unfoldable pub preformat : CpioHeader → Widths → Widths
  unfolding raise bytes is_device
  preformat h w =
      let maj = raise w.max_maj (bytes (major h.rdev)) in
      let min = raise w.max_min (bytes (minor h.rdev)) in
      let device = is_device h.mode in
      record {
        max_nlinks = raise w.max_nlinks (bytes h.nlink);
        max_uid = raise w.max_uid (bytes h.uid);
        max_gid = raise w.max_gid (bytes h.gid);
        max_maj = if device then maj else w.max_maj;
        max_min = if device then min else w.max_min;
        max_size = raise w.max_size (if device then maj + min + 1 else bytes h.body_len);
      }

  unfoldable pub preformat_all : List CpioHeader → Widths → Widths
  preformat_all [] w = w
  preformat_all (h ∷ hs) w = preformat_all hs (preformat h w)

-- `STAT_ISSET` for a mask of the one bit n.
abbrev pub stat_isset : ℕ → ℕ → Bool
stat_isset mode n = mode / 2 ^ n % 2 == 1

unfoldable pub type_letter : ℕ → ℕ
type_letter mode =
    let format = mode / 4096 % 16 in
    if format == 6
    then b'b'
    else if format == 2
    then b'c'
    else if format == 4
    then b'd'
    else if format == 1
    then b'p'
    else if format == 10
    then b'l'
    else if format == 12
    then b's'
    else if format == 8
    then b'-'
    else b'?'

abbrev pub letter : Bool → ℕ → ℕ
letter set c = if set then c else b'-'

-- What show_header prints for the mode.
unfoldable pub mode_letters : ℕ → List ℕ
unfolding type_letter
mode_letters mode =
    type_letter mode
    ∷ letter (stat_isset mode 8) b'r'
    ∷ letter (stat_isset mode 7) b'w'
    ∷ (if not (stat_isset mode 11) then letter (stat_isset mode 6) b'x' else b'S')
    ∷ letter (stat_isset mode 5) b'r'
    ∷ letter (stat_isset mode 4) b'w'
    ∷ (if not (stat_isset mode 10) then letter (stat_isset mode 3) b'x' else b'S')
    ∷ letter (stat_isset mode 2) b'r'
    ∷ letter (stat_isset mode 1) b'w'
    ∷ (if not (stat_isset mode 9)
        then letter (stat_isset mode 0) b'x'
        else if mode / 4096 % 16 == 4
        then b't'
        else b'T')
    ∷ []
