-- ===== src/Initrd/Fields.antt =====
-- The header fields, from numbers to hexadecimal digits and back.
use make_initrd.Prelude.{
  ℕ, zero, suc, ◌+◌, ◌*◌, ◌/◌, ◌%◌, ◌^◌, ◌<◌, ◌≡◌, refl, ap, ◌∙◌, true, false, some, List, [], ◌∷◌,
  ◌++◌, arith, ◌==◌, ltb, length, length-append, take, drop, get_or, take-append_length,
  drop-append_length, All,
}
use mathlib.Core.List.{append_assoc}
use make_initrd.Initrd.Header.{
  is_space, hex_val, hex_run, unprefixed, signed, strtoul16, skip_space, CpioHeader, parse_fields,
  parse_header,
}
use mathlib.Core.Path.{subst}
use make_initrd.Initrd.Read.{format_newascii}
use make_initrd.Initrd.Write.{hex_digit, hex_fixed, hex_width, hex8, hex_all, header_fields}

val-digit : (k : ℕ) → k < 16 → hex_val (hex_digit k) ≡ some k
unfolding hex_val hex_digit
val-digit k h = ground arith

-- A digit is no space, no sign and not the x of a prefix.
plain_digit :
    (k : ℕ)
    → k < 16
    → (is_space (hex_digit k) ≡ false)
      × ((hex_digit k == b'-') ≡ false)
      × ((hex_digit k == b'+') ≡ false)
      × ((hex_digit k == b'x') ≡ false)
      × ((hex_digit k == b'X') ≡ false)
unfolding hex_digit
plain_digit k h = ground arith

run_one :
    (acc k : ℕ) (rest : List ℕ)
    → k < 16
    → hex_run acc (hex_digit k ∷ rest) ≡ hex_run (acc * 16 + k) rest
unfolding hex_run
run_one acc k rest h = rw (val-digit k h, hex_run) refl

run-fixed :
    (n x : ℕ) (rest : List ℕ) → x < 16 ^ n → hex_run 0 (hex_fixed n x ++ rest) ≡ hex_run x rest
unfolding hex_run hex_fixed
run-fixed zero x rest h = ap (λ y. hex_run y rest) (omega arith)
run-fixed (suc n) x rest h =
    let digit = hex_digit (x % 16) in
    let last_run : hex_run (x / 16) (digit ∷ rest) ≡ hex_run x rest =
      run_one (x / 16) (x % 16) rest (omega arith) ∙ ap (λ y. hex_run y rest) (omega arith) in
    ap (hex_run 0) (append_assoc (hex_fixed n (x / 16)) (digit ∷ []) rest)
    ∙ run-fixed n (x / 16) (digit ∷ rest) (omega (arith, h))
    ∙ last_run

length-fixed : (n x : ℕ) → length (hex_fixed n x) ≡ n
unfolding hex_fixed
length-fixed zero x = refl
length-fixed (suc n) x =
    omega (
      arith,
      length-fixed n (x / 16),
      length-append (hex_fixed n (x / 16)) (hex_digit (x % 16) ∷ []),
    )

eight_digits : (x : ℕ) → x < 2 ^ 32 → hex8 x ≡ hex_fixed 8 x
unfolding hex8 hex_width
eight_digits x h = let small : ltb x (16 ^ 8) ≡ true = ground (arith, h) in rw small refl

-- The digits, where the first is neither a space nor a sign and the second is no x.
digits_only :
    (a b : ℕ) (cs : List ℕ)
    → a < 16
    → b < 16
    → strtoul16 (hex_digit a ∷ hex_digit b ∷ cs) ≡ hex_run 0 (hex_digit a ∷ hex_digit b ∷ cs)
unfolding strtoul16 signed unprefixed skip_space
digits_only a b cs ha hb =
    let (space, minus, plus, _, _) = plain_digit a ha in
    let (_, _, _, small, large) = plain_digit b hb in
    ground (arith, space, minus, plus, small, large)

read_digits : (x : ℕ) → x < 2 ^ 32 → strtoul16 (hex_fixed 8 x) ≡ x
unfolding hex_fixed hex_run
read_digits x h =
    digits_only _ _ _ (omega arith) (omega arith) ∙ run-fixed 8 x [] (omega (arith, h))

-- A number below 2^32 is written as eight digits, which are read back as that number.
strtoul16-hex8 : (x : ℕ) → x < 2 ^ 32 → (length (hex8 x) ≡ 8) × (strtoul16 (hex8 x) ≡ x)
strtoul16-hex8 x h = rw (eight_digits x h) (length-fixed 8 x, read_digits x h)

abbrev pub IsWord : ℕ → Type 0
IsWord x = x < 2 ^ 32

take-eight : (xs ys : List ℕ) → length xs ≡ 8 → take 8 (xs ++ ys) ≡ xs
take-eight xs ys h = subst (λ n. take n (xs ++ ys) ≡ xs) h (take-append_length xs ys)

drop-eight : (xs ys : List ℕ) → length xs ≡ 8 → drop 8 (xs ++ ys) ≡ ys
drop-eight xs ys h = subst (λ n. drop n (xs ++ ys) ≡ ys) h (drop-append_length xs ys)

parse_fields-hex_all :
    (xs rest : List ℕ) → All IsWord xs → parse_fields (length xs) (hex_all xs ++ rest) ≡ xs
unfolding parse_fields hex_all
parse_fields-hex_all [] rest h = refl
parse_fields-hex_all (x ∷ xs) rest (w, ws) =
    let (eight, value) = strtoul16-hex8 x w in
    rw
      (
        append_assoc (hex8 x) (hex_all xs) rest,
        take-eight (hex8 x) (hex_all xs ++ rest) eight,
        drop-eight (hex8 x) (hex_all xs ++ rest) eight,
        value,
      )
      (ap (λ t. x ∷ t) (parse_fields-hex_all xs rest ws))

pub length-hex_all : (xs : List ℕ) → All IsWord xs → length (hex_all xs) ≡ length xs * 8
unfolding hex_all
length-hex_all [] h = refl
length-hex_all (x ∷ xs) (w, ws) =
    let (eight, _) = strtoul16-hex8 x w in
    omega (arith, length-append (hex8 x) (hex_all xs), eight, length-hex_all xs ws)

drop-more : (n : ℕ) (xs ys : List ℕ) → length xs ≡ n → drop n (xs ++ ys) ≡ ys
drop-more n xs ys h = subst (λ m. drop m (xs ++ ys) ≡ ys) h (drop-append_length xs ys)

-- The fields of a header, by their place, as `parse_header` stores them.
stored : List ℕ → List ℕ
stored ps =
    get_or ps 0 0
    ∷ get_or ps 1 0 % 2 ^ 32
    ∷ get_or ps 2 0 % 2 ^ 32
    ∷ get_or ps 3 0 % 2 ^ 32
    ∷ get_or ps 4 0
    ∷ get_or ps 5 0
    ∷ get_or ps 6 0
    ∷ get_or ps 7 0
    ∷ get_or ps 8 0
    ∷ get_or ps 9 0
    ∷ get_or ps 10 0
    ∷ get_or ps 11 0
    ∷ 0
    ∷ []

parse_header-stored :
    (s : List ℕ) → header_fields (parse_header s) ≡ stored (parse_fields 13 (drop 6 s))
unfolding parse_header stored
parse_header-stored s = refl

parse_header-name : (s : List ℕ) → (parse_header s).name ≡ drop 104 (drop 6 s)
unfolding parse_header
parse_header-name s = refl

stored-header_fields :
    (h : CpioHeader) → All IsWord (header_fields h) → stored (header_fields h) ≡ header_fields h
unfolding stored
stored-header_fields h (_, (wm, (wu, (wg, _)))) =
    let mode : h.mode % 2 ^ 32 ≡ h.mode = omega (arith, wm) in
    let uid : h.uid % 2 ^ 32 ≡ h.uid = omega (arith, wu) in
    let gid : h.gid % 2 ^ 32 ≡ h.gid = omega (arith, wg) in rw (mode, uid, gid) refl

-- The header that `write_cpio` writes, where every number fits 32 bits, is parsed back as the same
-- numbers, and the name is what stands behind it.
pub parse_header-header_fields :
    (h : CpioHeader) (rest : List ℕ)
    → All IsWord (header_fields h)
    → let p = parse_header (format_newascii ++ (hex_all (header_fields h) ++ rest)) in
      (header_fields p ≡ header_fields h) × (p.name ≡ rest)
parse_header-header_fields h rest ws =
    let fields = header_fields h in
    let s = format_newascii ++ (hex_all fields ++ rest) in
    (
      parse_header-stored s
          ∙ ap stored (parse_fields-hex_all fields rest ws)
          ∙ stored-header_fields h ws,
      parse_header-name s ∙ drop-more 104 (hex_all fields) rest (length-hex_all fields ws),
    )
