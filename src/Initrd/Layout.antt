-- ===== src/Initrd/Layout.antt =====
-- Where `write_cpio` and `write_trailer` leave the output.
use make_initrd.Prelude.{
  ℕ, zero, suc, ◌+◌, ◌%◌, ◌≤◌, ◌≡◌, refl, List, [], ◌∷◌, ◌++◌, arith, ◌==◌, length, length-append,
  length-take, take, Bool-cases, inl, inr, All,
}
use make_initrd.Initrd.Header.{CpioHeader, cpio_header_size}
use make_initrd.Initrd.Read.{format_newascii, trailer}
use make_initrd.Initrd.Fields.{IsWord, length-hex_all}
use make_initrd.Initrd.Write.{
  Written, ◌▹◌, hex_all, header_fields, cstring, zeros, push_hdr, push_string, push_pad, push_rest,
  push_body, no_body, write_cpio, trailer_fields, write_trailer,
}

zeros_to_4 : (o : ℕ) → (o + length (zeros 4 4 o)) % 4 ≡ 0
unfolding zeros
zeros_to_4 o = ground arith

zeros_to_512 :
    (fuel o : ℕ) → 511 ≤ fuel + (o + 511) % 512 → (o + length (zeros fuel 512 o)) % 512 ≡ 0
unfolding zeros
zeros_to_512 zero o h = omega (arith, h)
zeros_to_512 (suc fuel) o h = ground (arith, zeros_to_512 fuel (o + 1))

-- The offset counts what was written.
abbrev pub Counts : ℕ → Written → Type 0
Counts o w = w.0 ≡ o + length w.1

hdr-Counts :
    (xs : List ℕ) (o : ℕ)
    → All IsWord xs
    → length xs ≡ 13
    → Counts o (push_hdr (format_newascii ++ hex_all xs) o)
unfolding push_hdr
hdr-Counts xs o ws l =
    let s = format_newascii ++ hex_all xs in
    omega (
      arith,
      length-take 110 s,
      length-append format_newascii (hex_all xs),
      length-hex_all xs ws,
      l,
    )

pad-Counts : (o : ℕ) → Counts o (push_pad o) × ((push_pad o).0 % 4 ≡ 0)
unfolding push_pad
pad-Counts o = (refl, zeros_to_4 o)

string-Counts : (name : List ℕ) (o : ℕ) → Counts o (push_string name o)
unfolding push_string
string-Counts name o = omega (arith, length-append (cstring name) (0 ∷ []))

rest-Counts :
    (name : List ℕ) (o : ℕ)
    → o % 4 ≡ 2
    → Counts o (push_rest name o) × ((push_rest name o).0 % 4 ≡ 0)
unfolding push_rest
rest-Counts name o h =
    let n = length (cstring name) + 1 in
    let pad = zeros 4 4 (cpio_header_size + n) in
    (
      omega (arith, length-append (cstring name) (0 ∷ pad)),
      omega (arith, h, zeros_to_4 (cpio_header_size + n)),
    )

then-Counts :
    (w : Written) (f : ℕ → Written) (o : ℕ) → Counts o w → Counts w.0 (f w.0) → Counts o (w ▹ f)
then-Counts (p, out) f o c d = omega (arith, c, d, length-append out (f p).1)

body-Counts :
    (h : CpioHeader) (o : ℕ)
    → h.body_len ≤ length h.body
    → o % 4 ≡ 0
    → Counts o (push_body h o) × ((push_body h o).0 % 4 ≡ 0)
unfolding push_body
body-Counts h o l a = elim (Bool-cases (h.body_len == 0)) [
  | inl e ↦ rw e (omega arith, a)
  | inr e ↦
      let (c, d) = pad-Counts (o + h.body_len) in
      let written : Counts o (o + h.body_len, take h.body_len h.body) =
        omega (arith, l, length-take h.body_len h.body) in
      rw e (then-Counts (o + h.body_len, take h.body_len h.body) push_pad o written c, d)
]

-- An entry whose numbers fit 32 bits and whose body is there leaves, after a multiple of four bytes,
-- a multiple of four bytes, and the offset that `write_cpio` returns counts what it wrote.
pub write_cpio_lem :
    (h : CpioHeader) (o : ℕ)
    → All IsWord (header_fields h)
    → h.body_len ≤ length h.body
    → o % 4 ≡ 0
    → ((write_cpio h o).0 ≡ o + length (write_cpio h o).1) × ((write_cpio h o).0 % 4 ≡ 0)
unfolding write_cpio
write_cpio_lem h o ws l a =
    let s = format_newascii ++ hex_all (header_fields h) in
    let header = hdr-Counts (header_fields h) o ws refl in
    elim (Bool-cases (no_body h.mode)) [
      | inl e ↦
          let (c, d) = rest-Counts h.name (push_hdr s o).0 (moved o a) in
          rw e (then-Counts (push_hdr s o) (push_rest h.name) o header c, d)
      | inr e ↦
          let w = push_hdr s o ▹ push_string h.name in
          let named =
            then-Counts (push_hdr s o) (push_string h.name) o header (string-Counts h.name _) in
          let (c, d) = pad-Counts w.0 in
          let padded = then-Counts w push_pad o named c in
          let (b, m) = body-Counts h (w ▹ push_pad).0 l d in
          rw e (then-Counts (w ▹ push_pad) (push_body h) o padded b, m)
    ]
  where
    moved : (o : ℕ) → o % 4 ≡ 0 → (o + 110) % 4 ≡ 2
    moved o a = omega (arith, a)

-- The trailer ends the output at a multiple of 512 bytes.
pub write_trailer_lem : (o : ℕ) → (o + length (write_trailer o)) % 512 ≡ 0
unfolding write_trailer push_rest
write_trailer_lem o =
    let s = format_newascii ++ hex_all trailer_fields in
    let w = push_hdr s o ▹ push_rest trailer in
    omega (
      arith,
      length-append w.1 (zeros 512 512 w.0),
      zeros_to_512 512 w.0 (omega arith),
      hdr-Counts trailer_fields o small refl,
    )
  where
    small : All IsWord trailer_fields
    small = ground arith
