-- ===== src/Initrd/Bounds.antt =====
-- One round of the loop of `read_cpio`.
use make_initrd.Prelude.{
  ℕ, ◌+◌, ◌-◌, ◌*◌, ◌/◌, ◌^◌, ◌≤◌, ◌<◌, ◌≡◌, refl, ap, List, [], ◌∷◌, arith, length, drop,
  length-drop,
}
use make_initrd.Initrd.Header.{CpioHeader, cpio_header_size, add64, n_align, parse_header}
use make_initrd.Initrd.Read.{
  next, last, align_entry, end_entry, bound_entry, header_entry, read_entry, list_append,
  list_shift,
}

end_entry-next :
    (o : ℕ) (h : CpioHeader) (hs : List CpioHeader) (o' : ℕ) (hs' : List CpioHeader)
    → end_entry o h hs ≡ next o' hs'
    → (o' ≡ o) × (hs' ≡ hs)
unfolding end_entry
end_entry-next o h hs o' hs' e = ground arith

bound_entry-next :
    (size o : ℕ) (h : CpioHeader) (hs : List CpioHeader) (o' : ℕ) (hs' : List CpioHeader)
    → bound_entry size o h hs ≡ next o' hs'
    → (o' ≡ align_entry (add64 (add64 o (n_align h.name_len)) h.body_len))
      × (add64 (add64 o (n_align h.name_len)) h.body_len ≤ size)
      × (o' ≤ size)
      × (hs' ≡ hs)
unfolding bound_entry
bound_entry-next size o h hs o' hs' e =
    let end = add64 (add64 o (n_align h.name_len)) h.body_len in
    ground (arith, end_entry-next (align_entry end) h hs o' hs')

header_entry-next :
    (size o : ℕ) (rest : List ℕ) (hs : List CpioHeader) (o' : ℕ) (hs' : List CpioHeader)
    → header_entry size o rest hs ≡ next o' hs'
    → let h = parse_header rest in
      let p = add64 o cpio_header_size in
      (p ≤ size)
      × (cpio_header_size ≤ length rest)
      × (o' ≡ align_entry (add64 (add64 p (n_align h.name_len)) h.body_len))
      × (add64 (add64 p (n_align h.name_len)) h.body_len ≤ size)
      × (o' ≤ size)
      × (0 < h.name_len)
      × (hs' ≡ list_append hs h)
unfolding header_entry
header_entry-next size o rest hs o' hs' e =
    let h = parse_header rest in
    ground (arith, bound_entry-next size (add64 o cpio_header_size) h (list_append hs h) o' hs')

read_entry-header :
    (size : ℕ) (raw : List ℕ) (o : ℕ) (hs : List CpioHeader) (o' : ℕ) (hs' : List CpioHeader)
    → read_entry size raw o hs ≡ next o' hs'
    → header_entry size o (drop o raw) hs ≡ next o' hs'
unfolding read_entry
read_entry-header size raw o hs o' hs' e = ground arith

-- The two sizes were written without a sign.
abbrev pub IsUnsigned : CpioHeader → Type 0
IsUnsigned h = (h.name_len < 2 ^ 32) × (h.body_len < 2 ^ 32)

-- The name and the body that the header declares are in the buffer.
abbrev pub IsInside : CpioHeader → Type 0
IsInside h = (h.name_len ≤ length h.name) × (h.body_len ≤ length h.body)

small_sum :
    (o n b : ℕ)
    → o < 2 ^ 63
    → n < 2 ^ 32
    → b < 2 ^ 32
    → add64 (add64 (add64 o 110) (n_align n)) b ≡ o + 110 + ((n + 1) / 4 * 4 + 2) + b
unfolding n_align
small_sum o n b ho hn hb = omega arith

small_align : (n : ℕ) → n < 2 ^ 64 - 3 → (n ≤ align_entry n) × (align_entry n ≤ n + 3)
small_align n h = omega arith

align_covers : (n : ℕ) → n < 2 ^ 32 → n ≤ n_align n
unfolding n_align
align_covers n h = omega arith

header-IsInside :
    (raw : List ℕ) (o : ℕ)
    → let h = parse_header (drop o raw) in
      o + 110 + n_align h.name_len + h.body_len ≤ length raw
      → h.name_len ≤ n_align h.name_len
      → IsInside h
unfolding parse_header
header-IsInside raw o l c =
    let rest = drop o raw in
    let h = parse_header rest in
    let name = drop 104 (drop 6 rest) in
    (
      omega (arith, l, c, length-drop o raw, length-drop 6 rest, length-drop 104 (drop 6 rest)),
      omega (
        arith,
        l,
        c,
        length-drop o raw,
        length-drop 6 rest,
        length-drop 104 (drop 6 rest),
        length-drop (n_align h.name_len) name,
      ),
    )

round_moves :
    (size o n b o' : ℕ)
    → size < 2 ^ 63
    → o ≤ size
    → n < 2 ^ 32
    → b < 2 ^ 32
    → o' ≡ align_entry (add64 (add64 (add64 o 110) (n_align n)) b)
    → add64 (add64 (add64 o 110) (n_align n)) b ≤ size
    → (o + 110 < o') × (o + 110 + n_align n + b ≤ size)
unfolding n_align
round_moves size o n b o' s ho hn hb e l = (omega arith, omega arith)

-- A round that goes on, over a header with sizes without a sign, appends that header; the offset
-- moves on by more than a header and stays in the archive, and the name and the body that the header
-- declares are in the buffer.
pub read_entry_lem :
    (raw : List ℕ) (o : ℕ) (hs : List CpioHeader) (o' : ℕ) (hs' : List CpioHeader)
    → length raw < 2 ^ 63
    → o ≤ length raw
    → IsUnsigned (parse_header (drop o raw))
    → read_entry (length raw) raw o hs ≡ next o' hs'
    → (hs' ≡ list_append hs (parse_header (drop o raw)))
      × (o + 110 < o')
      × (o' ≤ length raw)
      × IsInside (parse_header (drop o raw))
read_entry_lem raw o hs o' hs' s l (n, b) e =
    let size = length raw in
    let h = parse_header (drop o raw) in
    let (_, _, at, fits, stays, _, grown) =
      header_entry-next size o (drop o raw) hs o' hs' (read_entry-header size raw o hs o' hs' e) in
    let (moves, bound) = round_moves size o h.name_len h.body_len o' s l n b at fits in
    (grown, moves, stays, header-IsInside raw o bound (align_covers h.name_len n))

-- What a round that goes on does whatever the header holds.
pub read_entry_grows :
    (raw : List ℕ) (o : ℕ) (hs : List CpioHeader) (o' : ℕ) (hs' : List CpioHeader)
    → read_entry (length raw) raw o hs ≡ next o' hs'
    → (hs' ≡ list_append hs (parse_header (drop o raw))) × (o' ≤ length raw)
read_entry_grows raw o hs o' hs' e =
    let size = length raw in
    let (_, _, _, _, stays, _, grown) =
      header_entry-next size o (drop o raw) hs o' hs' (read_entry-header size raw o hs o' hs' e) in
    (grown, stays)

list_shift-list_append :
    (hs : List CpioHeader) (h : CpioHeader) → list_shift (list_append hs h) ≡ hs
unfolding list_shift list_append
list_shift-list_append [] h = refl
list_shift-list_append (x ∷ []) h = refl
list_shift-list_append (x ∷ y ∷ hs) h = ap (λ t. x ∷ t) (list_shift-list_append (y ∷ hs) h)

end_entry-last :
    (o : ℕ) (h : CpioHeader) (hs : List CpioHeader) (o' : ℕ) (hs' : List CpioHeader)
    → end_entry o h hs ≡ last o' hs'
    → hs' ≡ list_shift hs
unfolding end_entry
end_entry-last o h hs o' hs' e = ground arith

bound_entry-last :
    (size o : ℕ) (h : CpioHeader) (hs : List CpioHeader) (o' : ℕ) (hs' : List CpioHeader)
    → bound_entry size o h hs ≡ last o' hs'
    → hs' ≡ list_shift hs
unfolding bound_entry
bound_entry-last size o h hs o' hs' e =
    let end = add64 (add64 o (n_align h.name_len)) h.body_len in
    ground (arith, end_entry-last (align_entry end) h hs o' hs')

header_entry-last :
    (size o : ℕ) (rest : List ℕ) (hs : List CpioHeader) (o' : ℕ) (hs' : List CpioHeader)
    → header_entry size o rest hs ≡ last o' hs'
    → hs' ≡ list_shift (list_append hs (parse_header rest))
unfolding header_entry
header_entry-last size o rest hs o' hs' e =
    let h = parse_header rest in
    ground (arith, bound_entry-last size (add64 o cpio_header_size) h (list_append hs h) o' hs')

-- The trailer is not among the headers.
pub read_entry-last :
    (size : ℕ) (raw : List ℕ) (o : ℕ) (hs : List CpioHeader) (o' : ℕ) (hs' : List CpioHeader)
    → read_entry size raw o hs ≡ last o' hs'
    → hs' ≡ hs
unfolding read_entry
read_entry-last size raw o hs o' hs' e =
    let rest = drop o raw in
    ground (
      arith,
      header_entry-last size o rest hs o' hs',
      list_shift-list_append hs (parse_header rest),
    )
