-- ===== src/Initrd/Ends.antt =====
-- The rounds of `read_cpio` over a whole archive.
use make_initrd.Prelude.{
  ℕ, zero, suc, ◌+◌, ◌≤◌, ◌<◌, ◌^◌, ◌≡◌, refl, sym, Bool, true, false, ◌||◌, List, [], ◌∷◌, arith,
  ltb, leb, length, drop, Bool-cases, inl, inr, ltb→lt, All,
}
use mathlib.Core.Path.{subst}
use make_initrd.Initrd.Header.{CpioHeader, parse_header}
use make_initrd.Initrd.Read.{
  Step, next, last, failed, over_read, read_entry, Archive, archive, stopped, faulted, read_loop,
  read_cpio, list_append, Failure,
}
use make_initrd.Initrd.Bounds.{
  IsUnsigned, IsInside, read_entry_lem, read_entry_grows, read_entry-last,
}

-- The offset and the headers at the head of the loop.
pub data Visits (raw : List ℕ) : ℕ → List CpioHeader → Type 0 where
  start : Visits raw 0 []
  round :
      {o o' : ℕ} {hs hs' : List CpioHeader}
      → o < length raw
      → read_entry (length raw) raw o hs ≡ next o' hs'
      → Visits raw o hs
      → Visits raw o' hs'

All-append :
    (P : CpioHeader → Type 0) (hs : List CpioHeader) (h : CpioHeader)
    → All P (list_append hs h)
    → All P hs × P h
unfolding list_append
All-append P [] h (p, _) = (tt, p)
All-append P (x ∷ hs) h (p, ps) = let (qs, q) = All-append P hs h ps in ((p, qs), q)

append-All :
    (P : CpioHeader → Type 0) (hs : List CpioHeader) (h : CpioHeader)
    → All P hs
    → P h
    → All P (list_append hs h)
unfolding list_append
append-All P [] h _ q = (q, tt)
append-All P (x ∷ hs) h (p, ps) q = (p, append-All P hs h ps q)

-- At the head of the loop the offset is in the archive, and so is what the headers declare, where
-- their sizes have no sign.
Visits-Inside :
    (raw : List ℕ) {o : ℕ} {hs : List CpioHeader}
    → length raw < 2 ^ 63
    → Visits raw o hs
    → (o ≤ length raw) × (All IsUnsigned hs → All IsInside hs)
Visits-Inside raw s start = (omega arith, λ _. tt)
Visits-Inside raw s (round {o} {o'} {hs} {hs'} l e v) =
    let (grown, stays) = read_entry_grows raw o hs o' hs' e in
    let (_, before) = Visits-Inside raw s v in
    let h = parse_header (drop o raw) in
    (
      stays,
      λ us.
          let (old, new) = All-append IsUnsigned hs h (subst (All IsUnsigned) grown us) in
          let (_, _, _, inside) = read_entry_lem raw o hs o' hs' s (omega (arith, l)) new e in
          subst (All IsInside) (sym grown) (append-All IsInside hs h (before old) inside),
    )

-- Some header that the loop visits has a size of 2^32 or more.
abbrev pub big : CpioHeader → Bool
big h = leb (2 ^ 32) h.name_len || leb (2 ^ 32) h.body_len

not_big : (h : CpioHeader) → big h ≡ false → IsUnsigned h
not_big h e = ground arith

pub data Ending (raw : List ℕ) : Archive → Type 0 where
  -- behind the last entry, or behind the trailer
  complete : {o end : ℕ} {hs : List CpioHeader} → Visits raw o hs → Ending raw (archive end hs)
  refused : {why : Failure} → Ending raw (stopped why)
  beyond : Ending raw faulted
  misled :
      {o o' : ℕ} {hs hs' : List CpioHeader} {a : Archive}
      → Visits raw o hs
      → read_entry (length raw) raw o hs ≡ next o' hs'
      → big (parse_header (drop o raw)) ≡ true
      → Ending raw a

-- A loop whose fuel covers what is left of the archive has an ending.
Enough : List ℕ → ℕ → Type 0
Enough raw fuel =
    (o : ℕ) (hs : List CpioHeader)
    → length raw ≤ fuel + o
    → Visits raw o hs
    → Ending raw (read_loop fuel (length raw) raw o hs)

after_next :
    (fuel : ℕ) (raw : List ℕ) {o : ℕ} {hs : List CpioHeader} {o' : ℕ} {hs' : List CpioHeader}
    → length raw < 2 ^ 63
    → length raw ≤ suc fuel + o
    → o < length raw
    → Visits raw o hs
    → Enough raw fuel
    → read_entry (length raw) raw o hs ≡ next o' hs'
    → Ending raw (read_loop fuel (length raw) raw o' hs')
unfolding Enough
after_next fuel raw {o} {hs} {o'} {hs'} s f l v more e =
    let h = parse_header (drop o raw) in
    elim (Bool-cases (big h)) [
      | inl b ↦ misled v e b
      | inr b ↦
          let (_, moves, _, _) =
            read_entry_lem raw o hs o' hs' s (omega (arith, l)) (not_big h b) e in
          more o' hs' (omega (arith, moves, f)) (round l e v)
    ]

after_round :
    (fuel : ℕ) (raw : List ℕ) {o : ℕ} {hs : List CpioHeader} (r : Step)
    → length raw < 2 ^ 63
    → length raw ≤ suc fuel + o
    → ltb o (length raw) ≡ true
    → Visits raw o hs
    → Enough raw fuel
    → read_entry (length raw) raw o hs ≡ r
    → Ending raw (read_loop (suc fuel) (length raw) raw o hs)
unfolding read_loop
after_round fuel raw {o} {hs} (next o' hs') s f t v more e =
    rw (t, e) (after_next fuel raw s f (ltb→lt o (length raw) t) v more e)
after_round fuel raw {o} {hs} (last o' hs') s f t v more e =
    rw (t, e, read_entry-last (length raw) raw o hs o' hs' e) (complete v)
after_round fuel raw (failed why) s f t v more e = rw (t, e) refused
after_round fuel raw over_read s f t v more e = rw (t, e) beyond

ended : (fuel : ℕ) (raw : List ℕ) → length raw < 2 ^ 63 → Enough raw fuel
unfolding read_loop Enough
ended zero raw s o hs f v = elim (Bool-cases (ltb o (length raw))) [
  | inl t ↦ absurd (omega (arith, f, ltb→lt o (length raw) t))
  | inr t ↦ rw t (complete v)
]
ended (suc fuel) raw s o hs f v = elim (Bool-cases (ltb o (length raw))) [
  | inl t ↦ after_round fuel raw (read_entry (length raw) raw o hs) s f t v (ended fuel raw s) refl
  | inr t ↦ rw t (complete v)
]

-- Reading an archive of less than 2^63 bytes comes to one of three ends within as many rounds as it
-- has bytes: the headers it returns are those the loop visited, or the archive is refused, or a
-- comparison reads behind the buffer; or else the loop visited a header with a size field of 2^32 or
-- more, for which eight digits without a sign are not enough.
pub read_cpio_lem : (raw : List ℕ) → length raw < 2 ^ 63 → Ending raw (read_cpio (length raw) raw)
unfolding read_cpio Enough
read_cpio_lem raw s = ended (length raw) raw s 0 [] (omega arith) start

-- Where the headers that the loop has read have sizes without a sign, every name and every body lies
-- in the buffer as far as its header says, and the offset is in the archive.
pub read_cpio-Inside :
    (raw : List ℕ) (o : ℕ) (hs : List CpioHeader)
    → length raw < 2 ^ 63
    → Visits raw o hs
    → All IsUnsigned hs
    → All IsInside hs × (o ≤ length raw)
read_cpio-Inside raw o hs s v u = let (l, i) = Visits-Inside raw s v in (i u, l)
