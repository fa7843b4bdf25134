-- ===== src/Udev/UdevString.antt =====
-- utils/udev-rules/udev-string.c: strings that grow. The bytes in use are `text`, and `length` is
-- their number; behind them stands a zero byte, and the buffer has `bufsz` bytes. A failing malloc,
-- after which the program exits, is not modelled.
use make_initrd.Prelude.{
  ℕ, zero, suc, ◌+◌, ◌*◌, ◌/◌, ◌≤◌, ◌≡◌, refl, ap, [], ◌∷◌, ◌++◌, arith, ltb, if◌then◌else◌, length,
  take, length-append, CString,
}

abbrev pub string_alloc_size : ℕ
string_alloc_size = 16

pub record UdevString : Type 0 where
  pub text : CString
  pub bufsz : ℕ

unfoldable pub new_string : UdevString
new_string = record { text = []; bufsz = string_alloc_size }

unfoldable pub resize_string : UdevString → ℕ → UdevString
resize_string s size =
    if ltb s.bufsz size
    then record s { bufsz = (size / string_alloc_size + 1) * string_alloc_size * 2 }
    else s

-- The n bytes that strncpy writes: those of the string, then zeros.
unfoldable pub strncpy : CString → ℕ → CString
strncpy src zero = []
strncpy [] (suc n) = 0 ∷ strncpy [] n
strncpy (c ∷ cs) (suc n) = c ∷ strncpy cs n

unfoldable pub string_append_str : UdevString → CString → ℕ → UdevString
unfolding resize_string strncpy
string_append_str s str n = record (resize_string s (length s.text + n + 1)) {
  text = s.text ++ strncpy str n;
}

unfoldable pub string_append_chr : UdevString → ℕ → UdevString
unfolding resize_string
string_append_chr s c = record (resize_string s (length s.text + 2)) { text = s.text ++ c ∷ [] }

-- The text and its zero byte lie in the buffer.
pub record Fits (s : UdevString) : Type 0 where
  pub room : length s.text + 1 ≤ s.bufsz

resize-room : (s : UdevString) (size : ℕ) → size ≤ (resize_string s size).bufsz
unfolding resize_string
resize-room s size = ground arith

length-strncpy : (src : CString) (n : ℕ) → length (strncpy src n) ≡ n
unfolding strncpy
length-strncpy src zero = refl
length-strncpy [] (suc n) = ap suc (length-strncpy [] n)
length-strncpy (c ∷ cs) (suc n) = ap suc (length-strncpy cs n)

strncpy-take : (src : CString) (n : ℕ) → n ≤ length src → strncpy src n ≡ take n src
unfolding strncpy
strncpy-take src zero h = refl
strncpy-take [] (suc n) h = absurd (omega arith)
strncpy-take (c ∷ cs) (suc n) h = ap (λ t. c ∷ t) (strncpy-take cs n (omega arith))

-- Appending the first n bytes of a string, or a character, writes the text and its zero byte
-- inside the buffer and keeps what was there, whatever the buffer held before.
pub append-Fits :
    (s : UdevString) (str : CString) (n c : ℕ)
    → n ≤ length str
    → Fits (string_append_str s str n)
      × ((string_append_str s str n).text ≡ s.text ++ take n str)
      × Fits (string_append_chr s c)
      × ((string_append_chr s c).text ≡ s.text ++ c ∷ [])
unfolding string_append_str string_append_chr
append-Fits s str n c h = (
  record {
    room = omega (
      arith,
      length-append s.text (strncpy str n),
      length-strncpy str n,
      resize-room s (length s.text + n + 1),
    );
  },
  ap (λ t. s.text ++ t) (strncpy-take str n h),
  record { room = omega (arith, length-append s.text (c ∷ []), resize-room s (length s.text + 2)) },
  refl,
)
