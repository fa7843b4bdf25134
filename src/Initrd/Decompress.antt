-- ===== src/Initrd/Decompress.antt =====
-- utils/initrd-decompress.c: the format of compressed data by its first two bytes. Which formats
-- were built in is the configuration. The decompressors call libraries, and are an argument of the
-- code that uses them (`Stream`).
use make_initrd.Prelude.{
  ℕ, Bool, true, false, ◌&&◌, Option, none, some, List, [], ◌∷◌, ◌++◌, ◌==◌, ltb, if◌then◌else◌,
}

pub data Method : Type 0 where
  gzip bzip2 lzma xz zstd lzo lz4 : Method

pub record Config : Type 0 where
  pub have_gzip : Bool
  pub have_bzip2 : Bool
  pub have_lzma : Bool
  pub have_zstd : Bool

-- The magic number, the name, and whether there is a decompressor.
pub record CompressFormat : Type 0 where
  pub magic0 : ℕ
  pub magic1 : ℕ
  pub method : Method
  pub decompressor : Bool

abbrev pub format : ℕ → ℕ → Method → Bool → CompressFormat
format a b m d = record { magic0 = a; magic1 = b; method = m; decompressor = d }

unfoldable pub compressed_formats : Config → List CompressFormat
compressed_formats c =
    (if c.have_gzip then format 0x1f 0x8b gzip true ∷ format 0x1f 0x9e gzip true ∷ [] else [])
    ++ (if c.have_bzip2 then format 0x42 0x5a bzip2 true ∷ [] else [])
    ++ (if c.have_lzma then format 0x5d 0x00 lzma false ∷ format 0xfd 0x37 xz true ∷ [] else [])
    ++ (if c.have_zstd then format 0x28 0xb5 zstd true ∷ [] else [])
    ++ (format 0x89 0x4c lzo false ∷ format 0x02 0x21 lz4 false ∷ [])

unfoldable pub find_format : ℕ → ℕ → List CompressFormat → Option CompressFormat
find_format a b [] = none
find_format a b (f ∷ fs) = if a == f.magic0 && b == f.magic1 then some f else find_format a b fs

pub data Choice : Type 0 where
  -- the decompressor of a format
  chosen : Method → Choice
  -- no decompressor, and the name of the format if it is known
  unchosen : Option Method → Choice
  -- the two bytes are not there
  beyond : Choice

of_format : Option CompressFormat → Choice
of_format none = unchosen none
of_format (some f) = if f.decompressor then chosen f.method else unchosen (some f.method)

of_bytes : Config → List ℕ → Choice
unfolding of_format find_format compressed_formats
of_bytes c [] = beyond
of_bytes c (a ∷ []) = beyond
of_bytes c (a ∷ b ∷ bs) = of_format (find_format a b (compressed_formats c))

unfoldable pub decompress_method : Config → List ℕ → ℕ → Choice
unfolding of_bytes
decompress_method c inbuf len = if ltb len 2 then unchosen none else of_bytes c inbuf
