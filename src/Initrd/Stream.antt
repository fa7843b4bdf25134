-- ===== src/Initrd/Stream.antt =====
-- utils/initrd-parse.c: the parts of an initramfs image, some of them compressed, and the bootconfig
-- that may follow it. The decompressors, which call libraries, are the argument `decompress`: what a
-- format unpacks the data to and how many bytes of it were read, or a failure.
use make_initrd.Prelude.{
  ℕ, zero, suc, ◌+◌, ◌-◌, ◌*◌, ◌%◌, ◌^◌, Option, none, some, List, [], ◌∷◌, ◌++◌, ◌==◌, ltb,
  if◌then◌else◌, length, take, drop, get_or, CString, codes, str_eq,
}
use make_initrd.Initrd.Header.{CpioHeader, add64}
use make_initrd.Initrd.Read.{
  Failure, archive, stopped, faulted, out_of_fuel, list_append, read_cpio,
}
use make_initrd.Initrd.Decompress.{Method, Config, chosen, unchosen, beyond, decompress_method}

-- The method is none for the name "raw".
pub data Cpio : Type 0 where
  cpio_archive : Option Method → ℕ → List CpioHeader → Cpio
  cpio_bootconfig : List ℕ → ℕ → Cpio

-- The data of each decompressed stream, and the parts.
pub record Result : Type 0 where
  pub streams : List (List ℕ)
  pub cpios : List Cpio

pub data Parsed : Type 0 where
  parsed : Result → Parsed
  cpio_failed : Failure → Parsed
  decompress_failed : Parsed
  bootconfig_too_large : Parsed
  bad_read : Parsed
  unfinished : Parsed

infixl 5 ◌>>=◌
abbrev pub ◌>>=◌ : Parsed → (Result → Parsed) → Parsed
parsed r >>= f = f r
cpio_failed e >>= f = cpio_failed e
decompress_failed >>= f = decompress_failed
bootconfig_too_large >>= f = bootconfig_too_large
bad_read >>= f = bad_read
unfinished >>= f = unfinished

abbrev pub Decompressor : Type 0
Decompressor = Method → List ℕ → ℕ → Option (List ℕ × ℕ)

abbrev pub bootconfig_magic : CString
bootconfig_magic = codes "#BOOTCONFIG" ++ 10 ∷ []

module _ (config : Config) (decompress : Decompressor) where
  -- The loop of `read_stream` over a stream and, for a compressed part, the call of `read_stream`
  -- on what it unpacks to, where the level is above 1 and no bootconfig is looked for.
  unfoldable pub stream_loop : ℕ → Option Method → List ℕ → ℕ → ℕ → Result → Parsed
  stream_loop zero compress addr size offset res =
      if ltb offset size then unfinished else parsed res
  stream_loop (suc fuel) compress addr size offset res =
      let here = drop offset addr in
      let left = size - offset in
      let rest : Parsed = elim (decompress_method config here left) [
        | beyond ↦ bad_read
        | chosen m ↦ elim (decompress m here left) [
          | none ↦ decompress_failed
          | some (unpack, readed) ↦
              stream_loop fuel (some m) unpack (length unpack) 0
                (record res { streams = list_append res.streams unpack })
              >>= stream_loop fuel compress addr size (add64 offset readed)
        ]
        | unchosen name ↦ elim (read_cpio left here) [
          | archive end hs ↦
              stream_loop fuel compress addr size (add64 offset end)
                (record res { cpios = list_append res.cpios (cpio_archive compress left hs) })
          | stopped e ↦ cpio_failed e
          | faulted ↦ bad_read
          | out_of_fuel ↦ unfinished
        ]
      ] in
      if ltb offset size then rest else parsed res

  -- Where the magic number of a bootconfig stands: in the last twelve bytes, or up to three before.
  unfoldable pub find_bootconfig : ℕ → List ℕ → ℕ → Option (Option ℕ)
  find_bootconfig zero addr at = some none
  find_bootconfig (suc n) addr at =
      let rest = find_bootconfig n addr (at - 1) in
      let below : Option (Option ℕ) =
        if at == 0 then (if n == 0 then some none else none) else rest in
      if str_eq (take 12 (drop at addr)) bootconfig_magic then some (some at) else below

  unfoldable pub le32 : List ℕ → ℕ
  le32 bs = get_or bs 0 0 + get_or bs 1 0 * 2 ^ 8 + get_or bs 2 0 * 2 ^ 16 + get_or bs 3 0 * 2 ^ 24

  -- The bootconfig before the eight bytes of its header; `data` may lie before the stream.
  unfoldable pub with_bootconfig : ℕ → List ℕ → ℕ → ℕ → Parsed
  unfolding le32 stream_loop
  with_bootconfig fuel addr size at =
      let hdr = at - 8 in
      let bsize = le32 (drop hdr addr) in
      let start = (hdr + 2 ^ 64 - bsize) % 2 ^ 64 in
      if ltb at 8
      then bad_read
      else if ltb size bsize
      then bootconfig_too_large
      else stream_loop fuel none addr start 0 (record { streams = []; cpios = [] }) >>= λ res.
          parsed
            (record res { cpios = list_append res.cpios (cpio_bootconfig (drop start addr) bsize) })

  unfoldable pub after_search : ℕ → List ℕ → Option (Option ℕ) → Parsed
  unfolding with_bootconfig
  after_search fuel addr none = bad_read
  after_search fuel addr (some none) =
      stream_loop fuel none addr (length addr) 0 (record { streams = []; cpios = [] })
  after_search fuel addr (some (some at)) = with_bootconfig fuel addr (length addr) at

  -- The call of `read_stream` for the whole image. The search reads before an image of fewer bytes.
  unfoldable pub read_stream : ℕ → List ℕ → Parsed
  unfolding after_search find_bootconfig
  read_stream fuel addr =
      if ltb (length addr) 12
      then bad_read
      else after_search fuel addr (find_bootconfig 4 addr (length addr - 12))
