-- ===== src/Put/Copied.antt =====
-- The loops that copy a file end.
use make_initrd.Prelude.{
  ◌++◌, ℕ, zero, suc, ◌-◌, ◌<◌, ◌≡◌, refl, ◌&&◌, Option, none, some, List, [], ◌∷◌, arith, ◌==◌,
  ltb, if◌then◌else◌, length, length-drop, drop, CString, if_both, Bool-cases, inl, inr,
}
use make_initrd.Put.Queue.{File}
use make_initrd.Put.Copy.{
  Kind, block_device, character_device, directory, fifo, link, regular, socket, unknown, Answer, ok,
  eexist, enoent, no_link, failed, Moved, moved, unsupported, broken, Calls, World, Attempt, to_end,
  later, exits, unfinished, Options, world, after_make, after_write, write_all, after_chunk,
  after_read, read_write, after_move, move_loop, fallback_readwrite, fallback_sendfile,
  copy_content, after_creat, after_open, make_regular, make_link, make_kind, after_remove,
  clear_and_make, install_attempt, is_long,
}

abbrev pub Ends : {W : Type 0} → Attempt W → Type 0
Ends (to_end w) = Unit
Ends (later w) = Unit
Ends exits = Unit
Ends unfinished = ⊥

module _ {W : Type 0} (sys : Calls W) (o : Options) where
  after_write-Ends :
      (next : List ℕ → World W → Attempt W) (bytes : List ℕ) (w : World W) (answer : Option ℕ)
      → ((n : ℕ) → 0 < n → Ends (next (drop n bytes) w))
      → Ends (after_write sys o next bytes w answer)
  unfolding after_write
  after_write-Ends next bytes w none ih = tt
  after_write-Ends next bytes w (some n) ih = elim (Bool-cases (n == 0)) [
    | inl nothing ↦ rw nothing tt
    | inr much ↦ rw much (ih n (ground arith))
  ]

  write_all-Ends :
      (fuel : ℕ) (bytes : List ℕ) (w : World W)
      → length bytes < fuel
      → Ends (write_all sys o fuel bytes w)
  unfolding write_all
  write_all-Ends zero bytes w h = absurd (omega arith)
  write_all-Ends (suc fuel) [] w h = tt
  write_all-Ends (suc fuel) (b ∷ bytes) w h =
      let wrote = sys.write_bytes (b ∷ bytes) w.fs in
      after_write-Ends (write_all sys o fuel) (b ∷ bytes) (world sys o w wrote.1) wrote.0 (λ n p.
        write_all-Ends fuel (drop n (b ∷ bytes)) _ (omega (arith, length-drop n (b ∷ bytes))))

  after_chunk-Ends :
      (next : ℕ → World W → Attempt W) (len n : ℕ) (a : Attempt W)
      → ((w : World W) → n < len → Ends (next (len - n) w))
      → Ends a
      → Ends (after_chunk sys o next len n a)
  unfolding after_chunk
  after_chunk-Ends next len n (to_end w) ih e = elim (Bool-cases (ltb n len)) [
    | inl less ↦ rw less (ih w (ground arith))
    | inr over ↦ rw over tt
  ]
  after_chunk-Ends next len n (later w) ih e = tt
  after_chunk-Ends next len n exits ih e = tt
  after_chunk-Ends next len n unfinished ih e = e

  after_read-Ends :
      (next : ℕ → World W → Attempt W) (len : ℕ) (w : World W) (answer : Option (List ℕ))
      → ((n : ℕ) (w : World W) → 0 < n → n < len → Ends (next (len - n) w))
      → Ends (after_read sys o next len w answer)
  unfolding after_read
  after_read-Ends next len w none ih = tt
  after_read-Ends next len w (some []) ih = tt
  after_read-Ends next len w (some (b ∷ bs)) ih =
      after_chunk-Ends next len (length (b ∷ bs)) _ (λ w'. ih (length (b ∷ bs)) w' (omega arith))
        (write_all-Ends (suc (length (b ∷ bs))) (b ∷ bs) w (omega arith))

  read_write-Ends : (fuel len : ℕ) (w : World W) → len < fuel → Ends (read_write sys o fuel len w)
  unfolding read_write
  read_write-Ends zero len w h = absurd (omega arith)
  read_write-Ends (suc fuel) len w h =
      let got = sys.read_bytes w.fs in
      after_read-Ends (read_write sys o fuel) len (world sys o w got.1) got.0
        (λ n w' p l. read_write-Ends fuel (len - n) w' (omega arith))

  after_move-Ends :
      (next : ℕ → World W → Attempt W) (fallback : W → Attempt W) (len : ℕ) (w : World W)
      (r : Moved × W)
      → ((n : ℕ) (w : World W) → 0 < n → n < len → Ends (next (len - n) w))
      → ((fs : W) → Ends (fallback fs))
      → Ends (after_move sys o next fallback len w r)
  unfolding after_move
  after_move-Ends next fallback len w (unsupported, fs) ih f = f fs
  after_move-Ends next fallback len w (broken, fs) ih f = tt
  after_move-Ends next fallback len w (moved n, fs) ih f =
      elim (Bool-cases (ltb n len && ltb 0 n)) [
        | inl less ↦ rw less (ih n (world sys o w fs) (ground arith) (ground arith))
        | inr over ↦ rw over tt
      ]

  move_loop-Ends :
      (call : ℕ → W → Moved × W) (fallback : W → Attempt W) (fuel len : ℕ) (w : World W)
      → ((fs : W) → Ends (fallback fs))
      → len < fuel
      → Ends (move_loop sys o call fallback fuel len w)
  unfolding move_loop
  move_loop-Ends call fallback zero len w f h = absurd (omega arith)
  move_loop-Ends call fallback (suc fuel) len w f h =
      after_move-Ends (move_loop sys o call fallback fuel) fallback len w _
        (λ n w' p l. move_loop-Ends call fallback fuel (len - n) w' f (omega arith)) f

  readwrite-Ends : (size : ℕ) (w : World W) → Ends (fallback_readwrite sys o size w)
  unfolding fallback_readwrite
  readwrite-Ends size w = read_write-Ends (suc size) size _ (omega arith)

  sendfile-Ends : (size : ℕ) (w : World W) → Ends (fallback_sendfile sys o size w)
  unfolding fallback_sendfile
  sendfile-Ends size w =
      if_both Ends w.use_sendfile _ _
        (move_loop-Ends sys.sendfile _ (suc size) size _ (λ fs. readwrite-Ends size _)
          (omega arith))
        (readwrite-Ends size w)

  -- Whatever the system calls answer, copying the content of a file ends: by copy_file_range, by
  -- sendfile where that is not supported, and by read and write where that is not either.
  pub copy_content-Ends : (size : ℕ) (w : World W) → Ends (copy_content sys o size w)
  unfolding copy_content
  copy_content-Ends size w =
      if_both Ends w.use_copy_file_range _ _
        (move_loop-Ends sys.copy_file_range _ (suc size) size _ (λ fs. sendfile-Ends size _)
          (omega arith))
        (sendfile-Ends size w)

  make-Ends : (w : World W) (r : Answer × W) → Ends (after_make sys o w r)
  unfolding after_make
  make-Ends w (ok, fs) = tt
  make-Ends w (eexist, fs) = tt
  make-Ends w (enoent, fs) = tt
  make-Ends w (no_link, fs) = tt
  make-Ends w (failed, fs) = tt

  creat-Ends : (size : ℕ) (w : World W) (r : Answer × W) → Ends (after_creat sys o size w r)
  unfolding after_creat
  creat-Ends size w (ok, fs) = copy_content-Ends size _
  creat-Ends size w (eexist, fs) = tt
  creat-Ends size w (enoent, fs) = tt
  creat-Ends size w (no_link, fs) = tt
  creat-Ends size w (failed, fs) = tt

  open-Ends :
      (path : CString) (f : File) (w : World W) (r : Answer × W)
      → Ends (after_open sys o path f w r)
  unfolding after_open
  open-Ends path f w (ok, fs) = creat-Ends f.stat.st_size w _
  open-Ends path f w (eexist, fs) = tt
  open-Ends path f w (enoent, fs) = tt
  open-Ends path f w (no_link, fs) = tt
  open-Ends path f w (failed, fs) = tt

  regular-Ends : (path : CString) (f : File) (w : World W) → Ends (make_regular sys o path f w)
  unfolding make_regular
  regular-Ends path f w = if_both Ends (sys.exists path w.fs) _ _ tt (open-Ends path f w _)

  link-Ends :
      (path : CString) (f : File) (w : World W) (target : Option CString)
      → f.symlink ≡ target
      → Ends (make_link sys o path f w)
  unfolding make_link
  link-Ends path f w none e = rw e tt
  link-Ends path f w (some t) e = rw e (make-Ends w _)

  kind-Ends :
      (k : Kind) (path : CString) (f : File) (w : World W) → Ends (make_kind sys o k path f w)
  unfolding make_kind
  kind-Ends directory path f w = make-Ends w _
  kind-Ends block_device path f w = make-Ends w _
  kind-Ends character_device path f w = make-Ends w _
  kind-Ends link path f w = link-Ends path f w f.symlink refl
  kind-Ends fifo path f w = make-Ends w _
  kind-Ends socket path f w = make-Ends w _
  kind-Ends regular path f w = regular-Ends path f w
  kind-Ends unknown path f w = tt

  remove-Ends :
      (k : Kind) (path : CString) (f : File) (w : World W) (r : Answer × W)
      → Ends (after_remove sys o k path f w r)
  unfolding after_remove
  remove-Ends k path f w (ok, fs) = kind-Ends k path f _
  remove-Ends k path f w (enoent, fs) = kind-Ends k path f _
  remove-Ends k path f w (eexist, fs) = tt
  remove-Ends k path f w (no_link, fs) = tt
  remove-Ends k path f w (failed, fs) = tt

  either-Ends :
      (k : Kind) (path : CString) (f : File) (w : World W)
      → Ends (
          if o.force
          then after_remove sys o k path f w (sys.remove path w.fs)
          else make_kind sys o k path f w)
  either-Ends k path f w =
      if_both Ends o.force _ _ (remove-Ends k path f w _) (kind-Ends k path f w)

  clear-Ends :
      (k : Kind) (path : CString) (f : File) (w : World W) → Ends (clear_and_make sys o k path f w)
  unfolding clear_and_make
  clear-Ends directory path f w = kind-Ends directory path f w
  clear-Ends block_device path f w = either-Ends block_device path f w
  clear-Ends character_device path f w = either-Ends character_device path f w
  clear-Ends link path f w = either-Ends link path f w
  clear-Ends fifo path f w = either-Ends fifo path f w
  clear-Ends socket path f w = either-Ends socket path f w
  clear-Ends regular path f w = either-Ends regular path f w
  clear-Ends unknown path f w = either-Ends unknown path f w

  -- The creation of a file ends.
  pub install_attempt-Ends : (f : File) (w : World W) → Ends (install_attempt sys o f w)
  unfolding install_attempt
  install_attempt-Ends f w =
      if_both Ends (is_long o f.dst) _ _ tt (clear-Ends _ (o.destdir ++ f.dst) f w)
