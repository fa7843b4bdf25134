-- ===== src/Initrd/Columns.antt =====
-- The widths of the columns against the numbers of all headers.
use make_initrd.Prelude.{ℕ, ◌+◌, ◌≤◌, ◌≡◌, true, false, List, [], ◌∷◌, arith, All}
use make_initrd.Initrd.Header.{CpioHeader}
use make_initrd.Initrd.Listing.{Widths, bytes, raise, is_device, preformat, preformat_all}

-- What the header needs: its numbers fit their columns, and in the column of sizes there is room for
-- the size, or for a device's two numbers and the comma.
pub record Covers (major minor : ℕ → ℕ) (w : Widths) (h : CpioHeader) : Type 0 where
  pub nlinks : bytes h.nlink ≤ w.max_nlinks
  pub uid : bytes h.uid ≤ w.max_uid
  pub gid : bytes h.gid ≤ w.max_gid
  pub size : is_device h.mode ≡ false → bytes h.body_len ≤ w.max_size
  pub device :
      is_device h.mode ≡ true → bytes (major h.rdev) + bytes (minor h.rdev) + 1 ≤ w.max_size

record Grows (w w' : Widths) : Type 0 where
  more_nlinks : w.max_nlinks ≤ w'.max_nlinks
  more_uid : w.max_uid ≤ w'.max_uid
  more_gid : w.max_gid ≤ w'.max_gid
  more_size : w.max_size ≤ w'.max_size

raise_keeps : (m n : ℕ) → (m ≤ raise m n) × (n ≤ raise m n)
unfolding raise
raise_keeps m n = ground arith

module _ (major minor : ℕ → ℕ) where
  preformat-Grows : (h : CpioHeader) (w : Widths) → Grows w (preformat major minor h w)
  unfolding preformat
  preformat-Grows h w = record {
    more_nlinks = (raise_keeps w.max_nlinks _).0;
    more_uid = (raise_keeps w.max_uid _).0;
    more_gid = (raise_keeps w.max_gid _).0;
    more_size = (raise_keeps w.max_size _).0;
  }

  preformat-Covers :
      (h : CpioHeader) (w : Widths) → Covers major minor (preformat major minor h w) h
  unfolding preformat
  preformat-Covers h w = record {
    nlinks = (raise_keeps w.max_nlinks _).1;
    uid = (raise_keeps w.max_uid _).1;
    gid = (raise_keeps w.max_gid _).1;
    size = λ e. rw e (raise_keeps w.max_size (bytes h.body_len)).1;
    device = λ e. rw e (
        omega (
          arith,
          (raise_keeps w.max_maj (bytes (major h.rdev))).1,
          (raise_keeps w.max_min (bytes (minor h.rdev))).1,
          (raise_keeps w.max_size (
              raise w.max_maj (bytes (major h.rdev))
              + raise w.max_min (bytes (minor h.rdev))
              + 1)).1,
        ));
  }

  grown-Covers :
      (w w' : Widths) (h : CpioHeader)
      → Grows w w'
      → Covers major minor w h
      → Covers major minor w' h
  grown-Covers w w' h g c = record {
    nlinks = omega (arith, g.more_nlinks, c.nlinks);
    uid = omega (arith, g.more_uid, c.uid);
    gid = omega (arith, g.more_gid, c.gid);
    size = λ e. omega (arith, g.more_size, c.size e);
    device = λ e. omega (arith, g.more_size, c.device e);
  }

  grown_all : (hs : List CpioHeader) (w : Widths) → Grows w (preformat_all major minor hs w)
  unfolding preformat_all
  grown_all [] w = record {
    more_nlinks = omega arith;
    more_uid = omega arith;
    more_gid = omega arith;
    more_size = omega arith;
  }
  grown_all (h ∷ hs) w =
      let a = preformat-Grows h w in
      let b = grown_all hs (preformat major minor h w) in
      record {
        more_nlinks = omega (arith, a.more_nlinks, b.more_nlinks);
        more_uid = omega (arith, a.more_uid, b.more_uid);
        more_gid = omega (arith, a.more_gid, b.more_gid);
        more_size = omega (arith, a.more_size, b.more_size);
      }

-- After `preformat` ran over all headers, from any widths, every header fits the columns: its numbers of
-- links, owner and group, and its size, or a device's two numbers and the comma between them.
pub preformat_all-Covers :
    (major minor : ℕ → ℕ) (hs : List CpioHeader) (w : Widths)
    → All (Covers major minor (preformat_all major minor hs w)) hs
unfolding preformat_all
preformat_all-Covers major minor [] w = tt
preformat_all-Covers major minor (h ∷ hs) w =
    let w' = preformat major minor h w in
    (
      grown-Covers major minor w' (preformat_all major minor hs w') h (grown_all major minor hs w')
          (preformat-Covers major minor h w),
      preformat_all-Covers major minor hs w',
    )
