-- ===== src/Put/Settled.antt =====
-- The installation as a whole.
use make_initrd.Prelude.{
  ℕ, zero, suc, ◌+◌, ◌<◌, ◌≡◌, Bool, true, false, List, [], ◌∷◌, arith, ◌==◌, ltb, if◌then◌else◌,
  length, All, if_both, if_cases,
}
use mathlib.Core.List.{reverse}
use make_initrd.Put.Linked.{Owned}
use make_initrd.Put.Copy.{
  Kind, link, block_device, character_device, directory, fifo, regular, socket, unknown, Chowned,
  changed, eperm, refused, Calls, World, Options, is_long,
}
use make_initrd.Put.Rounds.{
  Machine, Run, ret, exits, unfinished, ◌>>=◌, Collector, one_round, rounds, after_chown, set_mode,
  apply_permissions, apply_each, check_and_apply, install_all,
}
use make_initrd.Put.Installs.{
  Counted, count-length, count-grows, count-full, Good, same-Grows, bind-Good, Collected,
  round-Good,
}

-- The run ends, and where it goes on all these files are installed.
abbrev pub Settled : {W : Type 0} → List ℕ → Run W → Type 0
Settled fs (ret m) = All (λ a. (m.at a).installed ≡ true) fs
Settled fs exits = Unit
Settled fs unfinished = ⊥

kept-All :
    {W : Type 0} (fs : List ℕ) (m m' : Machine W)
    → ((b : ℕ) → (m.at b).installed ≡ true → (m'.at b).installed ≡ true)
    → All (λ a. (m.at a).installed ≡ true) fs
    → All (λ a. (m'.at a).installed ≡ true) fs
kept-All [] m m' k h = tt
kept-All (a ∷ fs) m m' k (x, xs) = (k a x, kept-All fs m m' k xs)

module _ {W : Type 0} (sys : Calls W) (o : Options) (fs : List ℕ) (own : Owned fs) where
  -- A round after which another follows has installed something.
  rounds-Good :
      (fuel : ℕ) (c : Collector) (m : Machine W)
      → Collected sys o fs own c
      → Counted fs m
      → length fs < fuel + m.installed
      → Good fs m (rounds sys o fuel c m)
  unfolding rounds
  rounds-Good zero c m i h l = absurd (omega (arith, h, count-length m.at fs))
  rounds-Good (suc fuel) c m i h l =
      bind-Good fs m (one_round sys o c m) _ (round-Good sys o fs own c m i) (λ m' g.
        if_cases (Good fs m') (m'.installed == m.installed) _ _ (λ idle. same-Grows fs m' m'.disk)
          (λ busy.
            rounds-Good fuel c m' i (g.counted h)
              (ground (arith, h, g.counted h, count-grows m.at m'.at fs g.kept))))

  moded-Good :
      (m : Machine W) (done : Bool) (w : World W)
      → Good fs m (if done then ret (record m { disk = w }) else exits)
  moded-Good m true w = same-Grows fs m w
  moded-Good m false w = tt

  mode-Good : (a : ℕ) (m : Machine W) (k : Kind) (w : W) → Good fs m (set_mode sys o a m k w)
  unfolding set_mode
  mode-Good a m link w = same-Grows fs m _
  mode-Good a m block_device w = moded-Good m _ _
  mode-Good a m character_device w = moded-Good m _ _
  mode-Good a m directory w = moded-Good m _ _
  mode-Good a m fifo w = moded-Good m _ _
  mode-Good a m regular w = moded-Good m _ _
  mode-Good a m socket w = moded-Good m _ _
  mode-Good a m unknown w = moded-Good m _ _

  chown-Good : (a : ℕ) (m : Machine W) (r : Chowned × W) → Good fs m (after_chown sys o a m r)
  unfolding after_chown
  chown-Good a m (changed, w) = mode-Good a m _ w
  chown-Good a m (eperm, w) = mode-Good a m _ w
  chown-Good a m (refused, w) = tt

  permissions-Good : (a : ℕ) (m : Machine W) → Good fs m (apply_permissions sys o a m)
  unfolding apply_permissions
  permissions-Good a m =
      if_both (Good fs m) (m.at a).installed _ _
        (if_both (Good fs m) (is_long o (m.at a).dst) _ _ tt (chown-Good a m _))
        (same-Grows fs m m.disk)

  apply-Good : (xs : List ℕ) (m : Machine W) → Good fs m (apply_each sys o xs m)
  unfolding apply_each
  apply-Good [] m = same-Grows fs m m.disk
  apply-Good (a ∷ xs) m =
      bind-Good fs m _ (apply_each sys o xs) (permissions-Good a m) (λ m' g. apply-Good xs m')

  -- The permissions leave what is installed.
  after-Settled :
      (m : Machine W) (r : Run W)
      → Good fs m r
      → All (λ a. (m.at a).installed ≡ true) fs
      → Settled fs r
  after-Settled m (ret m') g h = kept-All fs m m' g.kept h
  after-Settled m exits g h = tt
  after-Settled m unfinished g h = g

  check-Settled :
      (c : Collector) (m : Machine W)
      → Counted fs m
      → Settled fs (check_and_apply sys o (length fs) c m)
  unfolding check_and_apply
  check-Settled c m h =
      if_cases (Settled fs) (ltb m.installed (length fs)) _ _ (λ less. tt)
        (λ enough.
          after-Settled m _
            (bind-Good fs m _ (apply_each sys o (reverse c.dirs))
              (bind-Good fs m _ (apply_each sys o c.hardlinks) (apply-Good c.non_dirs m)
                (λ m' g. apply-Good c.hardlinks m'))
              (λ m' g. apply-Good (reverse c.dirs) m'))
            (count-full m.at fs (ground (arith, h))))

  bind-Settled :
      (m : Machine W) (r : Run W) (f : Machine W → Run W)
      → Good fs m r
      → Counted fs m
      → ((m' : Machine W) → Counted fs m' → Settled fs (f m'))
      → Settled fs (r >>= f)
  bind-Settled m (ret m') f g h k = k m' (g.counted h)
  bind-Settled m exits f g h k = tt
  bind-Settled m unfinished f g h k = g

-- With one worker, whatever the system calls answer, where the tree has these files at distinct
-- addresses, the arrays hold files of the tree and the counter counts the installed ones, one round more than there are files is enough; the
-- program then exits with an error, or every file of the tree is installed.
pub install_all-Settled :
    {W : Type 0} (sys : Calls W) (o : Options) (fs : List ℕ) (own : Owned fs) (c : Collector)
    (m : Machine W)
    → Collected sys o fs own c
    → Counted fs m
    → Settled fs (install_all sys o (suc (length fs)) (length fs) c m)
unfolding install_all
install_all-Settled sys o fs own c m i h =
    bind-Settled sys o fs own m _ (check_and_apply sys o (length fs) c)
      (rounds-Good sys o fs own (suc (length fs)) c m i h (omega arith)) h
      (λ m' k. check-Settled sys o fs own c m' k)
