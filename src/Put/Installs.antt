-- ===== src/Put/Installs.antt =====
-- The rounds end, and what is installed behind them.
use make_initrd.Prelude.{
  ℕ, suc, ◌≤◌, ◌≡◌, refl, sym, ap, ◌∙◌, true, false, ◌||◌, Option, none, some, List, [], ◌∷◌, arith,
  ◌==◌, if◌then◌else◌, length, All, str_eq, if_both, if_cases, Bool-cases, inl, inr,
}
use mathlib.Core.Path.{subst}
use make_initrd.Put.Queue.{File, modify}
use make_initrd.Put.Linked.{absent, Owned, distinct-tail}
use make_initrd.Put.Copy.{
  Answer, ok, eexist, enoent, no_link, failed, Calls, World, Attempt, to_end, later, Options, world,
  is_long,
}
use make_initrd.Put.Copied.{Ends, install_attempt-Ends}
use make_initrd.Put.Rounds.{
  Machine, Run, ret, exits, unfinished, ◌>>=◌, Collector, mark, finish, install_file, path_of,
  after_link, make_hardlink, after_clear, link_to, install_target, install_hardlink, install_each,
  one_round,
}

unfoldable pub count : (ℕ → File) → List ℕ → ℕ
count at [] = 0
count at (a ∷ fs) = if (at a).installed then suc (count at fs) else count at fs

-- The counter counts the files that are installed.
abbrev pub Counted : {W : Type 0} → List ℕ → Machine W → Type 0
Counted fs m = m.installed ≡ count m.at fs

pub count-length : (at : ℕ → File) (fs : List ℕ) → count at fs ≤ length fs
unfolding count
count-length at [] = omega arith
count-length at (a ∷ fs) = ground (arith, count-length at fs)

pub count-grows :
    (at at' : ℕ → File) (fs : List ℕ)
    → ((b : ℕ) → (at b).installed ≡ true → (at' b).installed ≡ true)
    → count at fs ≤ count at' fs
unfolding count
count-grows at at' [] k = omega arith
count-grows at at' (a ∷ fs) k = ground (arith, count-grows at at' fs k, k a)

pub count-full :
    (at : ℕ → File) (fs : List ℕ) → length fs ≤ count at fs → All (λ a. (at a).installed ≡ true) fs
unfolding count
count-full at [] h = tt
count-full at (a ∷ fs) h =
    (ground (arith, count-length at fs), count-full at fs (ground (arith, count-length at fs)))

abbrev set_installed : ℕ → (ℕ → File) → ℕ → File
set_installed a at = modify a (λ f. record f { installed = true }) at

set-kept :
    (a : ℕ) (at : ℕ → File) (b : ℕ)
    → (at b).installed ≡ true
    → (set_installed a at b).installed ≡ true
unfolding modify
set-kept a at b h = ground arith

count-elsewhere :
    (a : ℕ) (at : ℕ → File) (fs : List ℕ)
    → absent a fs ≡ true
    → count (set_installed a at) fs ≡ count at fs
unfolding count modify
count-elsewhere a at [] h = refl
count-elsewhere a at (b ∷ fs) h = ground (arith, count-elsewhere a at fs)

count-mark :
    (a : ℕ) (at : ℕ → File) (fs : List ℕ)
    → Owned fs
    → absent a fs ≡ false
    → (at a).installed ≡ false
    → count (set_installed a at) fs ≡ suc (count at fs)
unfolding count modify
count-mark a at [] d h u = cc
count-mark a at (b ∷ fs) d h u =
    let (own, d') = distinct-tail b fs d in
    elim (Bool-cases (b == a)) [
      | inl same ↦
          let e : b ≡ a = ground arith in
          let rest = count-elsewhere a at fs (subst (λ x. absent x fs ≡ true) e own) in
          let off : (at b).installed ≡ false = subst (λ x. (at x).installed ≡ false) (sym e) u in
          rw (same, off) (ap suc rest)
      | inr other ↦
          let rest = count-mark a at fs d' (ground arith) u in rw other (ground (arith, rest))
    ]

-- From one state to a later one nothing that is installed is lost, and the counter stays right.
pub record Grows {W : Type 0} (fs : List ℕ) (m m' : Machine W) : Type 0 where
  pub kept : (b : ℕ) → (m.at b).installed ≡ true → (m'.at b).installed ≡ true
  pub counted : Counted fs m → Counted fs m'

-- The run ends, and where it goes on it has grown.
abbrev pub Good : {W : Type 0} → List ℕ → Machine W → Run W → Type 0
Good fs m (ret m') = Grows fs m m'
Good fs m exits = Unit
Good fs m unfinished = ⊥

pub same-Grows :
    {W : Type 0} (fs : List ℕ) (m : Machine W) (w : World W) → Grows fs m (record m { disk = w })
same-Grows fs m w = record { kept = λ b h. h; counted = λ h. h }

Grows-trans :
    {W : Type 0} (fs : List ℕ) (m m' : Machine W) (r : Run W)
    → Grows fs m m'
    → Good fs m' r
    → Good fs m r
Grows-trans fs m m' (ret m'') g h = record {
  kept = λ b k. h.kept b (g.kept b k);
  counted = λ k. h.counted (g.counted k);
}
Grows-trans fs m m' exits g h = tt
Grows-trans fs m m' unfinished g h = h

pub bind-Good :
    {W : Type 0} (fs : List ℕ) (m : Machine W) (r : Run W) (f : Machine W → Run W)
    → Good fs m r
    → ((m' : Machine W) → Grows fs m m' → Good fs m' (f m'))
    → Good fs m (r >>= f)
bind-Good fs m (ret m') f g h = Grows-trans fs m m' (f m') g (h m' g)
bind-Good fs m exits f g h = tt
bind-Good fs m unfinished f g h = g

module _ {W : Type 0} (sys : Calls W) (o : Options) (fs : List ℕ) (own : Owned fs) where
  abbrev pub In : ℕ → Type 0
  In a = absent a fs ≡ false

  mark-Grows :
      (a : ℕ) (w : World W) (m : Machine W)
      → In a
      → (m.at a).installed ≡ false
      → Grows fs m (mark sys o a w m)
  unfolding mark
  mark-Grows a w m i u = record {
    kept = set-kept a m.at;
    counted = λ h. ap suc h ∙ sym (count-mark a m.at fs own i u);
  }

  finish-Good :
      (a : ℕ) (m : Machine W) (t : Attempt W)
      → In a
      → (m.at a).installed ≡ false
      → Ends t
      → Good fs m (finish sys o a m t)
  unfolding finish
  finish-Good a m (to_end w) i u e = mark-Grows a w m i u
  finish-Good a m (later w) i u e = same-Grows fs m w
  finish-Good a m Attempt.exits i u e = tt
  finish-Good a m Attempt.unfinished i u e = e

  file-Good : (a : ℕ) (m : Machine W) → In a → Good fs m (install_file sys o a m)
  unfolding install_file
  file-Good a m i =
      if_cases (Good fs m) (m.at a).installed _ _ (λ there. same-Grows fs m m.disk)
        (λ new. finish-Good a m _ i new (install_attempt-Ends sys o (m.at a) m.disk))

  link-Good :
      (a : ℕ) (m : Machine W) (r : Answer × W)
      → In a
      → (m.at a).installed ≡ false
      → Good fs m (after_link sys o a m r)
  unfolding after_link
  link-Good a m (ok, w) i u = mark-Grows a _ m i u
  link-Good a m (eexist, w) i u = mark-Grows a _ m i u
  link-Good a m (no_link, w) i u =
      let m' = record m { disk = world sys o m.disk w } in
      Grows-trans fs m m' _ (same-Grows fs m _) (file-Good a m' i)
  link-Good a m (enoent, w) i u = tt
  link-Good a m (failed, w) i u = tt

  clear-Good :
      (a t : ℕ) (m : Machine W) (r : Answer × W)
      → In a
      → (m.at a).installed ≡ false
      → Good fs m (after_clear sys o a t m r)
  unfolding after_clear make_hardlink
  clear-Good a t m (ok, w) i u = link-Good a m _ i u
  clear-Good a t m (enoent, w) i u = link-Good a m _ i u
  clear-Good a t m (eexist, w) i u = tt
  clear-Good a t m (no_link, w) i u = tt
  clear-Good a t m (failed, w) i u = tt

  link_to-Good :
      (a t : ℕ) (m : Machine W)
      → In a
      → (m.at a).installed ≡ false
      → Good fs m (link_to sys o a t m)
  unfolding link_to make_hardlink
  link_to-Good a t m i u =
      if_both (Good fs m) (is_long o (m.at a).dst || is_long o (m.at t).dst) _ _ tt (
        if_both (Good fs m) (str_eq (path_of sys o (m.at a)) (path_of sys o (m.at t))) _ _
          (mark-Grows a m.disk m i u)
          (if_both (Good fs m) o.force _ _ (clear-Good a t m _ i u) (link-Good a m _ i u)))

  target-Good :
      (a : ℕ) (m : Machine W)
      → In a
      → (m.at a).installed ≡ false
      → (target : Option ℕ) → (m.at a).hardlink_target ≡ target
      → Good fs m (install_target sys o a m target)
  unfolding install_target
  target-Good a m i u none e = file-Good a m i
  target-Good a m i u (some t) e =
      if_both (Good fs m) (m.at t).installed _ _ (link_to-Good a t m i u) (file-Good a m i)

  hardlink-Good : (a : ℕ) (m : Machine W) → In a → Good fs m (install_hardlink sys o a m)
  unfolding install_hardlink
  hardlink-Good a m i =
      if_cases (Good fs m) (m.at a).installed _ _ (λ there. same-Grows fs m m.disk)
        (λ new. target-Good a m i new (m.at a).hardlink_target refl)

  each-Good :
      (install : ℕ → Machine W → Run W)
      → ((a : ℕ) (m : Machine W) → In a → Good fs m (install a m))
      → (xs : List ℕ) (m : Machine W) → All In xs
      → Good fs m (install_each sys o install xs m)
  unfolding install_each
  each-Good install g [] m i = same-Grows fs m m.disk
  each-Good install g (a ∷ xs) m (i, is) =
      if_both (Good fs m) (m.at a).installed _ _ (each-Good install g xs m is) (
        bind-Good fs m (install a m) (install_each sys o install xs) (g a m i)
          (λ m' h. each-Good install g xs m' is))

  -- The arrays have files of the tree.
  abbrev pub Collected : Collector → Type 0
  Collected c = All In c.dirs × All In c.non_dirs × All In c.hardlinks

  pub round-Good : (c : Collector) (m : Machine W) → Collected c → Good fs m (one_round sys o c m)
  unfolding one_round
  round-Good c m (ds, ns, hs) =
      bind-Good fs m _ (install_each sys o (install_hardlink sys o) c.hardlinks)
        (bind-Good fs m _ (install_each sys o (install_file sys o) c.non_dirs)
          (each-Good (install_file sys o) file-Good c.dirs m ds)
          (λ m' g. each-Good (install_file sys o) file-Good c.non_dirs m' ns))
        (λ m' g. each-Good (install_hardlink sys o) hardlink-Good c.hardlinks m' hs)
