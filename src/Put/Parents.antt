-- ===== src/Put/Parents.antt =====
-- The order in which directories are made.
use make_initrd.Prelude.{
  ℕ, suc, ◌≤◌, ◌≡◌, refl, ap, ◌∙◌, Bool, true, false, ◌&&◌, List, [], ◌∷◌, arith, ◌==◌, leb,
  if◌then◌else◌, length, all, Bool-cases, inl, inr,
}
use make_initrd.Put.Queue.{File}
use make_initrd.Put.Rounds.{dir_before, insert_dir, sort_dirs}

-- No directory stands before one with a shorter path.
unfoldable pub shortest_first : (ℕ → File) → List ℕ → Bool
shortest_first at [] = true
shortest_first at (a ∷ ds) =
    all (λ b. leb (length (at a).dst) (length (at b).dst)) ds && shortest_first at ds

-- How often a file is in the array.
unfoldable pub times : ℕ → List ℕ → ℕ
times a [] = 0
times a (b ∷ ds) = if b == a then suc (times a ds) else times a ds

before-length : (f g : File) → dir_before f g ≡ true → length f.dst ≤ length g.dst
unfolding dir_before
before-length f g h = ground arith

after-length : (f g : File) → dir_before f g ≡ false → length g.dst ≤ length f.dst
unfolding dir_before
after-length f g h = ground arith

all-insert :
    (at : ℕ → File) (p : ℕ → Bool) (a : ℕ) (ds : List ℕ)
    → all p (insert_dir at a ds) ≡ (p a && all p ds)
unfolding insert_dir
all-insert at p a [] = refl
all-insert at p a (b ∷ ds) = ground (arith, all-insert at p a ds)

all_longer :
    (at : ℕ → File) (a b : ℕ) (ds : List ℕ)
    → length (at a).dst ≤ length (at b).dst
    → all (λ c. leb (length (at b).dst) (length (at c).dst)) ds ≡ true
    → all (λ c. leb (length (at a).dst) (length (at c).dst)) ds ≡ true
all_longer at a b [] l h = refl
all_longer at a b (c ∷ ds) l h = ground (arith, all_longer at a b ds)

insert_shortest :
    (at : ℕ → File) (a : ℕ) (ds : List ℕ)
    → shortest_first at ds ≡ true
    → shortest_first at (insert_dir at a ds) ≡ true
unfolding shortest_first insert_dir
insert_shortest at a [] h = refl
insert_shortest at a (b ∷ ds) h = elim (Bool-cases (dir_before (at b) (at a))) [
  | inl less ↦
      let l = before-length (at b) (at a) less in
      rw less (
        ground (
          arith,
          insert_shortest at a ds,
          all-insert at (λ c. leb (length (at b).dst) (length (at c).dst)) a ds,
        ))
  | inr more ↦
      let l = after-length (at b) (at a) more in rw more (ground (arith, all_longer at a b ds l))
]

times-insert :
    (at : ℕ → File) (c a : ℕ) (ds : List ℕ) → times c (insert_dir at a ds) ≡ times c (a ∷ ds)
unfolding times insert_dir
times-insert at c a [] = refl
times-insert at c a (b ∷ ds) = ground (arith, times-insert at c a ds)

-- The sorted array has the same directories, each as often, and none stands before one with a shorter
-- path.
pub sort_dirs_lem :
    (at : ℕ → File) (ds : List ℕ)
    → (shortest_first at (sort_dirs at ds) ≡ true)
      × ((c : ℕ) → times c (sort_dirs at ds) ≡ times c ds)
unfolding sort_dirs shortest_first times
sort_dirs_lem at [] = (refl, λ c. refl)
sort_dirs_lem at (a ∷ ds) =
    let (s, t) = sort_dirs_lem at ds in
    (
      insert_shortest at a (sort_dirs at ds) s,
      λ c. times-insert at c a (sort_dirs at ds) ∙ ap (λ n. if a == c then suc n else n) (t c),
    )
