-- ===== src/Put/Path.antt =====
-- utils/initrd-put/initrd-put.c: enqueue_canonicalized_path. The buffer up to `dest` is the list of its
-- bytes from the last to the first. What readlink and stat answer is the record `Links`; getcwd gives
-- the directory of a relative name. A symbolic link on the way goes to the queue, and so does the path
-- at the end. An exit with a message is a failure.
use make_initrd.Prelude.{
  ℕ, zero, suc, ◌+◌, ◌-◌, ◌*◌, Bool, true, false, ◌&&◌, Option, none, some, List, [], ◌∷◌, ◌++◌,
  ◌==◌, ltb, leb, if◌then◌else◌, length, CString, codes, str_eq,
}
use mathlib.Core.List.{reverse}
use make_initrd.Put.Queue.{
  Store, modify, Enqueued, enqueued, bad_queue_head, enqueue_item, path_max,
}

-- A target, EINVAL for what is no link, or another error.
pub data Readlink : Type 0 where
  target : CString → Readlink
  einval broken : Readlink

pub record Links : Type 0 where
  pub readlink : CString → Readlink
  pub is_dir : CString → Bool

pub data Suffix : Type 0 where
  begin slash dot : Suffix

abbrev pub ends_dots : CString → Bool
ends_dots [] = true
ends_dots (c ∷ cs) = c == b'/'

-- suffix_requires_dir_check: at its begin, behind slashes, or behind a dot that follows them.
unfoldable pub suffix_from : Suffix → CString → Bool
suffix_from begin [] = false
suffix_from slash [] = true
suffix_from dot [] = true
suffix_from begin (c ∷ cs) = let rest = suffix_from slash cs in c == b'/' && rest
suffix_from slash (c ∷ cs) =
    let again = suffix_from slash cs in
    let after_dot = suffix_from dot cs in if c == b'/' then again else c == b'.' && after_dot
suffix_from dot (c ∷ cs) =
    let again = suffix_from slash cs in if c == b'.' then ends_dots cs else c == b'/' && again

abbrev pub suffix_requires_dir_check : CString → Bool
suffix_requires_dir_check = suffix_from begin

unfoldable pub skip_slashes : CString → CString
skip_slashes [] = []
skip_slashes (c ∷ cs) = let rest = skip_slashes cs in if c == b'/' then rest else c ∷ cs

-- The characters before a slash, and the text from it on.
unfoldable pub component : CString → CString × CString
component [] = ([], [])
component (c ∷ cs) =
    let (a, rest) = component cs in if c == b'/' then ([], c ∷ cs) else (c ∷ a, rest)

unfoldable pub to_slash : CString → CString
to_slash [] = []
to_slash (c ∷ r) = let rest = to_slash r in if c == b'/' then c ∷ r else rest

-- One component back; the first character stays.
unfoldable pub back : CString → CString
unfolding to_slash
back [] = []
back (c ∷ []) = c ∷ []
back (c ∷ d ∷ r) = to_slash (d ∷ r)

abbrev pub with_slash : CString → CString
with_slash [] = b'/' ∷ []
with_slash (c ∷ r) = if c == b'/' then c ∷ r else b'/' ∷ c ∷ r

-- The path and the links that were met, an exit, or rounds that do not suffice.
pub data Canon : Type 0 where
  canonical : CString → List CString → Canon
  fails : Canon
  unfinished : Canon

abbrev pub max_symlinks : ℕ
max_symlinks = 20

abbrev pub buffer_size : ℕ
buffer_size = path_max + 5

-- A slash at the end is dropped, but not the first one.
abbrev pub close : CString → CString
close [] = []
close (c ∷ []) = c ∷ []
close (c ∷ d ∷ r) = if c == b'/' then d ∷ r else c ∷ d ∷ r

module _ (fs : Links) where
  -- `next` goes on with the buffer, the rest of the name, the number of links and the links.
  abbrev pub Next : Type 0
  Next = CString → CString → ℕ → List CString → Canon

  unfoldable pub follow : Next → CString → CString → ℕ → List CString → CString → Canon
  unfolding back
  follow next r end num_links links t =
      let joined =
        next (elim t [ [] ↦ back r | c ∷ cs ↦ if c == b'/' then b'/' ∷ [] else back r ]) (t ++ end)
          (suc num_links) (links ++ reverse r ∷ []) in
      if ltb max_symlinks (suc num_links)
      then fails
      else if leb (suc path_max) (length end + length t)
      then fails
      else joined

  unfoldable pub at_answer : Next → CString → CString → ℕ → List CString → Readlink → Canon
  unfolding follow suffix_from
  at_answer next r end num_links links (target t) = follow next r end num_links links t
  at_answer next r end num_links links answer =
      let on = next r end num_links links in
      let is_einval : Bool = elim answer [ einval ↦ true | _ ↦ false ] in
      let passes = if suffix_requires_dir_check end then fs.is_dir (reverse r) else is_einval in
      if passes then on else fails

  unfoldable pub enter : Next → CString → CString → CString → ℕ → List CString → Canon
  unfolding at_answer
  enter next r start end num_links links =
      let r1 = with_slash r in
      let r2 = reverse start ++ r1 in
      let entered = at_answer next r2 end num_links links (fs.readlink (reverse r2)) in
      if ltb (buffer_size - length r1) (length start + 4) then fails else entered

  unfoldable pub at_component : Next → CString → CString × CString → ℕ → List CString → Canon
  unfolding enter back
  at_component next r ([], end) num_links links = canonical (reverse (close r)) links
  at_component next r (c ∷ cs, end) num_links links =
      let here = next r end num_links links in
      let up = next (back r) end num_links links in
      let entered = enter next r (c ∷ cs) end num_links links in
      if str_eq (c ∷ cs) (codes ".")
      then here
      else if str_eq (c ∷ cs) (codes "..")
      then up
      else entered

  unfoldable pub canon_loop : ℕ → CString → CString → ℕ → List CString → Canon
  unfolding at_component component skip_slashes
  canon_loop zero r start num_links links = unfinished
  canon_loop (suc fuel) r start num_links links =
      at_component (canon_loop fuel) r (component (skip_slashes start)) num_links links

  -- Each link leaves a text that fits the buffer, and each round without one takes a component.
  unfoldable pub canonicalize : CString → CString → Canon
  unfolding canon_loop
  canonicalize cwd [] = fails
  canonicalize cwd (c ∷ cs) =
      canon_loop (suc (max_symlinks * path_max + length (c ∷ cs)))
        (if c == b'/' then b'/' ∷ [] else reverse cwd) (c ∷ cs) 0 []

  module _ (exclude_match : List (CString → Bool)) where
    unfoldable pub enqueue_links : List CString → Store → Enqueued
    unfolding enqueue_item
    enqueue_links [] s = enqueued none s
    enqueue_links (l ∷ ls) s = elim (enqueue_item exclude_match l none s) [
      | enqueued answer s' ↦ enqueue_links ls s'
      | bad_queue_head ↦ bad_queue_head
    ]

    -- The flag is set in a file that waited already too.
    unfoldable pub set_recursive : Bool → Enqueued → Enqueued
    unfolding modify
    set_recursive add (enqueued none s) = enqueued none s
    set_recursive add (enqueued (some a) s) =
        enqueued (some a) (record s { at = modify a (λ f. record f { recursive = add }) s.at })
    set_recursive add bad_queue_head = bad_queue_head

    unfoldable pub enqueue_path_at : Bool → CString → Enqueued → Enqueued
    unfolding set_recursive enqueue_item
    enqueue_path_at add path (enqueued answer s) =
        set_recursive add (enqueue_item exclude_match path none s)
    enqueue_path_at add path bad_queue_head = bad_queue_head

    -- none is an exit.
    unfoldable pub enqueue_canonicalized_path : CString → CString → Bool → Store → Option Enqueued
    unfolding canonicalize enqueue_links enqueue_path_at
    enqueue_canonicalized_path cwd name add_recursively s = elim (canonicalize cwd name) [
      | canonical path links ↦ some (enqueue_path_at add_recursively path (enqueue_links links s))
      | fails ↦ none
      | unfinished ↦ none
    ]
