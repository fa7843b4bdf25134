-- ===== src/Ueventd/Pause.antt =====
-- Which queues are paused after the pause directory was read.
use make_initrd.Prelude.{
  ◌≡◌, refl, sym, ap, ◌∙◌, Bool, true, false, not, ◌&&◌, ◌||◌, List, [], ◌∷◌, map, arith,
  Bool-cases, inl, inr, CString, codes, str_eq,
}
use mathlib.Core.Path.{ap₂}
use make_initrd.Ueventd.Watch.{
  Watch, Daemon, Dirent, is_queue, skipped, pause_entry, unpause, pause_loop, apply_pause,
}

-- The directory has a subdirectory of that name, other than `.` and `..`.
pub names : List Dirent → CString → Bool
names [] name = false
names (ent ∷ ents) name = (not (skipped ent) && str_eq ent.d_name name) || names ents name

pub all_paused : List Dirent → Bool
all_paused ents = names ents (codes ".all")

-- A queue is paused by `.all` or by its own name.
pub is_paused : List Dirent → Watch → Bool
is_paused ents w = is_queue w.kind && (all_paused ents || names ents w.q_name)

pub with_pause : List Dirent → Watch → Watch
with_pause ents w = record w { paused = is_paused ents w }

or_pause : List Dirent → Watch → Watch
or_pause ents w = record w { paused = w.paused || is_paused ents w }

map-map :
    (f g h : Watch → Watch) (ws : List Watch)
    → ((w : Watch) → f (g w) ≡ h w)
    → map f (map g ws) ≡ map h ws
map-map f g h [] e = refl
map-map f g h (w ∷ ws) e = ground (arith, e w, map-map f g h ws e)

map-same : (f g : Watch → Watch) (ws : List Watch) → ((w : Watch) → f w ≡ g w) → map f ws ≡ map g ws
map-same f g [] e = refl
map-same f g (w ∷ ws) e = ground (arith, e w, map-same f g ws e)

map-id : (f : Watch → Watch) (ws : List Watch) → ((w : Watch) → f w ≡ w) → map f ws ≡ ws
map-id f [] e = refl
map-id f (w ∷ ws) e = ground (arith, e w, map-id f ws e)

abbrev result : List Dirent → Daemon → Daemon
result ents d = record d {
  pause_all = all_paused ents;
  watch_list = map (or_pause ents) d.watch_list;
}

module _ (ent : Dirent) (ents : List Dirent) where
  all_paused-skip : skipped ent ≡ true → all_paused (ent ∷ ents) ≡ all_paused ents
  unfolding all_paused names
  all_paused-skip s = ground arith

  or_pause-skip : skipped ent ≡ true → (w : Watch) → or_pause ents w ≡ or_pause (ent ∷ ents) w
  unfolding or_pause is_paused all_paused names
  or_pause-skip s w = ground arith

  or_pause-all :
      skipped ent ≡ false
      → str_eq ent.d_name (codes ".all") ≡ true
      → (w : Watch) → pause_entry true ent.d_name w ≡ or_pause (ent ∷ ents) w
  unfolding or_pause is_paused all_paused names pause_entry
  or_pause-all s e w = ground arith

  or_pause-step :
      skipped ent ≡ false
      → str_eq ent.d_name (codes ".all") ≡ false
      → (w : Watch) → or_pause ents (pause_entry false ent.d_name w) ≡ or_pause (ent ∷ ents) w
  unfolding or_pause is_paused all_paused names pause_entry
  or_pause-step s e w = ground arith

  all_paused-step :
      skipped ent ≡ false
      → all_paused (ent ∷ ents) ≡ (str_eq ent.d_name (codes ".all") || all_paused ents)
  unfolding all_paused names
  all_paused-step s = ground arith

abbrev update : Daemon → Bool → List Watch → Daemon
update d a ws = record d { pause_all = a; watch_list = ws }

update-same :
    (d : Daemon) (a : Bool) (ws : List Watch)
    → d.pause_all ≡ a
    → d.watch_list ≡ ws
    → d ≡ update d a ws
update-same d a ws p q i = record d { pause_all = p i; watch_list = q i }

or_pause-nil : (w : Watch) → or_pause [] w ≡ w
unfolding or_pause is_paused all_paused names
or_pause-nil w = ground arith

pause_loop_lem :
    (ents : List Dirent) (d : Daemon) → d.pause_all ≡ false → pause_loop ents d ≡ result ents d
unfolding pause_loop
pause_loop_lem [] d e =
    update-same d _ _ (unfold all_paused names in e)
      (sym (map-id (or_pause []) d.watch_list or_pause-nil))
pause_loop_lem (ent ∷ ents) d e = elim (Bool-cases (skipped ent)) [
  | inl skip ↦ rw skip (
      pause_loop_lem ents d e
      ∙ ap₂ (update d) (sym (all_paused-skip ent ents skip))
          (map-same _ _ d.watch_list (or_pause-skip ent ents skip)))
  | inr kept ↦ elim (Bool-cases (str_eq ent.d_name (codes ".all"))) [
    | inl every ↦
        rw (kept, every)
          (ap₂ (update d) (sym (rw (all_paused-step ent ents kept, every)))
            (map-same _ _ d.watch_list (or_pause-all ent ents kept every)))
    | inr one ↦
        let next = update d false (map (pause_entry false ent.d_name) d.watch_list) in
        rw (kept, one, e)
          (pause_loop_lem ents next refl
            ∙ ap₂ (update d) (sym (rw (all_paused-step ent ents kept, one)))
                (map-map _ _ _ d.watch_list (or_pause-step ent ents kept one)))
  ]
]

or_pause-unpause : (ents : List Dirent) (w : Watch) → or_pause ents (unpause w) ≡ with_pause ents w
unfolding or_pause unpause with_pause is_paused
or_pause-unpause ents w = refl

-- After the pause directory is read, a queue is paused exactly if the directory holds `.all` or a
-- subdirectory of the queue's name, no other watch is paused, `pause_all` says whether `.all` is
-- there, and nothing else of the daemon changes. The order of the entries does not matter.
pub apply_pause_lem :
    (ents : List Dirent) (d : Daemon)
    → apply_pause ents d
      ≡ record d { pause_all = all_paused ents; watch_list = map (with_pause ents) d.watch_list }
unfolding apply_pause
apply_pause_lem ents d =
    pause_loop_lem ents _ refl
    ∙ ap (update d (all_paused ents))
        (map-map (or_pause ents) unpause (with_pause ents) d.watch_list (or_pause-unpause ents))
