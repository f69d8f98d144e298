-- ===== src/Executors/ThreadPool/Conserves.antt =====
-- executors/thread_pool: pushing and taking lose and duplicate no routine.
use concurrency_library.Common.{
  ℕ, suc, ◌+◌, ◌/◌, ◌<◌, ◌≤◌, ◌≡◌, ◌≢◌, refl, ap, ◌∙◌, Bool-cases, inl, inr, List, [], ◌∷◌, ◌++◌,
  update-all, ◌==◌, ==_of_ne, ==_of_eq, ==_refl, length, length-append, take, drop,
  take-append-drop, length-take, arith, weigh-update, ℕ_discrete,
}
use concurrency_library.Executors.ThreadPool.{
  Routine, null, local_queue_size, Local, ThreadPool, with_local, grab_to_global, push_local_loop,
  push_local, push_lifo,
}
use concurrency_library.Executors.ThreadPool.Count.{
  count-append, count-take-drop, count_local, count_pool,
}

-- No local queue is over its capacity.
abbrev pub Fits : ThreadPool → Type 0
Fits p = (i : ℕ) → length (p.locals i).queue ≤ local_queue_size

-- From `p` to `p'` the weight of the routines in the queues falls by `gone` and grows by `new`, the
-- workers and the counters stay, robbers only become more, and no local queue is over its capacity.
pub record Moves (w : Routine → ℕ) (gone new : ℕ) (p p' : ThreadPool) : Type 0 where
  pub counted : count_pool w p' + gone ≡ count_pool w p + new
  pub same_workers : p'.workers ≡ p.workers
  pub same_queued : p'.routines_in_queue ≡ p.routines_in_queue
  pub same_unfinished : p'.unfinished ≡ p.unfinished
  pub more_robbers : p.robbers_count ≤ p'.robbers_count
  pub fits : Fits p'

pub length-drop : (n : ℕ) (xs : List Routine) → n ≤ length xs → length (drop n xs) + n ≡ length xs
length-drop n xs h = omega (
  arith,
  ap length (take-append-drop n xs),
  length-append (take n xs) (drop n xs),
  length-take n xs h,
)

length-drop_le : (n : ℕ) (xs : List Routine) → length (drop n xs) ≤ length xs
length-drop_le n xs =
    omega (arith, ap length (take-append-drop n xs), length-append (take n xs) (drop n xs))

pub Moves-trans :
    {w : Routine → ℕ} {gone new gone' new' : ℕ} (out in' : ℕ) {p q r : ThreadPool}
    → Moves w gone new p q
    → Moves w gone' new' q r
    → in' + (gone + gone') ≡ out + (new + new')
    → Moves w out in' p r
Moves-trans out in' g h e = record {
  counted = omega (arith, g.counted, h.counted);
  same_workers = h.same_workers ∙ g.same_workers;
  same_queued = h.same_queued ∙ g.same_queued;
  same_unfinished = h.same_unfinished ∙ g.same_unfinished;
  more_robbers = omega (arith, g.more_robbers, h.more_robbers);
  fits = h.fits;
}

-- The same move, counted another way.
pub Moves-recount :
    {w : Routine → ℕ} {gone new : ℕ} (out in' : ℕ) {p q : ThreadPool}
    → Moves w gone new p q
    → in' + gone ≡ out + new
    → Moves w out in' p q
Moves-recount out in' g e = record {
  counted = omega (arith, g.counted);
  same_workers = g.same_workers;
  same_queued = g.same_queued;
  same_unfinished = g.same_unfinished;
  more_robbers = g.more_robbers;
  fits = g.fits;
}

module _ (w : Routine → ℕ) (p : ThreadPool) (fits : Fits p) (i : ℕ) (lt : i < p.workers) where
  -- Replacing what one worker owns.
  pub with_local-Moves :
      (l : Local)
      → length l.queue ≤ local_queue_size
      → Moves w (count_local w (p.locals i)) (count_local w l) p (with_local p i l)
  with_local-Moves l small = record {
    counted = omega (arith, weigh-update (count_local w) p.workers i p.locals l lt);
    same_workers = refl;
    same_queued = refl;
    same_unfinished = refl;
    more_robbers = omega arith;
    fits = update-all (λ l. length l.queue ≤ local_queue_size) p.locals i l small fits;
  }

  push_room :
      (r : Routine) (tries : ℕ)
      → length (p.locals i).queue ≢ local_queue_size
      → Moves w 0 (w r) p (push_local_loop (suc tries) p r i)
  unfolding push_local_loop
  push_room r tries room = rw (==_of_ne (length (p.locals i).queue) local_queue_size room) (
      Moves-recount 0 (w r)
        (with_local-Moves (record (p.locals i) { queue = (p.locals i).queue ++ r ∷ [] })
          (omega (arith, fits i, length-append (p.locals i).queue (r ∷ []))))
        (omega (arith, count-append w (p.locals i).queue (r ∷ []))))

  grab_to_global-Moves : Moves w 0 0 p (grab_to_global p i)
  unfolding grab_to_global
  grab_to_global-Moves = record {
    counted = omega (
      arith,
      weigh-update (count_local w) p.workers i p.locals
          (record (p.locals i) { queue = drop (local_queue_size / 2) (p.locals i).queue }) lt,
      count-append w p.global_queue (take (local_queue_size / 2) (p.locals i).queue),
      count-take-drop w (local_queue_size / 2) (p.locals i).queue,
    );
    same_workers = refl;
    same_queued = refl;
    same_unfinished = refl;
    more_robbers = omega arith;
    fits =
        update-all (λ l. length l.queue ≤ local_queue_size) p.locals i _
          (omega (arith, fits i, length-drop_le (local_queue_size / 2) (p.locals i).queue)) fits;
  }

-- `PushRoutineInTheLocalQueue` adds the routine once, whether the local queue has room or is full.
pub push_local-Moves :
    (w : Routine → ℕ) (p : ThreadPool) (r : Routine) (i : ℕ)
    → Fits p
    → i < p.workers
    → Moves w 0 (w r) p (push_local p r i)
unfolding push_local grab_to_global
push_local-Moves w p r i fits lt = elim (ℕ_discrete (length (p.locals i).queue) local_queue_size) [
  | no room ↦ push_room w p fits i lt r 1 room
  | yes full ↦
      let half = length-drop (local_queue_size / 2) (p.locals i).queue (omega arith) in
      rw (==_of_eq (length (p.locals i).queue) local_queue_size full) (
        Moves-trans 0 (w r) (grab_to_global-Moves w p fits i lt)
          (push_room w (grab_to_global p i) (grab_to_global-Moves w p fits i lt).fits i lt r 0
            (rw (==_refl i) (omega (arith, half))))
          (omega arith))
]

-- `PushRoutineInTheLIFOSlot` adds the routine once: a routine that it takes out of the slot moves to
-- the local queue.
pub push_lifo-Moves :
    (w : Routine → ℕ) (p : ThreadPool) (r : Routine) (i : ℕ)
    → w null ≡ 0
    → Fits p
    → i < p.workers
    → Moves w 0 (w r) p (push_lifo p r i)
unfolding push_lifo
push_lifo-Moves w p r i ne fits lt =
    let l : Local = p.locals i in
    let swapped = with_local-Moves w p fits i lt (record l { lifo_slot = r }) (fits i) in
    elim (Bool-cases (l.lifo_slot == null)) [
      | inl free ↦ rw free (Moves-recount 0 (w r) swapped (ground arith))
      | inr taken ↦ rw taken (
          Moves-trans 0 (w r) swapped
            (push_local-Moves w (with_local p i (record l { lifo_slot = r })) l.lifo_slot i
              swapped.fits lt)
            (omega arith))
    ]
