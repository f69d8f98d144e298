-- ===== src/Executors/Strand/Invariant.antt =====
-- executors/strand.hpp: who may run the batch, and which routines wait where.
use concurrency_library.Common.{
  ℕ, ◌+◌, ◌<◌, ◌≤◌, ◌≡◌, ◌≢◌, refl, ap, ◌∙◌, Bool, true, false, List, [], ◌∷◌, ◌++◌, update,
  reverse, append_assoc, reverse-cons, append-nil, weigh, weigh-update, weigh-ge, weigh-eq_zero,
  arith, if◌then◌else◌, ◌==◌, ℕ_discrete,
}
use concurrency_library.Executors.Strand.{
  Routine, null, closed_ptr, head_ptr, make_queue, Pc, pushing, pushed, lock, locking, submitting,
  running, unlocking, Strand, Move, execute, push_win, push_lose, first, behind, lock_win, start,
  run_next, run_done, unlock_win, System, init, step, Reach, here, next,
}

-- A thread that has the right to run the strand, and has not filled the batch or has emptied it.
abbrev pub takes : Pc → ℕ
takes (pushed e) = if e == null then 1 else 0
takes lock = 1
takes (locking _) = 1
takes unlocking = 1
takes _ = 0

-- A thread that has the right to run the strand, and whose batch may hold routines.
abbrev pub holds : Pc → ℕ
holds submitting = 1
holds running = 1
holds _ = 0

-- Whether somebody has the right to run the strand.
abbrev pub owned : List Routine → Bool → ℕ
owned [] false = 0
owned [] true = 1
owned (_ ∷ _) _ = 1

-- No routine is null or `kClosed`.
abbrev pub Proper : List Routine → Type 0
Proper [] = Unit
Proper (r ∷ rs) = (r ≢ null) × (r ≢ closed_ptr) × Proper rs

abbrev pub ProperPc : Pc → Type 0
ProperPc (pushing r e) = (r ≢ null) × (r ≢ closed_ptr)
ProperPc _ = Unit

pub make_queue-reverse : (rs stack : List Routine) → make_queue rs stack ≡ reverse rs ++ stack
unfolding make_queue
make_queue-reverse [] stack = refl
make_queue-reverse (r ∷ rs) stack =
    rw (make_queue-reverse rs (r ∷ stack), reverse-cons r rs, append_assoc)

pub record Inv (n : ℕ) (s : Strand) (pc : ℕ → Pc) : Type 0 where
  pub owner : weigh takes n pc + weigh holds n pc + s.queued ≡ owned s.chain.routines s.chain.closed
  pub drained : weigh holds n pc + s.queued ≡ 0 → s.batch ≡ []
  pub order : s.submitted ≡ s.ran ++ (s.batch ++ reverse s.chain.routines)
  pub proper : Proper s.chain.routines
  pub proper_pc : (i : ℕ) → ProperPc (pc i)

pub owned_le : (rs : List Routine) (c : Bool) → owned rs c ≤ 1
owned_le [] false = omega arith
owned_le [] true = omega arith
owned_le (r ∷ rs) c = omega arith

owned_of_null : (rs : List Routine) (c : Bool) → Proper rs → head_ptr rs c ≡ null → owned rs c ≡ 0
owned_of_null [] false p h = refl
owned_of_null [] true p h = absurd (omega arith)
owned_of_null (r ∷ rs) c p h = absurd (p.0 h)

owned_of_ne_null : (rs : List Routine) (c : Bool) → head_ptr rs c ≢ null → owned rs c ≡ 1
owned_of_ne_null [] false h = absurd (h refl)
owned_of_ne_null [] true h = refl
owned_of_ne_null (r ∷ rs) c h = refl

nil_of_closed :
    (rs : List Routine) (c : Bool)
    → Proper rs
    → head_ptr rs c ≡ closed_ptr
    → (rs ≡ []) × (owned rs c ≡ 1)
nil_of_closed [] false p h = absurd (omega arith)
nil_of_closed [] true p h = (refl, refl)
nil_of_closed (r ∷ rs) c p h = absurd (p.1 h)

module _ {n : ℕ} {s : Strand} {pc : ℕ → Pc} (inv : Inv n s pc) (i : ℕ) (lt : i < n) where
  open inv use {owner, drained, order, proper, proper_pc}

  -- Thread `i` goes from `p` to `p'`.
  record Mover (p p' : Pc) : Type 0 where
    at : pc i ≡ p
    takers : weigh takes n (update pc i p') + takes p ≡ weigh takes n pc + takes p'
    holders : weigh holds n (update pc i p') + holds p ≡ weigh holds n pc + holds p'
    taker : takes p ≤ weigh takes n pc
    holder : holds p ≤ weigh holds n pc
    one : owned s.chain.routines s.chain.closed ≤ 1

  mover : (p' : Pc) → Mover (pc i) p'
  mover p' = record {
    at = refl;
    takers = weigh-update takes n i pc p' lt;
    holders = weigh-update holds n i pc p' lt;
    taker = weigh-ge takes n i pc lt;
    holder = weigh-ge holds n i pc lt;
    one = owned_le s.chain.routines s.chain.closed;
  }

  Move-owner :
      {p p' : Pc} {t : Strand}
      → Move s p t p'
      → Mover p p'
      → weigh takes n (update pc i p') + weigh holds n (update pc i p') + t.queued
        ≡ owned t.chain.routines t.chain.closed
  Move-owner (push_win {e} h) f = elim (ℕ_discrete e null) [
    | yes q ↦ ground (arith, owned_of_null s.chain.routines s.chain.closed proper)
    | no q ↦ ground (arith, owned_of_ne_null s.chain.routines s.chain.closed)
  ]
  Move-owner (first h) f = ground arith
  Move-owner (behind h) f = ground arith
  Move-owner (lock_win h) f = ground arith
  Move-owner (start h) f = ground arith
  Move-owner (unlock_win h) f = ground (arith, nil_of_closed s.chain.routines s.chain.closed proper)
  Move-owner mv f = ground arith

  Move-drained :
      {p p' : Pc} {t : Strand}
      → Move s p t p'
      → Mover p p'
      → weigh holds n (update pc i p') + t.queued ≡ 0
      → t.batch ≡ []
  Move-drained (push_win {e} h) f q = ground (arith, drained)
  Move-drained (lock_win h) f q = ground arith
  Move-drained (run_done h) f q = h
  Move-drained mv f q = ground (arith, drained)

  Move-order :
      {p p' : Pc} {t : Strand}
      → Move s p t p'
      → Mover p p'
      → t.submitted ≡ t.ran ++ (t.batch ++ reverse t.chain.routines)
  Move-order (push_win {r} {e} h) f =
      rw (order, reverse-cons r s.chain.routines) (simp append_assoc)
  Move-order (lock_win h) f =
      let empty : s.batch ≡ [] = drained (omega (arith, owner, f.taker, f.one)) in
      order ∙ rw (empty, make_queue-reverse s.chain.routines []) (simp append-nil)
  Move-order (run_next {r} {rs} h) f = order ∙ rw (h, append_assoc)
  Move-order (unlock_win h) f =
      order
      ∙ ap (λ rs. s.ran ++ (s.batch ++ reverse rs))
          (nil_of_closed s.chain.routines s.chain.closed proper h).0
  Move-order mv f = order

  Move-Proper :
      {p p' : Pc} {t : Strand} → Move s p t p' → ProperPc p → Proper t.chain.routines × ProperPc p'
  Move-Proper (execute r a b) q = (proper, (a, b))
  Move-Proper (push_win h) q = ((q.0, q.1, proper), tt)
  Move-Proper (lock_win h) q = (tt, tt)
  Move-Proper (unlock_win h) q = (tt, tt)
  Move-Proper (push_lose h) q = (proper, q)
  Move-Proper mv q = (proper, tt)

  -- A move of one thread keeps the invariant.
  pub Move-Inv : {p' : Pc} {t : Strand} → Move s (pc i) t p' → Inv n t (update pc i p')
  Move-Inv {p'} mv = record {
    owner = Move-owner mv (mover p');
    drained = Move-drained mv (mover p');
    order = Move-order mv (mover p');
    proper = (Move-Proper mv (proper_pc i)).0;
    proper_pc = λ j. ground (arith, proper_pc j, (Move-Proper mv (proper_pc i)).1);
  }

pub init-Inv : (n : ℕ) → Inv n init.strand init.pc
init-Inv n = record {
  owner =
      omega (
        arith,
        weigh-eq_zero takes n init.pc (λ i. refl),
        weigh-eq_zero holds n init.pc (λ i. refl),
      );
  drained = λ q. refl;
  order = refl;
  proper = tt;
  proper_pc = λ i. tt;
}

pub Reach-Inv : {n : ℕ} {s : System} → Reach n s → Inv n s.strand s.pc
Reach-Inv {n} here = init-Inv n
Reach-Inv (next r (step i lt mv)) = Move-Inv (Reach-Inv r) i lt mv
