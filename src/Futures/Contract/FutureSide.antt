-- ===== src/Futures/Contract/FutureSide.antt =====
-- futures/future.hpp: every step of the owner of the future keeps the invariant.
use concurrency_library.Common.{
  ◌≡◌, ◌≢◌, refl, sym, ap, ◌∙◌, Option, none, some, [], ◌∷◌, ◌++◌, arith,
}
use concurrency_library.Futures.Contract.{
  Outcome, Callback, Executor, Word, empty, value_is_set, hooked, Race, neither, set_only,
  hook_only, set_first, hook_first, FutureValue, via, hook, hook_load, hook_win, hook_lose,
  hook_run, hook_leave, get_semi, get_future, abandon_semi, abandon_future, abandon_got,
  drop_future, PromisePc, fresh, stored, swapping, testing, dropping, dropped, FuturePc, semi,
  future, hooking, hook_swapping, hook_testing, got, future_dropping, future_dropped, hook_race,
  Future,
}
use concurrency_library.Futures.Contract.Invariant.{
  word_of, Unhooked, PromiseOk, Hooked, Got, FutureOk, ExecutorOk, Untaken, ValueOk, expected,
  owns_future, Inv,
}
use concurrency_library.Futures.Contract.PromiseSide.{false-ne}

is_set-ne : value_is_set ≢ empty
is_set-ne = cc

-- While no callback is set, nothing has run, and the future may move on without the value.
Unhooked-value :
    (race : Race) (p : PromisePc) (f g : FuturePc) (v : Option Outcome)
    → Unhooked race
    → ((r : Outcome) → Untaken f v r → Untaken g v r)
    → ValueOk race p f v
    → (expected race p f ≡ expected race p g) × ValueOk race p g v
Unhooked-value neither p f g v u on val = (refl, val)
Unhooked-value (set_only r) p f g v u on val = (refl, on r val)
Unhooked-value (hook_only e c) p f g v u on val = absurd u
Unhooked-value (set_first r e c) p f g v u on val = absurd u
Unhooked-value (hook_first e c r) p f g v u on val = absurd u

Unhooked-ExecutorOk : (race : Race) (x : Option Executor) → Unhooked race → ExecutorOk race x
Unhooked-ExecutorOk neither x u = tt
Unhooked-ExecutorOk (set_only r) x u = tt
Unhooked-ExecutorOk (hook_only e c) x u = absurd u
Unhooked-ExecutorOk (set_first r e c) x u = absurd u
Unhooked-ExecutorOk (hook_first e c r) x u = absurd u

Got-Unhooked : (race : Race) (x : Option Outcome) → Got x race → Unhooked race
Got-Unhooked (set_only r) x g = tt
Got-Unhooked neither x g = absurd g
Got-Unhooked (hook_only e c) x g = absurd g
Got-Unhooked (set_first r e c) x g = absurd g
Got-Unhooked (hook_first e c r) x g = absurd g

PromiseOk-hook_race :
    (p : PromisePc) (race : Race) (e : Executor) (c : Callback)
    → Unhooked race
    → PromiseOk p race
    → PromiseOk p (hook_race e c race)
PromiseOk-hook_race p (hook_only e' c') e c u ok = absurd u
PromiseOk-hook_race p (set_first r e' c') e c u ok = absurd u
PromiseOk-hook_race p (hook_first e' c' r) e c u ok = absurd u
PromiseOk-hook_race fresh neither e c u ok = tt
PromiseOk-hook_race (stored r) neither e c u ok = tt
PromiseOk-hook_race (swapping r old) neither e c u ok = tt
PromiseOk-hook_race (testing r old) neither e c u ok = absurd ok
PromiseOk-hook_race fresh (set_only r') e c u ok = absurd ok
PromiseOk-hook_race (stored r) (set_only r') e c u ok = absurd ok
PromiseOk-hook_race (swapping r old) (set_only r') e c u ok = absurd ok
PromiseOk-hook_race (testing r old) (set_only r') e c u ok = ok
PromiseOk-hook_race dropping race e c u ok = tt
PromiseOk-hook_race dropped race e c u ok = tt

-- What does not depend on where the promise stands, when the exchange of the future succeeds.
hook-won :
    (race : Race) (p : PromisePc) (e : Executor) (c : Callback) (old : Word) (v : Option Outcome)
    (x : Option Executor)
    → Unhooked race
    → old ≡ word_of race
    → x ≡ some e
    → ValueOk race p (hook_swapping e c old) v
    → (word_of (hook_race e c race) ≡ hooked c)
      × Hooked e c old (hook_race e c race)
      × ExecutorOk (hook_race e c race) x
      × ValueOk (hook_race e c race) p (hook_testing e c old) v
      × (expected race p (hook_swapping e c old)
          ≡ expected (hook_race e c race) p (hook_testing e c old))
hook-won neither p e c old v x u w ex val = (refl, w, ex, val, refl)
hook-won (set_only r) p e c old v x u w ex val = (refl, (w, refl), ex, (λ _. val), refl)
hook-won (hook_only e' c') p e c old v x u w ex val = absurd u
hook-won (set_first r e' c') p e c old v x u w ex val = absurd u
hook-won (hook_first e' c' r) p e c old v x u w ex val = absurd u

-- What the future runs is its callback, with the result that the promise has set.
hook-ran :
    (race : Race) (p : PromisePc) (e : Executor) (c : Callback) (old : Word) (v : Option Outcome)
    (x : Option Executor)
    → old ≡ value_is_set
    → Hooked e c old race
    → ExecutorOk race x
    → ValueOk race p (hook_testing e c old) v
    → (expected race p (hook_testing e c old) ≡ [])
      × (record { callback = hooked c; outcome = v; executor = x } ∷ []
          ≡ expected race p future_dropping)
      × ValueOk race p future_dropping none
hook-ran neither p e c old v x i saw ok val = absurd saw
hook-ran (set_only r) p e c old v x i saw ok val = absurd saw
hook-ran (hook_only e' c') p e c old v x i saw ok val = absurd (is_set-ne (sym i ∙ saw))
hook-ran (set_first r e' c') p e c old v x i saw ok val =
    (refl, rw (saw.1, val refl, ok) refl, (λ y. absurd (false-ne y)))
hook-ran (hook_first e' c' r) p e c old v x i saw ok val = absurd (is_set-ne (sym i ∙ saw))

hook-left :
    (race : Race) (p : PromisePc) (e : Executor) (c : Callback) (old : Word) (v : Option Outcome)
    → old ≢ value_is_set
    → Hooked e c old race
    → ValueOk race p (hook_testing e c old) v
    → (expected race p (hook_testing e c old) ≡ expected race p future_dropping)
      × ValueOk race p future_dropping v
hook-left neither p e c old v ne saw val = absurd saw
hook-left (set_only r) p e c old v ne saw val = absurd saw
hook-left (hook_only e' c') p e c old v ne saw val = (refl, val)
hook-left (set_first r e' c') p e c old v ne saw val = absurd (ne saw.0)
hook-left (hook_first e' c' r) p e c old v ne saw val = (refl, val)

-- What `GetResult` finds once the pointer is not null.
got-value :
    (race : Race) (p : PromisePc) (f : FuturePc) (v : Option Outcome)
    → word_of race ≢ empty
    → Unhooked race
    → ((r : Outcome) → Untaken f v r → v ≡ some r)
    → ValueOk race p f v
    → Got v race × (expected race p f ≡ expected race p (got v)) × ValueOk race p (got v) none
got-value neither p f v ne u has val = absurd (ne refl)
got-value (set_only r) p f v ne u has val = (has r val, refl, tt)
got-value (hook_only e c) p f v ne u has val = absurd u
got-value (set_first r e c) p f v ne u has val = absurd u
got-value (hook_first e c r) p f v ne u has val = absurd u

future-dropped :
    (race : Race) (p : PromisePc) (v : Option Outcome)
    → ValueOk race p future_dropping v
    → (expected race p future_dropping ≡ expected race p future_dropped)
      × ValueOk race p future_dropped v
future-dropped neither p v val = (refl, val)
future-dropped (set_only r) p v val = (refl, val)
future-dropped (hook_only e c) p v val = (refl, val)
future-dropped (set_first r e c) p v val = (refl, val)
future-dropped (hook_first e c r) p v val = (refl, val)

module _ {s : FutureValue} (p : PromisePc) where
  -- A step of the future that changes nothing in the shared value.
  quiet :
      (f g : FuturePc)
      → Inv s p f
      → FutureOk g s.race s.executor
      → (expected s.race p f ≡ expected s.race p g) × ValueOk s.race p g s.value
      → owns_future f ≡ owns_future g
      → Inv s p g
  quiet f g h ok (same, value) own = record {
    word = h.word;
    promise_ok = h.promise_ok;
    future_ok = ok;
    executor_ok = h.executor_ok;
    value_ok = value;
    executed = h.executed ∙ same;
    owners = omega (arith, h.owners, own);
    deleted = h.deleted;
  }

  -- `GetResult` takes the value.
  gets :
      (f : FuturePc)
      → Inv s p f
      → s.word ≢ empty
      → Unhooked s.race
      → ((r : Outcome) → Untaken f s.value r → s.value ≡ some r)
      → owns_future f ≡ 1
      → Inv (record s { value = none }) p (got s.value)
  gets f h ne u has own =
      let (g, same, value) = got-value s.race p f s.value (λ e. ne (h.word ∙ e)) u has h.value_ok in
      record {
        word = h.word;
        promise_ok = h.promise_ok;
        future_ok = g;
        executor_ok = h.executor_ok;
        value_ok = value;
        executed = h.executed ∙ same;
        owners = omega (arith, h.owners, own);
        deleted = h.deleted;
      }

pub Future-Inv :
    {s t : FutureValue} {f g : FuturePc} (p : PromisePc) → Future s f t g → Inv s p f → Inv t p g
Future-Inv {s} p (via e) h =
    let (same, value) =
      Unhooked-value s.race p semi (future e) s.value h.future_ok (λ r x. x) h.value_ok in
    record {
      word = h.word;
      promise_ok = h.promise_ok;
      future_ok = (h.future_ok, refl);
      executor_ok = Unhooked-ExecutorOk s.race (some e) h.future_ok;
      value_ok = value;
      executed = h.executed ∙ same;
      owners = h.owners;
      deleted = h.deleted;
    }
Future-Inv {s} p (hook {e} c) h =
    quiet p (future e) (hooking e c) h h.future_ok
      (Unhooked-value s.race p (future e) (hooking e c) s.value h.future_ok.0 (λ r x. x) h.value_ok)
      refl
Future-Inv {s} p (hook_load {e} {c}) h =
    quiet p (hooking e c) (hook_swapping e c s.word) h h.future_ok
      (Unhooked-value s.race p (hooking e c) (hook_swapping e c s.word) s.value h.future_ok.0
        (λ r x. x) h.value_ok)
      refl
Future-Inv {s} p (hook_win {e} {c} {old} w) h =
    let after =
      hook-won s.race p e c old s.value s.executor h.future_ok.0 (sym w ∙ h.word) h.future_ok.1
        h.value_ok in
    record {
      word = sym after.0;
      promise_ok = PromiseOk-hook_race p s.race e c h.future_ok.0 h.promise_ok;
      future_ok = after.1;
      executor_ok = after.2;
      value_ok = after.3;
      executed = h.executed ∙ after.4;
      owners = h.owners;
      deleted = h.deleted;
    }
Future-Inv {s} p (hook_lose {e} {c} {old}) h =
    quiet p (hook_swapping e c old) (hook_swapping e c s.word) h h.future_ok
      (Unhooked-value s.race p (hook_swapping e c old) (hook_swapping e c s.word) s.value
        h.future_ok.0 (λ r x. x) h.value_ok)
      refl
Future-Inv {s} p (hook_run {e} {c} {old} i) h =
    let (nothing, ran, value) =
      hook-ran s.race p e c old s.value s.executor i h.future_ok h.executor_ok h.value_ok in
    record {
      word = h.word;
      promise_ok = h.promise_ok;
      future_ok = tt;
      executor_ok = h.executor_ok;
      value_ok = value;
      executed =
          ap
            (λ ts.
              ts ++ record { callback = hooked c; outcome = s.value; executor = s.executor } ∷ [])
            (h.executed ∙ nothing)
          ∙ ran;
      owners = h.owners;
      deleted = h.deleted;
    }
Future-Inv {s} p (hook_leave {e} {c} {old} ne) h =
    quiet p (hook_testing e c old) future_dropping h tt
      (hook-left s.race p e c old s.value ne h.future_ok h.value_ok) refl
Future-Inv {s} p (get_semi ne) h = gets p semi h ne h.future_ok (λ r x. x) refl
Future-Inv {s} p (get_future {e} ne) h = gets p (future e) h ne h.future_ok.0 (λ r x. x) refl
Future-Inv {s} p abandon_semi h =
    quiet p semi future_dropping h tt
      (Unhooked-value s.race p semi future_dropping s.value h.future_ok (λ r x. tt) h.value_ok) refl
Future-Inv {s} p (abandon_future {e}) h =
    quiet p (future e) future_dropping h tt
      (Unhooked-value s.race p (future e) future_dropping s.value h.future_ok.0 (λ r x. tt)
        h.value_ok)
      refl
Future-Inv {s} p (abandon_got {x}) h =
    quiet p (got x) future_dropping h tt
      (Unhooked-value s.race p (got x) future_dropping s.value (Got-Unhooked s.race x h.future_ok)
        (λ r x. tt) h.value_ok)
      refl
Future-Inv {s} p drop_future h =
    let (same, value) = future-dropped s.race p s.value h.value_ok in
    record {
      word = h.word;
      promise_ok = h.promise_ok;
      future_ok = tt;
      executor_ok = h.executor_ok;
      value_ok = value;
      executed = h.executed ∙ same;
      owners = omega (arith, h.owners);
      deleted = ground (arith, h.owners, h.deleted);
    }
