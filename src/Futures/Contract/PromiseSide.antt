-- ===== src/Futures/Contract/PromiseSide.antt =====
-- futures/promise.hpp: every step of the owner of the promise keeps the invariant.
use concurrency_library.Common.{
  ◌≡◌, ◌≢◌, refl, sym, ap, ◌∙◌, true, false, Option, none, some, [], ◌∷◌, ◌++◌, arith, ◌↔◌,
}
use concurrency_library.Futures.Contract.{
  Outcome, Callback, Executor, Word, empty, value_is_set, hooked, Race, neither, set_only,
  hook_only, set_first, hook_first, FutureValue, store, load, win, lose, run, notify, abandon,
  drop_promise, PromisePc, fresh, stored, swapping, testing, dropping, dropped, FuturePc, semi,
  future, hooking, hook_swapping, hook_testing, got, future_dropping, future_dropped, set_race,
  Promise,
}
use concurrency_library.Futures.Contract.Invariant.{
  word_of, Unset, Saw, FutureOk, ExecutorOk, Stored, Untaken, ValueOk, expected, Inv,
}

pub false-ne : false ≢ true
false-ne = cc

pub hooked-ne : (c : Callback) → hooked c ≢ empty
hooked-ne c = cc

Untaken-value : (f : FuturePc) (v : Option Outcome) (r : Outcome) → v ≡ some r → Untaken f v r
Untaken-value semi v r e = e
Untaken-value (future x) v r e = e
Untaken-value (hooking x c) v r e = e
Untaken-value (hook_swapping x c old) v r e = e
Untaken-value (hook_testing x c old) v r e = e
Untaken-value (got x) v r e = tt
Untaken-value future_dropping v r e = tt
Untaken-value future_dropped v r e = tt

-- While the result is not set, nothing has run, and the value is what the promise stored.
Unset-value :
    (race : Race) (p : PromisePc) (f : FuturePc) (v : Option Outcome)
    → Unset race
    → (ValueOk race p f v ↔ Stored p v) × (expected race p f ≡ [])
Unset-value (set_only r') p f v u = absurd u
Unset-value (set_first r' e' c') p f v u = absurd u
Unset-value (hook_first e' c' r') p f v u = absurd u
Unset-value neither p f v u = (((λ x. x), (λ x. x)), refl)
Unset-value (hook_only e c) p f v u = (((λ x. x), (λ x. x)), refl)

FutureOk-set_race :
    (f : FuturePc) (race : Race) (x : Option Executor) (r : Outcome)
    → Unset race
    → FutureOk f race x
    → FutureOk f (set_race r race) x
FutureOk-set_race f (set_only r') x r u ok = absurd u
FutureOk-set_race f (set_first r' e' c') x r u ok = absurd u
FutureOk-set_race f (hook_first e' c' r') x r u ok = absurd u
FutureOk-set_race semi neither x r u ok = tt
FutureOk-set_race (future e) neither x r u ok = (tt, ok.1)
FutureOk-set_race (hooking e c) neither x r u ok = (tt, ok.1)
FutureOk-set_race (hook_swapping e c old) neither x r u ok = (tt, ok.1)
FutureOk-set_race (hook_testing e c old) neither x r u ok = absurd ok
FutureOk-set_race (hook_testing e c old) (hook_only e' c') x r u ok = ok
FutureOk-set_race (got y) neither x r u ok = absurd ok
FutureOk-set_race future_dropping race x r u ok = tt
FutureOk-set_race future_dropped race x r u ok = tt
FutureOk-set_race semi (hook_only e' c') x r u ok = absurd ok
FutureOk-set_race (future e) (hook_only e' c') x r u ok = absurd ok.0
FutureOk-set_race (hooking e c) (hook_only e' c') x r u ok = absurd ok.0
FutureOk-set_race (hook_swapping e c old) (hook_only e' c') x r u ok = absurd ok.0
FutureOk-set_race (got y) (hook_only e' c') x r u ok = absurd ok

-- What does not depend on where the future stands, when the exchange of the promise succeeds.
set-won :
    (race : Race) (f : FuturePc) (r : Outcome) (old : Word) (v : Option Outcome)
    (x : Option Executor)
    → Unset race
    → old ≡ word_of race
    → v ≡ some r
    → ExecutorOk race x
    → (word_of (set_race r race) ≡ value_is_set)
      × Saw old (set_race r race)
      × ExecutorOk (set_race r race) x
      × ValueOk (set_race r race) (testing r old) f v
      × (expected (set_race r race) (testing r old) f ≡ [])
set-won (set_only r') f r old v x u w e ok = absurd u
set-won (set_first r' e' c') f r old v x u w e ok = absurd u
set-won (hook_first e' c' r') f r old v x u w e ok = absurd u
set-won neither f r old v x u w e ok = (refl, w, tt, Untaken-value f v r e, refl)
set-won (hook_only e' c) f r old v x u w e ok = (refl, w, ok, (λ _. e), refl)

-- What the promise runs is the callback that it saw.
set-ran :
    (race : Race) (f : FuturePc) (r : Outcome) (old : Word) (v : Option Outcome)
    (x : Option Executor)
    → old ≢ empty
    → Saw old race
    → ExecutorOk race x
    → ValueOk race (testing r old) f v
    → (expected race (testing r old) f ≡ [])
      × (record { callback = old; outcome = v; executor = x } ∷ [] ≡ expected race dropping f)
      × ValueOk race dropping f none
set-ran neither f r old v x ne saw ok val = absurd saw
set-ran (hook_only e c) f r old v x ne saw ok val = absurd saw
set-ran (set_only r') f r old v x ne saw ok val = absurd (ne saw)
set-ran (set_first r' e c) f r old v x ne saw ok val = absurd (ne saw)
set-ran (hook_first e c r') f r old v x ne saw ok val =
    (refl, rw (saw, val refl, ok) refl, (λ y. absurd (false-ne y)))

set-notified :
    (race : Race) (f : FuturePc) (r : Outcome) (old : Word) (v : Option Outcome)
    → old ≡ empty
    → Saw old race
    → ValueOk race (testing r old) f v
    → (expected race (testing r old) f ≡ expected race dropping f) × ValueOk race dropping f v
set-notified neither f r old v e saw val = absurd saw
set-notified (hook_only e' c) f r old v e saw val = absurd saw
set-notified (set_only r') f r old v e saw val = (refl, val)
set-notified (set_first r' e' c) f r old v e saw val = (refl, val)
set-notified (hook_first e' c r') f r old v e saw val = absurd (hooked-ne c (sym saw ∙ e))

promise-dropped :
    (race : Race) (f : FuturePc) (v : Option Outcome)
    → ValueOk race dropping f v
    → (expected race dropping f ≡ expected race dropped f) × ValueOk race dropped f v
promise-dropped neither f v val = (refl, tt)
promise-dropped (set_only r) f v val = (refl, val)
promise-dropped (hook_only e c) f v val = (refl, tt)
promise-dropped (set_first r e c) f v val = (refl, val)
promise-dropped (hook_first e c r) f v val = (refl, val)

pub Promise-Inv :
    {s t : FutureValue} {p q : PromisePc} (f : FuturePc) → Promise s p t q → Inv s p f → Inv t q f
Promise-Inv {s} f (store r) h =
    let before = Unset-value s.race fresh f s.value h.promise_ok in
    let after = Unset-value s.race (stored r) f (some r) h.promise_ok in
    record {
      word = h.word;
      promise_ok = h.promise_ok;
      future_ok = h.future_ok;
      executor_ok = h.executor_ok;
      value_ok = after.0.1 refl;
      executed = h.executed ∙ before.1 ∙ sym after.1;
      owners = h.owners;
      deleted = h.deleted;
    }
Promise-Inv {s} f (load {r}) h =
    let before = Unset-value s.race (stored r) f s.value h.promise_ok in
    let after = Unset-value s.race (swapping r s.word) f s.value h.promise_ok in
    record {
      word = h.word;
      promise_ok = h.promise_ok;
      future_ok = h.future_ok;
      executor_ok = h.executor_ok;
      value_ok = after.0.1 (before.0.0 h.value_ok);
      executed = h.executed ∙ before.1 ∙ sym after.1;
      owners = h.owners;
      deleted = h.deleted;
    }
Promise-Inv {s} f (win {r} {old} e) h =
    let before = Unset-value s.race (swapping r old) f s.value h.promise_ok in
    let after =
      set-won s.race f r old s.value s.executor h.promise_ok (sym e ∙ h.word)
        (before.0.0 h.value_ok) h.executor_ok in
    record {
      word = sym after.0;
      promise_ok = after.1;
      future_ok = FutureOk-set_race f s.race s.executor r h.promise_ok h.future_ok;
      executor_ok = after.2;
      value_ok = after.3;
      executed = h.executed ∙ before.1 ∙ sym after.4;
      owners = h.owners;
      deleted = h.deleted;
    }
Promise-Inv {s} f (lose {r} {old}) h =
    let before = Unset-value s.race (swapping r old) f s.value h.promise_ok in
    let after = Unset-value s.race (swapping r s.word) f s.value h.promise_ok in
    record {
      word = h.word;
      promise_ok = h.promise_ok;
      future_ok = h.future_ok;
      executor_ok = h.executor_ok;
      value_ok = after.0.1 (before.0.0 h.value_ok);
      executed = h.executed ∙ before.1 ∙ sym after.1;
      owners = h.owners;
      deleted = h.deleted;
    }
Promise-Inv {s} f (run {r} {old} ne) h =
    let (nothing, ran, value) =
      set-ran s.race f r old s.value s.executor ne h.promise_ok h.executor_ok h.value_ok in
    record {
      word = h.word;
      promise_ok = tt;
      future_ok = h.future_ok;
      executor_ok = h.executor_ok;
      value_ok = value;
      executed =
          ap (λ ts. ts ++ record { callback = old; outcome = s.value; executor = s.executor } ∷ [])
            (h.executed ∙ nothing)
          ∙ ran;
      owners = h.owners;
      deleted = h.deleted;
    }
Promise-Inv {s} f (notify {r} {old} e) h =
    let (same, value) = set-notified s.race f r old s.value e h.promise_ok h.value_ok in
    record {
      word = h.word;
      promise_ok = tt;
      future_ok = h.future_ok;
      executor_ok = h.executor_ok;
      value_ok = value;
      executed = h.executed ∙ same;
      owners = h.owners;
      deleted = h.deleted;
    }
Promise-Inv {s} f abandon h =
    let before = Unset-value s.race fresh f s.value h.promise_ok in
    let after = Unset-value s.race dropping f s.value h.promise_ok in
    record {
      word = h.word;
      promise_ok = tt;
      future_ok = h.future_ok;
      executor_ok = h.executor_ok;
      value_ok = after.0.1 tt;
      executed = h.executed ∙ before.1 ∙ sym after.1;
      owners = h.owners;
      deleted = h.deleted;
    }
Promise-Inv {s} f drop_promise h =
    let (same, value) = promise-dropped s.race f s.value h.value_ok in
    record {
      word = h.word;
      promise_ok = tt;
      future_ok = h.future_ok;
      executor_ok = h.executor_ok;
      value_ok = value;
      executed = h.executed ∙ same;
      owners = omega (arith, h.owners);
      deleted = ground (arith, h.owners, h.deleted);
    }
