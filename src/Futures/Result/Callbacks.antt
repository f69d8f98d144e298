-- ===== src/Futures/Result/Callbacks.antt =====
-- futures/callbacks: what chains of callbacks do with values and exceptions.
use concurrency_library.Common.{◌≡◌, ◌≢◌, refl, ap, true, false, Option, none, some, if◌then◌else◌}
use concurrency_library.Futures.Result.{
  Exception, Result, Call, returned, thrown, fault, is_some, has_exception, ready, set_value,
  set_exception, fresh, value_or_throw, try_set, call_with, then_invoke, recover_invoke,
}

false-ne : false ≢ true
false-ne = cc

none-ne {ℓ} : {A : Type ℓ} (a : A) → none ≢ some a
none-ne a = cc

some-inj {ℓ} : {A : Type ℓ} (a b : A) → some a ≡ some b → a ≡ b
some-inj a b e = cc

-- The functor returns or throws.
abbrev pub Ends {ℓ} : {T : Type ℓ} → Call T → Type 0
Ends (returned t) = Unit {0}
Ends (thrown e) = Unit {0}
Ends fault = ⊥

-- The result that stands for how a call ended.
abbrev pub result_of {ℓ} : {T : Type ℓ} → Call T → Result T
result_of (returned t) = set_value fresh t
result_of (thrown e) = set_exception fresh (some e)
result_of fault = fresh

try_set_lem {ℓ} :
    {T : Type ℓ} (c : Call T)
    → Ends c
    → (try_set c ≡ some (result_of c)) × (ready (result_of c) ≡ true)
unfolding try_set
try_set_lem (returned t) e = (refl, refl)
try_set_lem (thrown e') e = (refl, refl)
try_set_lem fault e = absurd e

-- If a result has a value or an exception, and not both, and the functor returns or throws: `Then`
-- sets its promise to a result that again has one of the two; an exception is passed on, and a
-- value gives what the functor returns or throws on it.
pub then_invoke-ready {ℓ κ} :
    {T : Type ℓ} {U : Type κ} (f : T → Call U) (r : Result T)
    → ready r ≡ true
    → ((t : T) → Ends (f t))
    → (r' : Result U) × (then_invoke f r ≡ some r')
      × (ready r' ≡ true)
      × ((e : Exception) → r.exception ≡ some e → r' ≡ set_exception fresh (some e))
      × ((t : T) → r.value ≡ some t → r' ≡ result_of (f t))
unfolding then_invoke value_or_throw call_with
then_invoke-ready {T} {U} f r ok ends = go r.value r.exception ok
  where
    go :
        (v : Option T) (x : Option Exception)
        → ready (record { value = v; exception = x }) ≡ true
        → (r' : Result U) × (then_invoke f (record { value = v; exception = x }) ≡ some r')
          × (ready r' ≡ true)
          × ((e : Exception) → x ≡ some e → r' ≡ set_exception fresh (some e))
          × ((t : T) → v ≡ some t → r' ≡ result_of (f t))
    go none none ok = absurd (false-ne ok)
    go (some t) (some e) ok = absurd (false-ne ok)
    go none (some e) ok = (
      set_exception fresh (some e),
      refl,
      refl,
      (λ e' h. rw h refl),
      (λ t h. absurd (none-ne t h)),
    )
    go (some t) none ok =
        let set = try_set_lem (f t) (ends t) in
        (
          result_of (f t),
          set.0,
          set.1,
          (λ e h. absurd (none-ne e h)),
          (λ t' h. ap (λ t. result_of (f t)) (some-inj t t' h)),
        )

-- If a result has a value or an exception, and not both, and the first functor returns or throws:
-- `Then` of two functors in a row sets the last promise as one `Then` of the functor that runs them
-- one after the other.
pub then_invoke_compose {ℓ κ μ} :
    {T : Type ℓ} {U : Type κ} {V : Type μ} (f : T → Call U) (g : U → Call V) (r : Result T)
    → ready r ≡ true
    → ((t : T) → Ends (f t))
    → (r' : Result U) × (then_invoke f r ≡ some r')
      × (then_invoke g r' ≡ then_invoke (λ t. call_with (f t) g) r)
unfolding then_invoke value_or_throw call_with
then_invoke_compose {T} {U} {V} f g r ok ends = go r.value r.exception ok
  where
    chain :
        (c : Call U)
        → Ends c
        → (r' : Result U) × (try_set c ≡ some r') × (then_invoke g r' ≡ try_set (call_with c g))
    chain (returned u) e = (result_of (returned u), (try_set_lem (returned u) tt).0, refl)
    chain (thrown x) e = (result_of {T = U} (thrown x), (try_set_lem {T = U} (thrown x) tt).0, refl)
    chain fault e = absurd e

    go :
        (v : Option T) (x : Option Exception)
        → ready (record { value = v; exception = x }) ≡ true
        → (r' : Result U) × (then_invoke f (record { value = v; exception = x }) ≡ some r')
          × (then_invoke g r'
              ≡ then_invoke (λ t. call_with (f t) g) (record { value = v; exception = x }))
    go none none ok = absurd (false-ne ok)
    go (some t) (some e) ok = absurd (false-ne ok)
    go none (some e) ok = chain (thrown e) tt
    go (some t) none ok = chain (f t) (ends t)

recover_invoke_lem {ℓ} :
    {T : Type ℓ} (f : Option Exception → Call T) (r : Result T)
    → recover_invoke f r ≡ (if has_exception r then try_set (f none) else some r)
unfolding recover_invoke
recover_invoke_lem {T} f r = go r.value r.exception
  where
    go :
        (v : Option T) (x : Option Exception)
        → recover_invoke f (record { value = v; exception = x })
          ≡ (if is_some x then try_set (f none) else some (record { value = v; exception = x }))
    go v none = refl
    go v (some e) = refl

-- For results that have a value or an exception, and not both: `Recover` passes a value on, and for
-- an exception what it sets does not depend on which exception it was.
pub recover_invoke_blind {ℓ} :
    {T : Type ℓ} (f : Option Exception → Call T) (r r' : Result T)
    → ready r ≡ true
    → ready r' ≡ true
    → (has_exception r ≡ false → recover_invoke f r ≡ some r)
      × (has_exception r ≡ true
          → has_exception r' ≡ true
          → recover_invoke f r ≡ recover_invoke f r')
recover_invoke_blind f r r' ok ok' = (
  (λ e. rw (recover_invoke_lem f r, e) refl),
  (λ e e'. rw (recover_invoke_lem f r, recover_invoke_lem f r', e, e') refl),
)
