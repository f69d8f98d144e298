-- ===== src/Futures/Result/Tests.antt =====
-- Results of numbers.
use concurrency_library.Common.{ℕ, ◌+◌, ◌≡◌, refl, true, false, none, some}
use concurrency_library.Futures.Result.{
  Exception, Result, Call, returned, thrown, has_exception, call_with, then_invoke, recover_invoke,
}
use concurrency_library.Futures.Result.Callbacks.{then_invoke_compose, recover_invoke_blind}

abbrev five : Result ℕ
five = record { value = some 5; exception = none }

abbrev failed : Exception → Result ℕ
failed e = record { value = none; exception = some e }

abbrev next : ℕ → Call ℕ
next n = returned (n + 1)

abbrev throws : ℕ → Call ℕ
throws n = thrown n

composed :
    (r' : Result ℕ) × (then_invoke next five ≡ some r')
    × (then_invoke throws r' ≡ then_invoke (λ t. call_with (next t) throws) five)
composed = then_invoke_compose next throws five refl (λ t. tt)

blind :
    (has_exception (failed 3) ≡ false
      → recover_invoke (λ x. returned 0) (failed 3) ≡ some (failed 3))
    × (has_exception (failed 3) ≡ true
        → has_exception (failed 4) ≡ true
        → recover_invoke (λ x. returned 0) (failed 3) ≡ recover_invoke (λ x. returned 0) (failed 4))
blind = recover_invoke_blind (λ x. returned 0) (failed 3) (failed 4) refl refl
