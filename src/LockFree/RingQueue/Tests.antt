-- ===== src/LockFree/RingQueue/Tests.antt =====
-- One thread uses a ring of capacity 2.
use concurrency_library.Common.{◌≡◌, refl, [], ◌∷◌, arith, update}
use concurrency_library.LockFree.RingQueue.{RingQueue, grab, IsValid, contents}
use concurrency_library.LockFree.RingQueue.Contents.{grab_refines}

-- Items 8 and 9, round the end of the buffer.
abbrev wrapped : RingQueue
wrapped = record { buffer = update (λ _. 8) 0 9; head = 5; tail = 7 }

wrapped-IsValid : IsValid 2 wrapped
wrapped-IsValid = record { order = omega arith; room = omega arith; small = omega arith }

contents-wrapped : contents 2 wrapped ≡ 8 ∷ 9 ∷ []
contents-wrapped = refl

grabs_one :
    let (items, q) = grab 2 wrapped 1 in (items ≡ 8 ∷ []) × (contents 2 q ≡ 9 ∷ []) × IsValid 2 q
grabs_one = grab_refines 2 wrapped wrapped-IsValid 1
