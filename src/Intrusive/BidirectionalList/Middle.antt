-- ===== src/Intrusive/BidirectionalList/Middle.antt =====
-- intrusive/structures/list.hpp: taking a node out of the list.
use concurrency_library.Common.{
  suc, ◌+◌, ◌<◌, ◌≡◌, refl, sym, ◌∙◌, List, [], ◌∷◌, ◌++◌, length, last, Distinct-split,
  Distinct-append, Disjoint-ne, Disjoint-ne_left, Disjoint-tail, last-append, length-append,
  has-last, last-ne, update, ==_of_ne, ==_of_eq, arith, word_mod, append-nil,
}
use concurrency_library.Intrusive.Memory.{
  Ptr, null, Memory, Returns, Returns-bind, load_next_lem, load_prev_lem, store_next_lem,
  store_prev_lem,
}
use concurrency_library.Intrusive.BidirectionalList.Segments.{
  last_from-last, Seg-split, Seg-join, Seg-next_update, Seg-prev_update, Seg-retarget, Seg-rebase,
  Seg-ne_null,
}
use concurrency_library.Intrusive.BidirectionalList.{
  BidirectionalList, try_pop_front, try_pop_back, unlink, Holds,
}
use concurrency_library.Intrusive.BidirectionalList.Ends.{
  PoppedFront, try_pop_front-PoppedFront, try_pop_back-append,
}

-- Unlinking any node of a list of fewer than 2^64 nodes, at an end or between, makes no fault and
-- leaves a list of the others in their order, linked in both directions.
pub unlink-append :
    (m : Memory) (l : BidirectionalList) (xs : List Ptr) (a : Ptr) (ys : List Ptr)
    → Holds m l (xs ++ a ∷ ys)
    → length xs + suc (length ys) < word_mod
    → Returns (λ l' g. Holds g l' (xs ++ ys)) (unlink l a m)
unfolding unlink
unlink-append m l [] a ys h small =
    rw (==_of_ne a null h.links.1, ==_of_eq a l.head (sym h.links.0))
      (Returns-bind (PoppedFront l (a ∷ ys)) (λ l' g. Holds g l' ys) (try_pop_front l m) _
        (try_pop_front-PoppedFront m l (a ∷ ys) h (omega arith)) (λ r g p. p.1))
unlink-append m l (x ∷ xs) a [] h small =
    let (mid, front, back) = Seg-split m.next m.prev null l.head (x ∷ xs) (a ∷ []) null h.links in
    let (dx, da, apart) = Distinct-split (x ∷ xs) (a ∷ []) h.distinct in
    rw
      (
        ==_of_ne a null back.1,
        ==_of_ne a l.head (ground (arith, h.links.0, apart.0)),
        ==_of_eq a l.tail (sym (h.back ∙ last-append (x ∷ xs) a [])),
        append-nil,
      )
      (Returns-bind (λ r g. (r.0 ≡ a) × Holds g r.1 (x ∷ xs)) (λ l' g. Holds g l' (x ∷ xs))
        (try_pop_back l m) _ (try_pop_back-append m l (x ∷ xs) a h (omega arith)) (λ r g p. p.1))
unlink-append m l (x ∷ xs) a (y ∷ ys) h small =
    let (mid, front, back) =
      Seg-split m.next m.prev null l.head (x ∷ xs) (a ∷ y ∷ ys) null h.links in
    let (dx, da, apart) = Distinct-split (x ∷ xs) (a ∷ y ∷ ys) h.distinct in
    rw
      (
        ==_of_ne a null back.1,
        ==_of_ne a l.head (ground (arith, h.links.0, apart.0)),
        ==_of_ne a l.tail (ground (arith, h.back, last-append (x ∷ xs) a (y ∷ ys), last-ne a y ys)),
        load_prev_lem a back.1 m,
        load_next_lem a back.1 m,
        back.2,
        back.3.0,
        last_from-last null x xs,
        store_next_lem (last (x ∷ xs))
            (Seg-ne_null m.next m.prev null l.head (x ∷ xs) mid (last (x ∷ xs)) front
              (has-last x xs))
            m y,
        store_prev_lem y back.3.1 _ (last (x ∷ xs)),
      )
      (record {
        links =
            Seg-join (update m.next (last (x ∷ xs)) y) (update m.prev y (last (x ∷ xs))) null l.head
              (x ∷ xs) (y ∷ ys) y null
              (Seg-prev_update (update m.next (last (x ∷ xs)) y) m.prev null l.head (x ∷ xs) y y
                (last (x ∷ xs)) (Seg-retarget m.next m.prev null l.head x xs mid y front dx)
                (Disjoint-ne_left y (x ∷ xs) (a ∷ y ∷ ys) apart (ground arith)))
              (let s =
                  Seg-next_update m.next (update m.prev y (last (x ∷ xs))) (last (x ∷ xs))
                    (m.next a) (y ∷ ys) null (last (x ∷ xs)) y
                    (Seg-rebase m.next m.prev a (m.next a) y ys null (last (x ∷ xs)) back.3 da.1.0)
                    (Disjoint-ne (last (x ∷ xs)) (x ∷ xs) (y ∷ ys)
                      (Disjoint-tail a (x ∷ xs) (y ∷ ys) apart) (has-last x xs)) in
                (refl, s.1, s.2 ∙ sym (last_from-last null x xs), s.3));
        distinct =
            Distinct-append (x ∷ xs) (y ∷ ys) dx da.1 (Disjoint-tail a (x ∷ xs) (y ∷ ys) apart);
        back = h.back ∙ last-append (x ∷ xs) a (y ∷ ys) ∙ sym (last-append (x ∷ xs) y ys);
        count = omega (arith, h.count, length-append xs (a ∷ y ∷ ys), length-append xs (y ∷ ys));
      })
