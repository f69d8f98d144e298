-- ===== src/Intrusive/BidirectionalList/Ends.antt =====
-- intrusive/structures/list.hpp: pushing and popping at the two ends.
use concurrency_library.Common.{
  suc, ◌<◌, ◌≡◌, ◌≢◌, refl, sym, ◌∙◌, false, List, [], ◌∷◌, ◌++◌, length, last, has, Distinct-split,
  Distinct-append, Disjoint-one, last-append, length-append, has-last, last-ne, update, ==_of_ne,
  ==_of_eq, ==_refl, arith, word_mod, dec64,
}
use concurrency_library.Intrusive.Memory.{
  Ptr, null, Memory, Returns, load_next_lem, load_prev_lem, store_next_lem, store_prev_lem,
}
use concurrency_library.Intrusive.BidirectionalList.Segments.{
  last_from-last, Seg-split, Seg-join, Seg-next_update, Seg-prev_update, Seg-retarget, Seg-rebase,
  Seg-ne_null,
}
use concurrency_library.Intrusive.BidirectionalList.{
  BidirectionalList, push_front, push_back, try_pop_front, try_pop_back, Holds,
}

-- Pushing at the front of a list, empty or not, a node that is not null and not in it, with fewer
-- than 2^64 - 1 nodes in it, makes no fault and gives a list with that node in front.
pub push_front-cons :
    (m : Memory) (l : BidirectionalList) (xs : List Ptr) (node : Ptr)
    → Holds m l xs
    → node ≢ null
    → has node xs ≡ false
    → suc (length xs) < word_mod
    → Returns (λ l' g. Holds g l' (node ∷ xs)) (push_front l node m)
unfolding push_front
push_front-cons m l [] node h ne out small =
    rw (==_of_eq l.size 0 h.count, store_next_lem node ne m null, store_prev_lem node ne _ null)
      (record {
        links = (refl, ne, ground arith, ground arith);
        distinct = (refl, tt);
        back = refl;
        count = refl;
      })
push_front-cons m l (x ∷ xs) node h ne out small =
    rw
      (
        ==_of_ne l.size 0 (omega (arith, h.count)),
        store_next_lem node ne m l.head,
        store_prev_lem node ne _ null,
        h.links.0,
        store_prev_lem x h.links.1 _ node,
      )
      (let front = Seg-next_update m.next m.prev null l.head (x ∷ xs) null node x h.links out in
        let moved =
          Seg-prev_update (update m.next node x) m.prev null l.head (x ∷ xs) null node null front
            out in
        let s =
          Seg-rebase (update m.next node x) (update m.prev node null) null l.head x xs null node
            moved h.distinct.0 in
        record {
          links = (refl, ne, ground arith, (rw (==_refl node) refl, s.1, s.2, s.3));
          distinct = (out, h.distinct);
          back = h.back;
          count = omega (arith, h.count);
        })

-- Pushing at the back of a list that is not empty, with fewer than 2^64 - 1 nodes in it, a node
-- that is not null and not in it makes no fault and gives a list with that node at the back.
pub push_back-append :
    (m : Memory) (l : BidirectionalList) (x : Ptr) (xs : List Ptr) (node : Ptr)
    → Holds m l (x ∷ xs)
    → node ≢ null
    → has node (x ∷ xs) ≡ false
    → suc (suc (length xs)) < word_mod
    → Returns (λ l' g. Holds g l' ((x ∷ xs) ++ node ∷ [])) (push_back l node m)
unfolding push_back
push_back-append m l x xs node h ne out small =
    rw
      (
        ==_of_ne l.size 0 (omega (arith, h.count)),
        store_next_lem node ne m null,
        store_prev_lem node ne _ l.tail,
        h.back,
        store_next_lem (last (x ∷ xs))
            (Seg-ne_null m.next m.prev null l.head (x ∷ xs) null (last (x ∷ xs)) h.links
              (has-last x xs))
            _ node,
      )
      (record {
        links =
            Seg-join (update (update m.next node null) (last (x ∷ xs)) node)
              (update m.prev node (last (x ∷ xs))) null l.head (x ∷ xs) (node ∷ []) node null
              (Seg-retarget (update m.next node null) (update m.prev node (last (x ∷ xs))) null
                l.head x xs null node
                (Seg-prev_update (update m.next node null) m.prev null l.head (x ∷ xs) null node
                  (last (x ∷ xs))
                  (Seg-next_update m.next m.prev null l.head (x ∷ xs) null node null h.links out)
                  out)
                h.distinct)
              (
                refl,
                ne,
                rw (==_refl node) (sym (last_from-last null x xs)),
                ground (arith, last-ne node x xs),
              );
        distinct =
            Distinct-append (x ∷ xs) (node ∷ []) h.distinct (refl, tt)
              (Disjoint-one node (x ∷ xs) out);
        back = sym (last-append (x ∷ xs) node []);
        count = omega (arith, h.count, length-append xs (node ∷ []));
      })

abbrev pub PoppedFront : BidirectionalList → List Ptr → Ptr × BidirectionalList → Memory → Type 0
PoppedFront l [] (out, l') g = (out ≡ null) × (l' ≡ l)
PoppedFront l (x ∷ xs) (out, l') g = (out ≡ x) × Holds g l' xs

-- Popping at the front of a list of fewer than 2^64 nodes makes no fault: the empty list gives null
-- and stays, any other gives its first node and is then a list of the others.
pub try_pop_front-PoppedFront :
    (m : Memory) (l : BidirectionalList) (xs : List Ptr)
    → Holds m l xs
    → length xs < word_mod
    → Returns (PoppedFront l xs) (try_pop_front l m)
unfolding try_pop_front
try_pop_front-PoppedFront m l [] h small = rw (==_of_eq l.size 0 h.count) (refl, refl)
try_pop_front-PoppedFront m l (x ∷ []) h small =
    rw
      (
        ==_of_ne l.size 0 (omega (arith, h.count)),
        ==_of_eq (dec64 l.size) 0 (omega (arith, h.count)),
      )
      (
        h.links.0,
        record { links = refl; distinct = tt; back = refl; count = omega (arith, h.count) },
      )
try_pop_front-PoppedFront m l (x ∷ y ∷ xs) h small =
    rw
      (
        ==_of_ne l.size 0 (omega (arith, h.count)),
        ==_of_ne (dec64 l.size) 0 (omega (arith, h.count)),
        load_next_lem l.head (ground (arith, h.links)) m,
        h.links.0,
        h.links.3.0,
        store_prev_lem y h.links.3.1 m null,
      )
      (
        refl,
        record {
          links =
              (let s =
                  Seg-rebase m.next m.prev x (m.next x) y xs null null h.links.3 h.distinct.1.0 in
                (refl, s.1, s.2, s.3));
          distinct = h.distinct.1;
          back = h.back;
          count = omega (arith, h.count);
        },
      )

-- Popping at the back of a list that is not empty, of fewer than 2^64 nodes, makes no fault, gives
-- its last node and leaves a list of the others.
pub try_pop_back-append :
    (m : Memory) (l : BidirectionalList) (xs : List Ptr) (z : Ptr)
    → Holds m l (xs ++ z ∷ [])
    → suc (length xs) < word_mod
    → Returns (λ (out, l') g. (out ≡ z) × Holds g l' xs) (try_pop_back l m)
unfolding try_pop_back
try_pop_back-append m l [] z h small =
    rw
      (
        ==_of_ne l.size 0 (omega (arith, h.count)),
        ==_of_eq (dec64 l.size) 0 (omega (arith, h.count)),
      )
      (
        h.links.0,
        record { links = refl; distinct = tt; back = refl; count = omega (arith, h.count) },
      )
try_pop_back-append m l (x ∷ xs) z h small =
    let e : l.tail ≡ z = h.back ∙ last-append (x ∷ xs) z [] in
    let (mid, front, back) = Seg-split m.next m.prev null l.head (x ∷ xs) (z ∷ []) null h.links in
    let (dx, dz, apart) = Distinct-split (x ∷ xs) (z ∷ []) h.distinct in
    rw
      (
        ==_of_ne l.size 0 (omega (arith, h.count)),
        ==_of_ne (dec64 l.size) 0 (omega (arith, h.count, length-append xs (z ∷ []))),
        e,
        load_prev_lem z back.1 m,
        back.2,
        last_from-last null x xs,
        store_next_lem (last (x ∷ xs))
            (Seg-ne_null m.next m.prev null l.head (x ∷ xs) mid (last (x ∷ xs)) front
              (has-last x xs))
            m null,
      )
      (
        refl,
        record {
          links = Seg-retarget m.next m.prev null l.head x xs mid null front dx;
          distinct = dx;
          back = refl;
          count = omega (arith, h.count, length-append xs (z ∷ []));
        },
      )
