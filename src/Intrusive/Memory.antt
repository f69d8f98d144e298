-- ===== src/Intrusive/Memory.antt =====
-- intrusive/structures/singly_directed_list_node.hpp and bidirectional_list_node.hpp: the links of
-- all nodes, by address, and commands that read and write them. A command is a fault (`none`) if
-- it goes through the null pointer.
pub mod Chain
use concurrency_library.Common.{
  ℕ, Option, none, some, ◌==◌, if◌then◌else◌, update, ◌≡◌, false, arith, ◌≢◌, ==_of_ne,
}

abbrev pub Ptr : Type 0
Ptr = ℕ

abbrev pub null : Ptr
null = 0

-- The fields `next` and `prev` of the node at each address.
pub record Memory : Type 0 where
  pub next : Ptr → Ptr
  pub prev : Ptr → Ptr

abbrev pub Cmd : Type 0 → Type 0
Cmd A = Memory → Option (A × Memory)

abbrev pub pure : {A : Type 0} → A → Cmd A
pure a m = some (a, m)

abbrev pub and_then : {A B : Type 0} → Option (A × Memory) → (A → Cmd B) → Option (B × Memory)
and_then none k = none
and_then (some (a, m)) k = k a m

infixl 5 ◌>>=◌ ◌>>◌
abbrev pub ◌>>=◌ : {A B : Type 0} → Cmd A → (A → Cmd B) → Cmd B
c >>= k = λ m. and_then (c m) k

abbrev pub ◌>>◌ : {B : Type 0} → Cmd (Unit {0}) → Cmd B → Cmd B
c >> k = c >>= λ _. k

-- `p->next` and `p->prev`
unfoldable pub load_next : Ptr → Cmd Ptr
load_next p m = if p == null then none else some (m.next p, m)

unfoldable pub load_prev : Ptr → Cmd Ptr
load_prev p m = if p == null then none else some (m.prev p, m)

-- `p->next = q` and `p->prev = q`
unfoldable pub store_next : Ptr → Ptr → Cmd (Unit {0})
store_next p q m = if p == null then none else some (tt, record m { next = update m.next p q })

unfoldable pub store_prev : Ptr → Ptr → Cmd (Unit {0})
store_prev p q m = if p == null then none else some (tt, record m { prev = update m.prev p q })

-- The run makes no fault, and its result and memory satisfy `P`.
abbrev pub Returns : {A : Type 0} → (A → Memory → Type 0) → Option (A × Memory) → Type 0
Returns P none = ⊥
Returns P (some (a, m)) = P a m

pub Returns-bind :
    {A B : Type 0} (P : A → Memory → Type 0) (Q : B → Memory → Type 0) (r : Option (A × Memory))
    (k : A → Cmd B)
    → Returns P r
    → ((a : A) (m : Memory) → P a m → Returns Q (k a m))
    → Returns Q (and_then r k)
Returns-bind P Q none k h next = h
Returns-bind P Q (some (a, m)) k h next = next a m h

module _ (p : Ptr) (ne : p ≢ null) (m : Memory) where
  pub load_next_lem : load_next p m ≡ some (m.next p, m)
  unfolding load_next
  load_next_lem = rw (==_of_ne p null ne)

  pub load_prev_lem : load_prev p m ≡ some (m.prev p, m)
  unfolding load_prev
  load_prev_lem = rw (==_of_ne p null ne)

  pub store_next_lem :
      (q : Ptr) → store_next p q m ≡ some (tt, record m { next = update m.next p q })
  unfolding store_next
  store_next_lem q = rw (==_of_ne p null ne)

  pub store_prev_lem :
      (q : Ptr) → store_prev p q m ≡ some (tt, record m { prev = update m.prev p q })
  unfolding store_prev
  store_prev_lem q = rw (==_of_ne p null ne)
