-- ===== src/LockFree/Stack/Roles.antt =====
-- lockfree/stack.hpp: what the threads do with a node, counted.
use concurrency_library.Common.{
  ℕ, ◌+◌, ◌<◌, ◌≡◌, ◌≢◌, refl, ◌==◌, if◌then◌else◌, ==_of_eq, ==_of_ne, arith, weigh, weigh-update,
  ◌⊎◌, inl, inr, update,
}
use concurrency_library.LockFree.CountedPtr.{get_pointer}
use concurrency_library.LockFree.Stack.{
  Pc, idle, making, pushing, increasing, reading, swapping, took, counting, leaving, deleting,
  dropping,
}

-- A thread that fills a new node, one that has counted itself in as a viewer of a node, one that has
-- taken a node off the stack, and one that is about to delete a node.
pub data Role : Type 0 where
  maker : Role
  viewer : Role
  popper : Role
  deleter : Role
  bystander : Role

abbrev pub role : Pc → Role
role idle = bystander
role (making p) = maker
role (pushing p) = maker
role (increasing old) = bystander
role (reading old) = viewer
role (swapping old w) = viewer
role (took old owed) = popper
role (counting old owed result) = popper
role (leaving p old) = viewer
role (deleting p) = deleter
role (dropping p old) = deleter

-- The node of that role.
abbrev pub target : Pc → ℕ
target idle = 0
target (making p) = p
target (pushing p) = p
target (increasing old) = 0
target (reading old) = get_pointer old
target (swapping old w) = get_pointer old
target (took old owed) = get_pointer old
target (counting old owed result) = get_pointer old
target (leaving p old) = p
target (deleting p) = p
target (dropping p old) = p

abbrev pub is_role : Role → Role → ℕ
is_role maker maker = 1
is_role viewer viewer = 1
is_role popper popper = 1
is_role deleter deleter = 1
is_role _ _ = 0

abbrev pub plays : Role → ℕ → Pc → ℕ
plays r p pc = if target pc == p then is_role r (role pc) else 0

-- How many of `n` threads have role `r` at `p`.
abbrev pub crowd : ℕ → (ℕ → Pc) → Role → ℕ → ℕ
crowd n pc r p = weigh (plays r p) n pc

-- A thread that concerns no node but `p`.
abbrev pub About : ℕ → Pc → Type 0
About p pc = (target pc ≡ p) ⊎ (role pc ≡ bystander)

is_role-bystander : (r : Role) → is_role r bystander ≡ 0
is_role-bystander maker = refl
is_role-bystander viewer = refl
is_role-bystander popper = refl
is_role-bystander deleter = refl
is_role-bystander bystander = refl

pub plays-here : (r : Role) (p : ℕ) (pc : Pc) → About p pc → plays r p pc ≡ is_role r (role pc)
plays-here r p pc (inl e) = rw (==_of_eq (target pc) p e) refl
plays-here r p pc (inr e) = rw (e, is_role-bystander r) ground arith

pub plays-elsewhere : (r : Role) (p q : ℕ) (pc : Pc) → About p pc → p ≢ q → plays r q pc ≡ 0
plays-elsewhere r p q pc (inl e) ne = rw (==_of_ne (target pc) q (rw e ne)) refl
plays-elsewhere r p q pc (inr e) ne = rw (e, is_role-bystander r) ground arith

module _ (n i : ℕ) (pc : ℕ → Pc) (b : Pc) (lt : i < n) (r : Role) (p : ℕ) where
  pub crowd-here :
      About p (pc i)
      → About p b
      → crowd n (update pc i b) r p + is_role r (role (pc i)) ≡ crowd n pc r p + is_role r (role b)
  crowd-here x y =
      omega
        (arith, weigh-update (plays r p) n i pc b lt, plays-here r p (pc i) x, plays-here r p b y)

  pub crowd-elsewhere :
      (q : ℕ) → About p (pc i) → About p b → p ≢ q → crowd n (update pc i b) r q ≡ crowd n pc r q
  crowd-elsewhere q x y ne = omega (
    arith,
    weigh-update (plays r q) n i pc b lt,
    plays-elsewhere r p q (pc i) x ne,
    plays-elsewhere r p q b y ne,
  )
