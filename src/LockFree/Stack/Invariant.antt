-- ===== src/LockFree/Stack/Invariant.antt =====
-- lockfree/stack.hpp: the invariant of the stack: what the two counters of a node say about the
-- threads that view it, and the list that the nodes make.
use concurrency_library.Common.{
  ℕ, ◌+◌, ◌-◌, ◌%◌, ◌^◌, ◌≤◌, ◌<◌, ◌≡◌, ◌≢◌, refl, sym, subst, ◌∙◌, ap, ap₂, Bool, true, false,
  some, List, [], ◌∷◌, map, has, Distinct, ◌==◌, ==_iff, ==_refl, Bool-cases, inl, inr, ◌||◌, arith,
}
use concurrency_library.LockFree.CountedPtr.{get_pointer, get_count}
use concurrency_library.LockFree.Stack.{Node, Pc, reading, swapping, took, counting, Stack, replay}
use concurrency_library.LockFree.Stack.Roles.{Role, maker, viewer, popper, deleter, target, crowd}

-- The life of a node's memory: not in use, filled by a push, on the stack with that external count,
-- taken off with that external count, left to its viewers, and left to the thread that deletes it.
pub data Phase : Type 0 where
  free : Phase
  fresh : Phase
  stacked : ℕ → Phase
  removed : ℕ → Phase
  abandoned : Phase
  doomed : Phase

abbrev pub in_use : Phase → Bool
in_use free = false
in_use _ = true

abbrev pub on_stack : Phase → Bool
on_stack (stacked c) = true
on_stack _ = false

-- How many threads of each role a node has, by its phase.
pub record Roles (m v p d : ℕ) (crew : Role → ℕ) : Type 0 where
  pub makes : crew maker ≡ m
  pub views : crew viewer ≡ v
  pub pops : crew popper ≡ p
  pub deletes : crew deleter ≡ d

-- While a node is on the stack, its external count is one more than the threads that view it and
-- those that have left; the internal count holds the latter below zero.
abbrev pub Account : ℕ → Phase → ℕ → (Role → ℕ) → Type 0
Account a free count crew = Roles 0 0 0 0 crew
Account a fresh count crew = Roles 1 0 0 0 crew × (count ≡ 0) × (0 < a) × (a < 2 ^ 48)
Account a (stacked c) count crew =
    Roles 0 (crew viewer) 0 0 crew
    × (crew viewer + 1 ≤ c)
    × (c < 2 ^ 16)
    × (count < 2 ^ 64)
    × ((count + (c - 1 - crew viewer)) % 2 ^ 64 ≡ 0)
Account a (removed c) count crew =
    Roles 0 (crew viewer) 1 0 crew
    × (crew viewer + 2 ≤ c)
    × (c < 2 ^ 16)
    × (count < 2 ^ 64)
    × ((count + (c - 2 - crew viewer)) % 2 ^ 64 ≡ 0)
Account a abandoned count crew =
    Roles 0 (crew viewer) 0 0 crew
    × (count ≡ crew viewer)
    × (0 < crew viewer)
    × (crew viewer < 2 ^ 16)
Account a doomed count crew = Roles 0 0 0 1 crew

-- What a thread knows of its node.
abbrev pub Fit : Pc → Phase → Node → Type 0
Fit (reading old) ph nd = get_pointer old ≢ 0
Fit (swapping old w) ph nd = (get_pointer old ≢ 0) × (on_stack ph ≡ true → w ≡ nd.next)
Fit (took old owed) ph nd = (ph ≡ removed (get_count old)) × (owed ≡ nd.value)
Fit (counting old owed result) ph nd = (ph ≡ removed (get_count old)) × (result ≡ owed)
Fit _ ph nd = Unit {0}

-- The word `w` leads to the nodes `ps`, and each link carries the external count of its node.
abbrev pub Chain : (ℕ → Node) → (ℕ → Phase) → ℕ → List ℕ → Type 0
Chain nodes phase w [] = get_pointer w ≡ 0
Chain nodes phase w (p ∷ ps) =
    (get_pointer w ≡ p)
    × (p ≢ 0)
    × (phase p ≡ stacked (get_count w))
    × Chain nodes phase (nodes p).next ps

abbrev pub values : (ℕ → Node) → List ℕ → List ℕ
values nodes ps = map (λ p. (nodes p).value) ps

pub record Inv (n : ℕ) (s : Stack) (pc : ℕ → Pc) : Type 0 where
  pub phase : ℕ → Phase
  pub stack : List ℕ
  pub chain : Chain s.nodes phase s.head stack
  pub distinct : Distinct stack
  pub account : (p : ℕ) → Account p (phase p) (s.nodes p).internal_count (λ r. crowd n pc r p)
  pub use_of : (p : ℕ) → s.allocated p ≡ in_use (phase p)
  pub fits : (j : ℕ) → j < n → Fit (pc j) (phase (target (pc j))) (s.nodes (target (pc j)))
  pub replayed : replay s.events ≡ some (values s.nodes stack)

-- A node of the list is on the stack.
pub Chain-has :
    (nodes : ℕ → Node) (phase : ℕ → Phase) (w q : ℕ) (ps : List ℕ)
    → Chain nodes phase w ps
    → has q ps ≡ true
    → on_stack (phase q) ≡ true
Chain-has nodes phase w q [] h e = absurd (false-ne e)
  where
    false-ne : false ≢ true
    false-ne = cc
Chain-has nodes phase w q (p ∷ ps) h e = elim (Bool-cases (q == p)) [
  | inl same ↦ rw ((==_iff q p).0 same) (ap on_stack h.2)
  | inr other ↦ Chain-has nodes phase (nodes p).next q ps h.3 (behind other)
]
  where
    behind : (q == p) ≡ false → has q ps ≡ true
    behind o = ground (arith, o, e)

-- The list stays where its nodes keep their links, phases and values.
pub Chain-kept :
    (nodes nodes' : ℕ → Node) (phase phase' : ℕ → Phase) (w : ℕ) (ps : List ℕ)
    → ((q : ℕ)
        → has q ps ≡ true
        → ((nodes' q).next ≡ (nodes q).next)
          × ((nodes' q).value ≡ (nodes q).value)
          × (phase' q ≡ phase q))
    → Chain nodes phase w ps
    → Chain nodes' phase' w ps × (values nodes' ps ≡ values nodes ps)
Chain-kept nodes nodes' phase phase' w [] agree h = (h, refl)
Chain-kept nodes nodes' phase phase' w (p ∷ ps) agree h =
    let rest =
      Chain-kept nodes nodes' phase phase' (nodes p).next ps
        (λ q e. agree q (rw e (or_true (q == p)))) h.3 in
    (
      (h.0, h.1, now.2 ∙ h.2, subst (λ v. Chain nodes' phase' v ps) (sym now.0) rest.0),
      ap₂ ◌∷◌ now.1 rest.1,
    )
  where
    or_true : (b : Bool) → (b || true) ≡ true
    or_true b = ground arith

    now :
        ((nodes' p).next ≡ (nodes p).next)
        × ((nodes' p).value ≡ (nodes p).value)
        × (phase' p ≡ phase p)
    now = agree p (rw (==_refl p) refl)
