-- ===== src/LockFree/Stack/Accounts.antt =====
-- lockfree/stack.hpp: how each step changes the counters of a node and the threads that it has.
use concurrency_library.Common.{
  ℕ, ◌+◌, ◌<◌, ◌^◌, ◌≡◌, ◌≢◌, refl, sym, ◌∙◌, true, ◌⊎◌, inl, inr, arith, dec64, add64, sub64,
}
use concurrency_library.LockFree.Stack.{
  Node, Pc, idle, making, pushing, increasing, reading, swapping, took, counting, leaving, deleting,
  dropping,
}
use concurrency_library.LockFree.Stack.Roles.{
  Role, maker, viewer, popper, deleter, bystander, role, is_role,
}
use concurrency_library.LockFree.Stack.Invariant.{
  Phase, free, fresh, stacked, removed, abandoned, doomed, on_stack, Account, Fit,
}

module _ (a count : ℕ) (crew : Role → ℕ) where
  pub maker-fresh : (ph : Phase) → Account a ph count crew → 0 < crew maker → ph ≡ fresh
  maker-fresh free h lt = absurd (omega (arith, h.makes, lt))
  maker-fresh fresh h lt = refl
  maker-fresh (stacked c) h lt = absurd (omega (arith, h.0.makes, lt))
  maker-fresh (removed c) h lt = absurd (omega (arith, h.0.makes, lt))
  maker-fresh abandoned h lt = absurd (omega (arith, h.0.makes, lt))
  maker-fresh doomed h lt = absurd (omega (arith, h.makes, lt))

  pub deleter-doomed : (ph : Phase) → Account a ph count crew → 0 < crew deleter → ph ≡ doomed
  deleter-doomed free h lt = absurd (omega (arith, h.deletes, lt))
  deleter-doomed fresh h lt = absurd (omega (arith, h.0.deletes, lt))
  deleter-doomed (stacked c) h lt = absurd (omega (arith, h.0.deletes, lt))
  deleter-doomed (removed c) h lt = absurd (omega (arith, h.0.deletes, lt))
  deleter-doomed abandoned h lt = absurd (omega (arith, h.0.deletes, lt))
  deleter-doomed doomed h lt = refl

-- A thread goes from role `x` to role `y` at the node.
module _ (a count : ℕ) (crew crew' : Role → ℕ) where
  abbrev pub Goes : Role → Role → Type 0
  Goes x y = (r : Role) → crew' r + is_role r x ≡ crew r + is_role r y

  pub Account-same :
      (ph : Phase) (x : Role) → Goes x x → Account a ph count crew → Account a ph count crew'
  Account-same free x g h = record {
    makes = omega (arith, h.makes, g maker);
    views = omega (arith, h.views, g viewer);
    pops = omega (arith, h.pops, g popper);
    deletes = omega (arith, h.deletes, g deleter);
  }
  Account-same fresh x g h = (
    record {
      makes = omega (arith, h.0.makes, g maker);
      views = omega (arith, h.0.views, g viewer);
      pops = omega (arith, h.0.pops, g popper);
      deletes = omega (arith, h.0.deletes, g deleter);
    },
    h.1,
    h.2,
    h.3,
  )
  Account-same (stacked c) x g h = (
    record {
      makes = omega (arith, h.0.makes, g maker);
      views = refl;
      pops = omega (arith, h.0.pops, g popper);
      deletes = omega (arith, h.0.deletes, g deleter);
    },
    omega (arith, h.1, g viewer),
    h.2,
    h.3,
    omega (arith, h.1, h.4, g viewer),
  )
  Account-same (removed c) x g h = (
    record {
      makes = omega (arith, h.0.makes, g maker);
      views = refl;
      pops = omega (arith, h.0.pops, g popper);
      deletes = omega (arith, h.0.deletes, g deleter);
    },
    omega (arith, h.1, g viewer),
    h.2,
    h.3,
    omega (arith, h.1, h.4, g viewer),
  )
  Account-same abandoned x g h = (
    record {
      makes = omega (arith, h.0.makes, g maker);
      views = refl;
      pops = omega (arith, h.0.pops, g popper);
      deletes = omega (arith, h.0.deletes, g deleter);
    },
    omega (arith, h.1, g viewer),
    omega (arith, h.2, g viewer),
    omega (arith, h.3, g viewer),
  )
  Account-same doomed x g h = record {
    makes = omega (arith, h.makes, g maker);
    views = omega (arith, h.views, g viewer);
    pops = omega (arith, h.pops, g popper);
    deletes = omega (arith, h.deletes, g deleter);
  }

  pub Account-allocate :
      Goes bystander maker
      → Account a free count crew
      → 0 < a
      → a < 2 ^ 48
      → Account a fresh 0 crew'
  Account-allocate g h lo hi = (
    record {
      makes = omega (arith, h.makes, g maker);
      views = omega (arith, h.views, g viewer);
      pops = omega (arith, h.pops, g popper);
      deletes = omega (arith, h.deletes, g deleter);
    },
    refl,
    lo,
    hi,
  )

  pub Account-push :
      Goes maker bystander → Account a fresh count crew → Account a (stacked 1) count crew'
  Account-push g h = (
    record {
      makes = omega (arith, h.0.makes, g maker);
      views = refl;
      pops = omega (arith, h.0.pops, g popper);
      deletes = omega (arith, h.0.deletes, g deleter);
    },
    omega (arith, h.0.views, g viewer),
    omega arith,
    omega (arith, h.1),
    omega (arith, h.0.views, g viewer, h.1),
  )

  pub Account-view :
      (c : ℕ)
      → Goes bystander viewer
      → Account a (stacked c) count crew
      → c + 1 < 2 ^ 16
      → Account a (stacked (c + 1)) count crew'
  Account-view c g h small = (
    record {
      makes = omega (arith, h.0.makes, g maker);
      views = refl;
      pops = omega (arith, h.0.pops, g popper);
      deletes = omega (arith, h.0.deletes, g deleter);
    },
    omega (arith, h.1, g viewer),
    small,
    h.3,
    omega (arith, h.1, h.4, g viewer),
  )

  pub Account-pop :
      (c : ℕ)
      → Goes viewer popper
      → Account a (stacked c) count crew
      → Account a (removed c) count crew'
  Account-pop c g h = (
    record {
      makes = omega (arith, h.0.makes, g maker);
      views = refl;
      pops = omega (arith, h.0.pops, g popper);
      deletes = omega (arith, h.0.deletes, g deleter);
    },
    omega (arith, h.1, g viewer),
    h.2,
    h.3,
    omega (arith, h.1, h.4, g viewer),
  )

  pub Account-count_last :
      (c : ℕ)
      → Goes popper deleter
      → Account a (removed c) count crew
      → count ≡ sub64 0 (sub64 c 2)
      → Account a doomed (add64 count (sub64 c 2)) crew'
  Account-count_last c g h e = record {
    makes = omega (arith, h.0.makes, g maker);
    views = omega (arith, g viewer, h.1, h.2, h.3, h.4, e);
    pops = omega (arith, h.0.pops, g popper);
    deletes = omega (arith, h.0.deletes, g deleter);
  }

  pub Account-count_more :
      (c : ℕ)
      → Goes popper bystander
      → Account a (removed c) count crew
      → count ≢ sub64 0 (sub64 c 2)
      → Account a abandoned (add64 count (sub64 c 2)) crew'
  Account-count_more c g h e = (
    record {
      makes = omega (arith, h.0.makes, g maker);
      views = refl;
      pops = omega (arith, h.0.pops, g popper);
      deletes = omega (arith, h.0.deletes, g deleter);
    },
    omega (arith, g viewer, h.1, h.2, h.3, h.4),
    omega (arith, g viewer, h.1, h.2, h.3, h.4, e),
    omega (arith, g viewer, h.1, h.2),
  )

  pub Account-free :
      Goes deleter bystander → Account a doomed count crew → Account a free count crew'
  Account-free g h = record {
    makes = omega (arith, h.makes, g maker);
    views = omega (arith, h.views, g viewer);
    pops = omega (arith, h.pops, g popper);
    deletes = omega (arith, h.deletes, g deleter);
  }

  -- A viewer leaves a node whose internal counter is not 1.
  pub Account-leave_more :
      (ph : Phase)
      → Goes viewer bystander
      → Account a ph count crew
      → count ≢ 1
      → Account a ph (dec64 count) crew'
  Account-leave_more free g h e = absurd (omega (arith, h.views, g viewer))
  Account-leave_more fresh g h e = absurd (omega (arith, h.0.views, g viewer))
  Account-leave_more doomed g h e = absurd (omega (arith, h.views, g viewer))
  Account-leave_more (stacked c) g h e = (
    record {
      makes = omega (arith, h.0.makes, g maker);
      views = refl;
      pops = omega (arith, h.0.pops, g popper);
      deletes = omega (arith, h.0.deletes, g deleter);
    },
    omega (arith, h.1, g viewer),
    h.2,
    omega arith,
    omega (arith, h.1, h.2, h.3, h.4, g viewer),
  )
  Account-leave_more (removed c) g h e = (
    record {
      makes = omega (arith, h.0.makes, g maker);
      views = refl;
      pops = omega (arith, h.0.pops, g popper);
      deletes = omega (arith, h.0.deletes, g deleter);
    },
    omega (arith, h.1, g viewer),
    h.2,
    omega arith,
    omega (arith, h.1, h.2, h.3, h.4, g viewer),
  )
  Account-leave_more abandoned g h e = (
    record {
      makes = omega (arith, h.0.makes, g maker);
      views = refl;
      pops = omega (arith, h.0.pops, g popper);
      deletes = omega (arith, h.0.deletes, g deleter);
    },
    omega (arith, h.1, h.2, h.3, g viewer),
    omega (arith, h.1, h.2, e, g viewer),
    omega (arith, h.3, g viewer),
  )

  -- One that finds 1 there is the last viewer of a node that its popper has left.
  pub Account-leave_last :
      (ph : Phase)
      → Goes viewer deleter
      → Account a ph count crew
      → count ≡ 1
      → (ph ≡ abandoned) × Account a doomed (dec64 count) crew'
  Account-leave_last free g h e = absurd (omega (arith, h.views, g viewer))
  Account-leave_last fresh g h e = absurd (omega (arith, h.0.views, g viewer))
  Account-leave_last doomed g h e = absurd (omega (arith, h.views, g viewer))
  Account-leave_last (stacked c) g h e = absurd (omega (arith, h.1, h.2, h.4, e, g viewer))
  Account-leave_last (removed c) g h e = absurd (omega (arith, h.1, h.2, h.4, e, g viewer))
  Account-leave_last abandoned g h e = (
    refl,
    record {
      makes = omega (arith, h.0.makes, g maker);
      views = omega (arith, h.1, e, g viewer);
      pops = omega (arith, h.0.pops, g popper);
      deletes = omega (arith, h.0.deletes, g deleter);
    },
  )

-- What a thread knows of its node survives the steps of the others.
pub Fit-kept :
    (b : Pc) (ph ph' : Phase) (nd nd' : Node)
    → (is_role popper (role b) ≡ 0) ⊎ ((ph' ≡ ph) × (nd'.value ≡ nd.value))
    → (is_role viewer (role b) ≡ 0)
      ⊎ ((on_stack ph' ≡ true → on_stack ph ≡ true) × (nd'.next ≡ nd.next))
    → Fit b ph nd
    → Fit b ph' nd'
Fit-kept idle ph ph' nd nd' x y h = tt
Fit-kept (making p) ph ph' nd nd' x y h = tt
Fit-kept (pushing p) ph ph' nd nd' x y h = tt
Fit-kept (increasing old) ph ph' nd nd' x y h = tt
Fit-kept (reading old) ph ph' nd nd' x y h = h
Fit-kept (swapping old w) ph ph' nd nd' x (inl no_viewer) h = absurd (omega (arith, no_viewer))
Fit-kept (swapping old w) ph ph' nd nd' x (inr same) h = (h.0, λ on. h.1 (same.0 on) ∙ sym same.1)
Fit-kept (took old owed) ph ph' nd nd' (inl no_popper) y h = absurd (omega (arith, no_popper))
Fit-kept (took old owed) ph ph' nd nd' (inr same) y h = (same.0 ∙ h.0, h.1 ∙ sym same.1)
Fit-kept (counting old owed result) ph ph' nd nd' (inl no_popper) y h =
    absurd (omega (arith, no_popper))
Fit-kept (counting old owed result) ph ph' nd nd' (inr same) y h = (same.0 ∙ h.0, h.1)
Fit-kept (leaving p old) ph ph' nd nd' x y h = tt
Fit-kept (deleting p) ph ph' nd nd' x y h = tt
Fit-kept (dropping p old) ph ph' nd nd' x y h = tt
