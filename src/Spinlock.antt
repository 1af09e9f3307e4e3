-- ===== src/Spinlock.antt =====
-- The spinlock of kernel/core/spinlock.c on several processors. A step is one access that the other
-- processors can see, with the MOV and the CBNZ around it, the change of a processor's mask, or, from
-- `inside` on, the call of `spin_unlock_with_mask`, which may come at any time: steps are not counted
-- as instructions. The load-exclusive marks the processor's monitor, and a store-exclusive succeeds
-- while the mark stands and clears the marks of all.
pub mod Exclusion
use kernel_fuzzing.Base.{ℕ, Bool, true, false, List, [], ◌∷◌, update, ◌==◌, if◌then◌else◌}

-- Where a processor is: before `spin_lock_with_mask`; at LDAXR or STLXR of `spin_lock`; behind it; at
-- LDAXR or STLXR of `spin_unlock`; at `unmask_interrupts`.
pub data Place : Type 0 where
  outside lock_load lock_store inside unlock_load unlock_store unmasking : Place

-- The word `lock->lock`, and for each processor its place, its monitor and whether its interrupts
-- are masked.
pub record System : Type 0 where
  pub lock : ℕ
  pub place : ℕ → Place
  pub monitor : ℕ → Bool
  pub masked : ℕ → Bool

abbrev pub at : System → ℕ → Place → System
at s c p = record s { place = update s.place c p }

-- STLXR: the result is 0, so the loop ends at `p`, or it goes back to `again`.
unfoldable pub store_exclusive : System → (c value : ℕ) → (p again : Place) → System
store_exclusive s c value p again =
    if s.monitor c
    then record s { lock = value; place = update s.place c p; monitor = λ d. false }
    else at s c again

unfoldable pub load_exclusive : System → ℕ → Place → System
load_exclusive s c p = record s { place = update s.place c p; monitor = update s.monitor c true }

unfoldable pub step_at : Place → System → ℕ → System
step_at outside s c = record s {
  place = update s.place c lock_load;
  masked = update s.masked c true;
}
step_at lock_load s c = load_exclusive s c (if s.lock == 0 then lock_store else lock_load)
step_at lock_store s c = store_exclusive s c 1 inside lock_load
step_at inside s c = at s c unlock_load
step_at unlock_load s c = load_exclusive s c unlock_store
step_at unlock_store s c = store_exclusive s c 0 unmasking unlock_load
step_at unmasking s c = record s {
  place = update s.place c outside;
  masked = update s.masked c false;
}

-- The next step of processor `c`.
unfoldable pub step : System → ℕ → System
step s c = step_at (s.place c) s c

-- The processors take turns in any order.
unfoldable pub run : System → List ℕ → System
run s [] = s
run s (c ∷ cs) = run (step s c) cs

abbrev pub unlocked : System
unlocked = record { lock = 0; place = λ c. outside; monitor = λ c. false; masked = λ c. false }

-- The processor is between the two calls, or still in the second one before its store.
abbrev pub holds : Place → Bool
holds inside = true
holds unlock_load = true
holds unlock_store = true
holds _ = false
