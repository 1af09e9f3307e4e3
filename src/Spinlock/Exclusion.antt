-- ===== src/Spinlock/Exclusion.antt =====
-- Mutual exclusion by the spinlock of kernel/core/spinlock.c.
use kernel_fuzzing.Base.{ℕ, ◌≡◌, ◌≢◌, refl, Bool, true, false, List, [], ◌∷◌, arith, update}
use kernel_fuzzing.Spinlock.{
  Place, outside, lock_load, lock_store, inside, unlock_load, unlock_store, unmasking, System,
  store_exclusive, load_exclusive, step_at, step, run, unlocked, holds,
}

abbrev pub is_outside : Place → Bool
is_outside outside = true
is_outside _ = false

abbrev is_lock_store : Place → Bool
is_lock_store lock_store = true
is_lock_store _ = false

-- A holder has the lock to itself; a processor whose store will succeed has seen the lock free and
-- it is free still; a processor in the two calls or between them has its interrupts masked.
record IsExclusive (s : System) : Type 0 where
  held : (c : ℕ) → holds (s.place c) ≡ true → s.lock ≡ 1
  alone : (c d : ℕ) → holds (s.place c) ≡ true → holds (s.place d) ≡ true → c ≡ d
  seen : (c : ℕ) → is_lock_store (s.place c) ≡ true → s.monitor c ≡ true → s.lock ≡ 0
  mask : (c : ℕ) → is_outside (s.place c) ≡ false → s.masked c ≡ true

holds-inside : (p : Place) → holds p ≡ true → is_outside p ≡ false
holds-inside outside h = cc
holds-inside lock_load h = refl
holds-inside lock_store h = refl
holds-inside inside h = refl
holds-inside unlock_load h = refl
holds-inside unlock_store h = refl
holds-inside unmasking h = refl

step_at-IsExclusive :
    (p : Place) (s : System) (c : ℕ) → s.place c ≡ p → IsExclusive s → IsExclusive (step_at p s c)
unfolding step_at store_exclusive load_exclusive update
step_at-IsExclusive p s c e h = record {
  held = λ a. ground (arith, h.held a, h.alone a c, h.seen c);
  alone = λ a b. ground (arith, h.alone a b, h.held a, h.held b, h.seen c);
  seen = λ a. ground (arith, h.seen a, h.held c);
  mask = λ a. ground (arith, h.mask a, h.mask c);
}

step-IsExclusive : (s : System) (c : ℕ) → IsExclusive s → IsExclusive (step s c)
unfolding step
step-IsExclusive s c h = step_at-IsExclusive (s.place c) s c refl h

run-IsExclusive : (s : System) (cs : List ℕ) → IsExclusive s → IsExclusive (run s cs)
unfolding run
run-IsExclusive s [] h = h
run-IsExclusive s (c ∷ cs) h = run-IsExclusive (step s c) cs (step-IsExclusive s c h)

unlocked-IsExclusive : IsExclusive unlocked
unlocked-IsExclusive = record {
  held = λ c e. cc;
  alone = λ c d e f. cc;
  seen = λ c e f. cc;
  mask = λ c e. cc;
}

-- However the processors take turns, from the unlocked state on, while one of them is between
-- `spin_lock_with_mask` and `spin_unlock_with_mask` no other is.
pub run_exclusive :
    (cs : List ℕ) (c d : ℕ)
    → holds ((run unlocked cs).place c) ≡ true
    → d ≢ c
    → holds ((run unlocked cs).place d) ≡ false
run_exclusive cs c d h n =
    ground (arith, (run-IsExclusive unlocked cs unlocked-IsExclusive).alone c d)

-- However the processors take turns, a processor that holds the lock has its interrupts masked and
-- the word says locked.
pub run_masked :
    (cs : List ℕ) (c : ℕ)
    → holds ((run unlocked cs).place c) ≡ true
    → ((run unlocked cs).masked c ≡ true) × ((run unlocked cs).lock ≡ 1)
run_masked cs c h =
    let inv = run-IsExclusive unlocked cs unlocked-IsExclusive in
    (inv.mask c (holds-inside _ h), inv.held c h)
