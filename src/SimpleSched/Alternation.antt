-- ===== src/SimpleSched/Alternation.antt =====
-- Many ticks in a row in the kernel of kernel-simple-scheduler/.
use kernel_fuzzing.Base.{ℕ, zero, suc, ◌+◌, ◌*◌, ◌≡◌, ◌∙◌, refl, arith}
use kernel_fuzzing.SimpleSched.{Board, schedule_on_tick}
use kernel_fuzzing.SimpleSched.Turns.{Pair, tick_within, tick_expired}

-- The board after `n` ticks; the tick number `i` interrupts the context `frame i`, and reads
-- `iar i` from the controller.
abbrev pub ticks : (iar frame : ℕ → ℕ) → ℕ → Board → Board
ticks iar frame zero b = b
ticks iar frame (suc n) b = (schedule_on_tick (iar n) (frame n) (ticks iar frame n b)).1

-- The context that the tick number `n` goes on with.
abbrev pub resumed : (iar frame : ℕ → ℕ) → ℕ → Board → ℕ
resumed iar frame n b = (schedule_on_tick (iar n) (frame n) (ticks iar frame n b)).0

-- `x`, `y`, `x`, …
abbrev pub alternate : ℕ → (x y : ℕ) → ℕ
alternate zero x y = x
alternate (suc k) x y = alternate k y x

module _ (iar frame : ℕ → ℕ) (b : Board) where
  -- `x` has `left` ticks and `y` waits with the context `saved`.
  Halfway : (n x y left saved : ℕ) → Type 0
  Halfway n x y left saved =
      Pair (ticks iar frame n b).sched x y left
      × (((ticks iar frame n b).sched.tasks y).context ≡ saved)

  Halfway-slice :
      (x y saved m i left : ℕ)
      → i + left ≡ 9999
      → Halfway m x y 10000 saved
      → Halfway (i + m) x y (suc left) saved
  unfolding Halfway
  Halfway-slice x y saved m zero left e h =
      let start : 0 + m ≡ m = omega arith in
      let full : left ≡ 9999 = omega arith in rw (start, full) h
  Halfway-slice x y saved m (suc i) left e h =
      let last : suc i + m ≡ suc (i + m) = omega arith in
      let before = Halfway-slice x y saved m i (suc left) (omega arith) h in
      let after =
        tick_within (iar (i + m)) (frame (i + m)) x y (ticks iar frame (i + m) b) left before.0 in
      rw last (after.1, after.3 ∙ before.1)

  -- The last tick of the slice that begins after `m` ticks.
  Halfway-next :
      (x y saved m : ℕ)
      → Halfway m x y 10000 saved
      → (resumed iar frame (9999 + m) b ≡ saved) × Halfway (10000 + m) y x 10000 (frame (9999 + m))
  unfolding Halfway
  Halfway-next x y saved m h =
      let last : 10000 + m ≡ suc (9999 + m) = omega arith in
      let before = Halfway-slice x y saved m 9999 0 refl h in
      let after =
        tick_expired (iar (9999 + m)) (frame (9999 + m)) x y (ticks iar frame (9999 + m) b)
          before.0 in
      (after.0 ∙ before.1, rw last (after.1, after.2))

  -- What the task that waits after `k` slices has saved: its first context, or the one in which it
  -- was interrupted last.
  abbrev pub saved_after : (first k : ℕ) → ℕ
  saved_after first zero = first
  saved_after first (suc k) = frame (9999 + k * 10000)

  Halfway-alternate :
      (x y k : ℕ)
      → Halfway 0 x y 10000 (b.sched.tasks y).context
      → Halfway
          (k * 10000)
          (alternate k x y)
          (alternate k y x)
          10000
          (saved_after (b.sched.tasks y).context k)
  Halfway-alternate x y zero h = h
  Halfway-alternate x y (suc k) h =
      let more : suc k * 10000 ≡ 10000 + k * 10000 = omega arith in
      rw more (Halfway-next _ _ _ (k * 10000) (Halfway-alternate x y k h)).1

  -- Of two tasks, one running on a full slice, each is the running one in every second slice of
  -- 10000 ticks, and the tick that ends a slice goes on with the other task in the context in which
  -- that task was interrupted last, or its first one.
  pub ticks-alternate :
      (x y k : ℕ)
      → Pair b.sched x y 10000
      → Pair (ticks iar frame (k * 10000) b).sched (alternate k x y) (alternate k y x) 10000
        × (resumed iar frame (9999 + k * 10000) b ≡ saved_after (b.sched.tasks y).context k)
  unfolding Halfway
  ticks-alternate x y k p =
      let h = Halfway-alternate x y k (p, refl) in (h.0, (Halfway-next _ _ _ (k * 10000) h).0)
