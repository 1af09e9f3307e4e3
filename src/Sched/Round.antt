-- ===== src/Sched/Round.antt =====
-- Many ticks in a row: round-robin scheduling by kernel/core/scheduler/sched.c.
use kernel_fuzzing.Base.{
  ℕ, zero, suc, ◌+◌, ◌*◌, ◌<◌, ◌≡◌, ◌∙◌, sym, ap, refl, subst, true, List, [], ◌∷◌, ◌++◌, arith,
  has, length, ℕ_discrete,
}
use mathlib.Core.List.{append-nil, append_assoc}
use kernel_fuzzing.Sched.{running, Sched, schedule_on_tick}
use kernel_fuzzing.Sched.Queue.{Queued}
use kernel_fuzzing.Sched.Tick.{schedule_on_tick_within, schedule_on_tick_expired}

-- The state after `n` ticks; the tick number `i` interrupts with the context `frame i`.
abbrev pub ticks : (frame : ℕ → ℕ) → ℕ → Sched → Sched
ticks frame zero s = s
ticks frame (suc n) s = (schedule_on_tick (frame n) (ticks frame n s)).1

-- The head of the list runs with `left` ticks of its slice, the others wait in this order.
abbrev pub Turn : ℕ → Sched → List ℕ → Type 0
Turn left s [] = ⊥
Turn left s (x ∷ waiting) = Queued s x waiting × ((s.tasks x).slice_left ≡ left)

abbrev pub rot : List ℕ → List ℕ
rot [] = []
rot (x ∷ xs) = xs ++ x ∷ []

abbrev pub rots : ℕ → List ℕ → List ℕ
rots zero xs = xs
rots (suc k) xs = rots k (rot xs)

rot-rots : (k : ℕ) (xs : List ℕ) → rot (rots k xs) ≡ rots k (rot xs)
rot-rots zero xs = refl
rot-rots (suc k) xs = rot-rots k (rot xs)

Turn-within :
    (s : Sched) (xs : List ℕ) (tf left : ℕ)
    → Turn (suc (suc left)) s xs
    → Turn (suc left) (schedule_on_tick tf s).1 xs
Turn-within s [] tf left h = h
Turn-within s (x ∷ xs) tf left h =
    let c = schedule_on_tick_within s x xs tf h.0 (ground (arith, h.1)) in
    (c.queued, ground (arith, c.counted, h.1))

Turn-expired :
    (s : Sched) (xs : List ℕ) (tf : ℕ) → Turn 1 s xs → Turn 10 (schedule_on_tick tf s).1 (rot xs)
Turn-expired s [] tf h = h
Turn-expired s (x ∷ []) tf h =
    let c = schedule_on_tick_expired s x [] tf h.0 (ground (arith, h.1)) in (c.queued, c.full)
Turn-expired s (x ∷ (y ∷ ys)) tf h =
    let c = schedule_on_tick_expired s x (y ∷ ys) tf h.0 (ground (arith, h.1)) in (c.queued, c.full)

module _ (frame : ℕ → ℕ) (s : Sched) where
  -- `i` ticks into a slice that begins after `m` ticks.
  Turn-slice :
      (xs : List ℕ) (m i left : ℕ)
      → i + left ≡ 9
      → Turn 10 (ticks frame m s) xs
      → Turn (suc left) (ticks frame (i + m) s) xs
  Turn-slice xs m zero left e h =
      let start : 0 + m ≡ m = omega arith in let full : left ≡ 9 = omega arith in rw (start, full) h
  Turn-slice xs m (suc i) left e h =
      let last : suc i + m ≡ suc (i + m) = omega arith in
      rw (last) (
        Turn-within (ticks frame (i + m) s) xs (frame (i + m)) left
          (Turn-slice xs m i (suc left) (omega arith) h))

  -- Ten ticks give the processor to the next task.
  Turn-next :
      (xs : List ℕ) (m : ℕ)
      → Turn 10 (ticks frame m s) xs
      → Turn 10 (ticks frame (10 + m) s) (rot xs)
  Turn-next xs m h =
      let last : 10 + m ≡ suc (9 + m) = omega arith in
      rw (last)
        (Turn-expired (ticks frame (9 + m) s) xs (frame (9 + m)) (Turn-slice xs m 9 0 refl h))

-- After `10 * k` ticks the running task and the queue behind it are the `k`-fold rotation of what
-- they were, and the running task has a full slice.
pub schedule_rotates :
    (frame : ℕ → ℕ) (s : Sched) (xs : List ℕ) (k : ℕ)
    → Turn 10 s xs
    → Turn 10 (ticks frame (k * 10) s) (rots k xs)
schedule_rotates frame s xs zero h = h
schedule_rotates frame s xs (suc k) h =
    let last : suc k * 10 ≡ 10 + k * 10 = omega arith in
    rw (last, ← rot-rots k xs)
      (Turn-next frame s (rots k xs) (k * 10) (schedule_rotates frame s xs k h))

rots-length : (xs ys : List ℕ) → rots (length xs) (xs ++ ys) ≡ ys ++ xs
rots-length [] ys = sym (append-nil ys)
rots-length (x ∷ xs) ys =
    ap (rots (length xs)) (append_assoc xs ys (x ∷ []))
    ∙ rots-length xs (ys ++ x ∷ [])
    ∙ append_assoc ys (x ∷ []) xs

-- From a full slice on, after `k` slices and `i` ticks more, with `i` below 10, the tasks have moved
-- up `k` places round the queue: the task that stood at place `k` runs with `10 - i` ticks of its
-- slice, and the others wait behind it in their order, those that have run at the end. After as many
-- slices as there are tasks the order is the first one again.
pub schedule_round_robin :
    (frame : ℕ → ℕ) (s : Sched) (xs : List ℕ) (k i left : ℕ)
    → Turn 10 s xs
    → i + left ≡ 9
    → Turn (suc left) (ticks frame (i + k * 10) s) (rots k xs) × (rots (length xs) xs ≡ xs)
schedule_round_robin frame s xs k i left h e = (
  Turn-slice frame s (rots k xs) (k * 10) i left e (schedule_rotates frame s xs k h),
  ap (rots (length xs)) (sym (append-nil xs)) ∙ rots-length xs [],
)

has-rots :
    (z : ℕ) (xs ys : List ℕ)
    → has z xs ≡ true
    → (k : ℕ) × (k < length xs) × (rest : List ℕ) × (rots k (xs ++ ys) ≡ z ∷ rest)
has-rots z [] ys h = ground arith
has-rots z (x ∷ xs) ys h = elim (ℕ_discrete z x) [
  | yes e ↦ (0, omega arith, xs ++ ys, ap (λ w. w ∷ (xs ++ ys)) (sym e))
  | no n ↦
      let (k, below, rest, e) = has-rots z xs (ys ++ x ∷ []) (ground arith) in
      (suc k, omega arith, rest, ap (rots k) (append_assoc xs ys (x ∷ [])) ∙ e)
]

-- Every task of the queue is the running task after at most as many slices as there are tasks
-- before it: fewer than the tasks of the queue.
pub schedule_fair :
    (frame : ℕ → ℕ) (s : Sched) (xs : List ℕ) (z : ℕ)
    → Turn 10 s xs
    → has z xs ≡ true
    → (k : ℕ) × (k < length xs)
      × ((ticks frame (k * 10) s).current ≡ z)
      × (((ticks frame (k * 10) s).tasks z).state ≡ running)
schedule_fair frame s xs z h m =
    let (k, below, rest, e) = has-rots z xs [] m in
    let t =
      subst (Turn 10 (ticks frame (k * 10) s)) (ap (rots k) (sym (append-nil xs)) ∙ e)
        (schedule_rotates frame s xs k h) in
    (k, below, t.0.current, t.0.runs)
