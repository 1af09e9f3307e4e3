-- ===== src/SimpleSched/Started.antt =====
-- `kmain` of kernel-simple-scheduler/core/kmain.c, and the ticks after it.
use kernel_fuzzing.Base.{◌∙◌, refl, ℕ, ◌+◌, ◌-◌, ◌*◌, ◌^◌, ◌≡◌, ◌≢◌, ◌<◌, sym, subst, arith, update}
use kernel_fuzzing.Sched.{
  Sched, ready, Context, rq_push, build_initial_context, spsr_el0t_default, sched_set_current,
}
use kernel_fuzzing.SimpleSched.{Board, Image, sched_ready_enqueue, task_init, kmain}
use kernel_fuzzing.SimpleSched.Turns.{Pair}
use kernel_fuzzing.SimpleSched.Alternation.{ticks, resumed, alternate, saved_after, ticks-alternate}

-- The context enters a function at EL0 with a stack.
pub record Enters (c : Context) (entry stack : ℕ) : Type 0 where
  pub function : c.elr_el1 ≡ entry
  pub stack_pointer : c.sp_el0 ≡ stack
  pub level : c.spsr_el1 ≡ 0

-- Two tasks and two stacks that are apart.
pub record IsImage (i : Image) : Type 0 where
  pub tasks : i.t0 ≢ i.t1
  pub nonnull : (i.t0 ≢ 0) × (i.t1 ≢ 0)
  pub stacks : i.kstack0 ≢ i.kstack1
  pub below : (i.ustack0 + 4096 < 2 ^ 64) × (i.ustack1 + 4096 < 2 ^ 64)

-- The queue holds one task, and two tasks, with full slices.
record One (s : Sched) (x : ℕ) : Type 0 where
  head : s.rq_head ≡ x
  tail : s.rq_tail ≡ x
  waits : (s.tasks x).state ≡ ready
  fresh : (s.tasks x).slice_left ≡ 10000

record Two (s : Sched) (x y : ℕ) : Type 0 where
  head : s.rq_head ≡ x
  tail : s.rq_tail ≡ y
  next : (s.tasks x).next ≡ y
  waits : (s.tasks y).state ≡ ready
  fresh_first : (s.tasks x).slice_left ≡ 10000
  fresh : (s.tasks y).slice_left ≡ 10000

module _ (t id name entry kstk_base ustk_base sz : ℕ) (b : Board) where
  abbrev started : Sched
  started = (task_init t id name entry kstk_base ustk_base sz b).sched

  started-One : b.sched.rq_tail ≡ 0 → One started t
  unfolding task_init sched_ready_enqueue rq_push update
  started-One empty = record {
    head = ground (arith, empty);
    tail = ground (arith, empty);
    waits = ground (arith, empty);
    fresh = ground (arith, empty);
  }

  module _ (x : ℕ) (one : One b.sched x) (nonnull : x ≢ 0) (apart : x ≢ t) where
    next_started : (started.tasks x).next ≡ t
    unfolding task_init sched_ready_enqueue rq_push update
    next_started = let tail = one.tail in ground (arith, tail, nonnull, apart)

    state_started : (started.tasks t).state ≡ ready
    unfolding task_init sched_ready_enqueue rq_push update
    state_started = let tail = one.tail in ground (arith, tail, nonnull, apart)

    slice_left_started : (started.tasks t).slice_left ≡ 10000
    unfolding task_init sched_ready_enqueue rq_push update
    slice_left_started = let tail = one.tail in ground (arith, tail, nonnull, apart)

    slice_left_other : (started.tasks x).slice_left ≡ (b.sched.tasks x).slice_left
    unfolding task_init sched_ready_enqueue rq_push update
    slice_left_other = let tail = one.tail in ground (arith, tail, nonnull, apart)

    started-Two : Two started x t
    unfolding task_init sched_ready_enqueue rq_push
    started-Two = record {
      head = let tail = one.tail in let head = one.head in ground (arith, tail, head, nonnull);
      tail = let tail = one.tail in ground (arith, tail, nonnull);
      next = next_started;
      waits = state_started;
      fresh_first = slice_left_other ∙ one.fresh;
      fresh = slice_left_started;
    }

Pair-current :
    (s : Sched) (x y : ℕ)
    → Two s x y
    → (x ≢ 0) × (y ≢ 0)
    → x ≢ y
    → Pair (sched_set_current s x) x y 10000
unfolding sched_set_current update
Pair-current s x y two nonnull apart = record {
  head = two.head;
  tail = two.tail;
  current = refl;
  next = let next = two.next in ground (arith, next);
  runs = ground arith;
  waits = let waits = two.waits in ground (arith, waits, apart);
  slice = let fresh = two.fresh_first in ground (arith, fresh);
  fresh = let fresh = two.fresh in ground (arith, fresh, apart);
  nonnull = nonnull;
  distinct = apart;
}

module _ (i : Image) (ok : IsImage i) (b : Board) (empty : b.sched.rq_tail ≡ 0) where
  kmain-Pair : Pair (kmain i b).1.sched i.t0 i.t1 10000
  unfolding kmain
  kmain-Pair =
      Pair-current _ i.t0 i.t1
        (started-Two i.t1 _ _ _ _ _ _ _ i.t0 (started-One i.t0 _ _ _ _ _ _ _ empty) ok.nonnull.0
          ok.tasks)
        ok.nonnull ok.tasks

  first_context : (kmain i b).0 ≡ i.kstack0 + 4096 - 272
  unfolding kmain task_init sched_ready_enqueue rq_push sched_set_current update
  first_context = let apart = ok.tasks in let nonnull = ok.nonnull in ground (arith, empty)

  second_context : ((kmain i b).1.sched.tasks i.t1).context ≡ i.kstack1 + 4096 - 272
  unfolding kmain task_init sched_ready_enqueue rq_push sched_set_current update
  second_context = let apart = ok.tasks in let nonnull = ok.nonnull in ground (arith, empty)

  first-Enters :
      Enters ((kmain i b).1.contexts (i.kstack0 + 4096 - 272)) i.user_loop (i.ustack0 + 4096)
  unfolding kmain task_init update build_initial_context spsr_el0t_default
  first-Enters =
      let apart = ok.stacks in
      let below = ok.below in
      record {
        function = ground (arith, apart);
        stack_pointer = ground (arith, apart, below);
        level = ground (arith, apart);
      }

  second-Enters :
      Enters ((kmain i b).1.contexts (i.kstack1 + 4096 - 272)) i.user_loop2 (i.ustack1 + 4096)
  unfolding kmain task_init update build_initial_context spsr_el0t_default
  second-Enters =
      let apart = ok.stacks in
      let below = ok.below in
      record {
        function = ground (arith, apart);
        stack_pointer = ground (arith, apart, below);
        level = ground (arith, apart);
      }

  -- With an empty queue at first and two tasks and stacks that are apart, `kmain` goes on with a
  -- context that enters the first user program on its stack, and the second task has one that
  -- enters the second. From then on, whatever is interrupted, the tasks run in turn for 10000 ticks
  -- each, and the tick that ends a slice goes on with the other task where it was interrupted last,
  -- or with its first context.
  pub kmain-alternate :
      (iar frame : ℕ → ℕ) (k : ℕ)
      → let (context, b') = kmain i b in
        let saved = (b'.sched.tasks i.t1).context in
        Enters (b'.contexts context) i.user_loop (i.ustack0 + 4096)
        × Enters (b'.contexts saved) i.user_loop2 (i.ustack1 + 4096)
        × Pair
            (ticks iar frame (k * 10000) b').sched
            (alternate k i.t0 i.t1)
            (alternate k i.t1 i.t0)
            10000
        × (resumed iar frame (9999 + k * 10000) b' ≡ saved_after iar frame b' saved k)
  kmain-alternate iar frame k =
      let b' = (kmain i b).1 in
      let turns = ticks-alternate iar frame b' i.t0 i.t1 k kmain-Pair in
      (
        subst (λ c. Enters (b'.contexts c) i.user_loop (i.ustack0 + 4096)) (sym first_context)
            first-Enters,
        subst (λ c. Enters (b'.contexts c) i.user_loop2 (i.ustack1 + 4096)) (sym second_context)
            second-Enters,
        turns.0,
        turns.1,
      )
