-- ===== src/Sched/Exchange.antt =====
-- The end of a slice, step by step: `rq_push` and `rq_pop` of kernel/core/scheduler/sched.c, whose
-- earlier version in kernel-simple-scheduler/ gives another number of ticks.
use kernel_fuzzing.Base.{ℕ, ◌≡◌, ◌≢◌, arith, ◌==◌, update, if◌then◌else◌}
use kernel_fuzzing.Sched.{Sched, running, ready, rq_push, rq_pop, put}
use kernel_fuzzing.Sched.Queue.{Tasks}

module _ (slice : ℕ) (s : Sched) (x tf : ℕ) where
  -- The state before `rq_push` when the slice is over.
  abbrev pub stopped : Sched
  stopped = put s x (record (s.tasks x) { context = tf; slice_left = slice; state = ready })

  -- The tasks when the slice of `x` is over and `y` runs next.
  unfoldable pub linked_back : Tasks
  linked_back = update stopped.tasks s.rq_tail (record (stopped.tasks s.rq_tail) { next = x })

  unfoldable pub taken_out : Tasks
  taken_out = update linked_back x (record (linked_back x) { next = 0 })

  unfoldable pub exchanged : ℕ → Sched
  exchanged y = record s {
    tasks = update taken_out y (record (taken_out y) { state = running });
    rq_head = y;
    rq_tail = x;
    current = y;
  }

  pub push_stopped :
      s.rq_tail ≢ 0 → rq_push stopped x ≡ record stopped { tasks = linked_back; rq_tail = x }
  unfolding rq_push linked_back
  push_stopped n = ground arith

  pub pop_stopped :
      (y : ℕ)
      → s.rq_head ≡ x
      → x ≢ 0
      → y ≢ 0
      → (linked_back x).next ≡ y
      → rq_pop (record stopped { tasks = linked_back; rq_tail = x })
        ≡ (y, record stopped { tasks = taken_out; rq_head = y; rq_tail = x })
  unfolding rq_pop taken_out linked_back update
  pop_stopped y h n m e = rw (rq_pop, h, e) (ground arith)

  -- The fields of the tasks afterwards.
  module _ (y z : ℕ) where
    pub next_exchanged :
        ((exchanged y).tasks z).next
        ≡ (if z == x then 0 else if z == s.rq_tail then x else (s.tasks z).next)
    unfolding exchanged taken_out linked_back update
    next_exchanged = ground arith

    pub state_exchanged :
        ((exchanged y).tasks z).state
        ≡ (if z == y then running else if z == x then ready else (s.tasks z).state)
    unfolding exchanged taken_out linked_back update
    state_exchanged = ground arith

    pub context_exchanged :
        ((exchanged y).tasks z).context ≡ (if z == x then tf else (s.tasks z).context)
    unfolding exchanged taken_out linked_back update
    context_exchanged = ground arith

    pub slice_left_exchanged :
        ((exchanged y).tasks z).slice_left ≡ (if z == x then slice else (s.tasks z).slice_left)
    unfolding exchanged taken_out linked_back update
    slice_left_exchanged = ground arith

  pub next_linked_back : (linked_back x).next ≡ (if x == s.rq_tail then x else (s.tasks x).next)
  unfolding linked_back update
  next_linked_back = ground arith

  pub context_taken_out :
      (y : ℕ) → (taken_out y).context ≡ (if y == x then tf else (s.tasks y).context)
  unfolding taken_out linked_back update
  context_taken_out y = ground arith
