-- ===== src/Sched/Tick.antt =====
-- One tick: `schedule_on_tick` of kernel/core/scheduler/sched.c with a task that runs.
use kernel_fuzzing.Base.{
  ℕ, ◌+◌, ◌-◌, ◌≤◌, ◌<◌, ◌≡◌, ◌≢◌, ◌∙◌, refl, List, [], ◌∷◌, ◌++◌, arith, ◌==◌, update, update_ne,
  All-map_has, has-All, All-append, Distinct-snoc, if◌then◌else◌,
}
use kernel_fuzzing.Sched.{Sched, ready, schedule_on_tick, set_cntv}
use kernel_fuzzing.Sched.Queue.{Linked-snoc, Linked-has, Linked-map, Queued}
use kernel_fuzzing.Sched.Exchange.{context_taken_out, linked_back, next_linked_back}
use kernel_fuzzing.Sched.Switch.{
  context_switched, going, next_switched, rq_tail_switched, slice_left_switched, state_switched,
  switched, tick_going, tick_switch,
}

-- What a tick that ends the slice of `x` leaves, where `y` runs next with `waiting` behind it.
pub record Switched (s : Sched) (x tf y : ℕ) (waiting : List ℕ) (result : ℕ × Sched) : Type 0 where
  pub queued : Queued result.1 y waiting
  pub resumes : result.0 ≡ (if y == x then tf else (s.tasks y).context)
  pub saved : (result.1.tasks x).context ≡ tf
  pub full : (result.1.tasks y).slice_left ≡ 10
  pub contexts : (z : ℕ) → z ≢ x → (result.1.tasks z).context ≡ (s.tasks z).context
  pub timer : result.1.timer ≡ set_cntv s.timer

module _ (s : Sched) (x tf : ℕ) (over : (s.tasks x).slice_left ≤ 1) where
  Switched-alone : Queued s x [] → Switched s x tf x [] (schedule_on_tick tf s)
  Switched-alone q =
      let tail : s.rq_tail ≢ 0 = ground (arith, q.linked, q.nonnull) in
      let back : (linked_back 10 s x tf x).next ≡ x =
        ground (arith, next_linked_back 10 s x tf, q.linked) in
      rw (tick_switch s x tf x q.current q.head tail q.nonnull.0 q.nonnull.0 q.runs over back)
        (record {
          queued = record {
            head = unfold switched in refl;
            current = unfold switched in refl;
            linked = unfold switched in refl;
            distinct = q.distinct;
            nonnull = q.nonnull;
            runs = ground (arith, state_switched s x tf x x);
            wait = tt;
            fresh = tt;
          };
          resumes = context_taken_out 10 s x tf x;
          saved = ground (arith, context_switched s x tf x x);
          full = ground (arith, slice_left_switched s x tf x x);
          contexts = λ z h. ground (arith, context_switched s x tf x z);
          timer = unfold switched in refl;
        })

  Queued-more :
      (y : ℕ) (ys : List ℕ) → Queued s x (y ∷ ys) → Queued (switched s x tf y) y (ys ++ x ∷ [])
  Queued-more y ys q =
      let apart = q.distinct in
      let tail_in = Linked-has s.tasks (y ∷ ys) s.rq_tail q.linked.1 in
      record {
        head = unfold switched in refl;
        current = unfold switched in refl;
        linked = rw (rq_tail_switched s x tf y) (
            Linked-snoc s.tasks (switched s x tf y).tasks (y ∷ ys) s.rq_tail x
              (λ z m n. ground (arith, next_switched s x tf y z))
              (ground (arith, next_switched s x tf y s.rq_tail)) apart.1 q.linked.1);
        distinct = Distinct-snoc x (y ∷ ys) apart.0 apart.1;
        nonnull = All-append (λ z. z ≢ 0) (y ∷ ys) (x ∷ []) q.nonnull.1 (q.nonnull.0, tt);
        runs = ground (arith, state_switched s x tf y y);
        wait =
            All-append (λ z. ((switched s x tf y).tasks z).state ≡ ready) ys (x ∷ [])
              (All-map_has (λ z. (s.tasks z).state ≡ ready)
                (λ z. ((switched s x tf y).tasks z).state ≡ ready) ys
                (λ z m e. ground (arith, state_switched s x tf y z)) q.wait.1)
              (ground (arith, state_switched s x tf y x), tt);
        fresh =
            All-append (λ z. ((switched s x tf y).tasks z).slice_left ≡ 10) ys (x ∷ [])
              (All-map_has (λ z. (s.tasks z).slice_left ≡ 10)
                (λ z. ((switched s x tf y).tasks z).slice_left ≡ 10) ys
                (λ z m e. ground (arith, slice_left_switched s x tf y z)) q.fresh.1)
              (ground (arith, slice_left_switched s x tf y x), tt);
      }

  Switched-more :
      (y : ℕ) (ys : List ℕ)
      → Queued s x (y ∷ ys)
      → Switched s x tf y (ys ++ x ∷ []) (schedule_on_tick tf s)
  Switched-more y ys q =
      let tail_in = Linked-has s.tasks (y ∷ ys) s.rq_tail q.linked.1 in
      let tail : s.rq_tail ≢ 0 = has-All (λ z. z ≢ 0) s.rq_tail (y ∷ ys) tail_in q.nonnull.1 in
      let back : (linked_back 10 s x tf x).next ≡ y =
        ground (arith, next_linked_back 10 s x tf, q.linked.0) in
      rw (tick_switch s x tf y q.current q.head tail q.nonnull.0 q.nonnull.1.0 q.runs over back)
        (record {
          queued = Queued-more y ys q;
          resumes = context_taken_out 10 s x tf y;
          saved = ground (arith, context_switched s x tf y x);
          full = ground (arith, slice_left_switched s x tf y y, q.fresh.0, q.distinct.0);
          contexts = λ z h. ground (arith, context_switched s x tf y z);
          timer = unfold switched in refl;
        })

-- The task that runs after a slice, and those behind it.
abbrev pub rotate : ℕ → List ℕ → ℕ × List ℕ
rotate x [] = (x, [])
rotate x (y ∷ ys) = (y, ys ++ x ∷ [])

-- A tick that ends the slice of the running task `x` resumes the first waiting task `y` (or `x`
-- itself if none waits) with the context that `y` had saved, marks it running with a full slice,
-- puts `x` ready with a full slice behind the other waiting tasks, saves the interrupted context
-- in `x`, leaves the other saved contexts, and programs the timer again.
pub schedule_on_tick_expired :
    (s : Sched) (x : ℕ) (waiting : List ℕ) (tf : ℕ)
    → Queued s x waiting
    → (s.tasks x).slice_left ≤ 1
    → Switched s x tf (rotate x waiting).0 (rotate x waiting).1 (schedule_on_tick tf s)
schedule_on_tick_expired s x [] tf q over = Switched-alone s x tf over q
schedule_on_tick_expired s x (y ∷ ys) tf q over = Switched-more s x tf over y ys q

-- What a tick within the slice of `x` leaves.
pub record Continued (s : Sched) (x tf : ℕ) (waiting : List ℕ) (result : ℕ × Sched) : Type 0 where
  pub queued : Queued result.1 x waiting
  pub resumes : result.0 ≡ tf
  pub saved : (result.1.tasks x).context ≡ tf
  pub counted : (result.1.tasks x).slice_left + 1 ≡ (s.tasks x).slice_left
  pub others : (y : ℕ) → y ≢ x → result.1.tasks y ≡ s.tasks y
  pub timer : result.1.timer ≡ s.timer

next_going : (s : Sched) (x tf z : ℕ) → ((going s x tf).tasks z).next ≡ (s.tasks z).next
unfolding update
next_going s x tf z = ground arith

state_going : (s : Sched) (x tf z : ℕ) → ((going s x tf).tasks z).state ≡ (s.tasks z).state
unfolding update
state_going s x tf z = ground arith

context_going : (s : Sched) (x tf : ℕ) → ((going s x tf).tasks x).context ≡ tf
unfolding update
context_going s x tf = ground arith

counted_going :
    (s : Sched) (x tf : ℕ) → ((going s x tf).tasks x).slice_left ≡ (s.tasks x).slice_left - 1
unfolding update
counted_going s x tf = ground arith

slice_left_going :
    (s : Sched) (x tf z : ℕ) → z ≢ x → ((going s x tf).tasks z).slice_left ≡ (s.tasks z).slice_left
unfolding update
slice_left_going s x tf z n = ground arith

Queued-going :
    (s : Sched) (x : ℕ) (waiting : List ℕ) (tf : ℕ)
    → Queued s x waiting
    → Queued (going s x tf) x waiting
Queued-going s x waiting tf q = record {
  head = q.head;
  current = q.current;
  linked =
      Linked-map s.tasks (going s x tf).tasks (x ∷ waiting) s.rq_tail (next_going s x tf) q.linked;
  distinct = q.distinct;
  nonnull = q.nonnull;
  runs = state_going s x tf x ∙ q.runs;
  wait =
      All-map_has (λ z. (s.tasks z).state ≡ ready) (λ z. ((going s x tf).tasks z).state ≡ ready)
        waiting (λ z m e. state_going s x tf z ∙ e) q.wait;
  fresh =
      All-map_has (λ z. (s.tasks z).slice_left ≡ 10) (λ z. ((going s x tf).tasks z).slice_left ≡ 10)
        waiting (λ z m e. slice_left_going s x tf z (ground (arith, q.distinct.0)) ∙ e) q.fresh;
}

-- While the slice of the running task lasts, a tick saves the context, counts the slice down by
-- one and goes on with the same task; the queue, the other tasks and the timer stay as they are.
pub schedule_on_tick_within :
    (s : Sched) (x : ℕ) (waiting : List ℕ) (tf : ℕ)
    → Queued s x waiting
    → 1 < (s.tasks x).slice_left
    → Continued s x tf waiting (schedule_on_tick tf s)
schedule_on_tick_within s x waiting tf q more =
    rw (tick_going s x tf q.current q.nonnull.0 q.runs more) (record {
      queued = Queued-going s x waiting tf q;
      resumes = refl;
      saved = context_going s x tf;
      counted = ground (arith, counted_going s x tf);
      others = λ y n. update_ne s.tasks x _ y n;
      timer = refl;
    })
