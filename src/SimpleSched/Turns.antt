-- ===== src/SimpleSched/Turns.antt =====
-- Two tasks that take turns: `schedule_on_tick` of kernel-simple-scheduler/core/sched.c.
use kernel_fuzzing.Base.{ℕ, suc, ◌≡◌, ◌≢◌, ◌∙◌, refl, sym, false, update_self, arith, ◌==◌, update}
use kernel_fuzzing.Sched.Exchange.{
  stopped, linked_back, taken_out, exchanged, push_stopped, pop_stopped, next_linked_back,
  next_exchanged, state_exchanged, context_exchanged, slice_left_exchanged, context_taken_out,
}
use kernel_fuzzing.Sched.{Sched, Timer, ready, running, rq_push}
use kernel_fuzzing.SimpleSched.{Board, finish, switch_to_next, schedule_on_tick}

-- `x` runs with `left` ticks of its slice and stands at the head of the queue, `y` waits behind it.
pub record Pair (s : Sched) (x y left : ℕ) : Type 0 where
  pub head : s.rq_head ≡ x
  pub tail : s.rq_tail ≡ y
  pub current : s.current ≡ x
  pub next : (s.tasks x).next ≡ y
  pub runs : (s.tasks x).state ≡ running
  pub waits : (s.tasks y).state ≡ ready
  pub slice : (s.tasks x).slice_left ≡ left
  pub fresh : (s.tasks y).slice_left ≡ 10000
  pub nonnull : (x ≢ 0) × (y ≢ 0)
  pub distinct : x ≢ y

Pair-timer :
    (s : Sched) (x y left : ℕ) (timer : Timer)
    → Pair s x y left
    → Pair (record s { timer = timer }) x y left
Pair-timer s x y left timer p = record {
  head = p.head;
  tail = p.tail;
  current = p.current;
  next = p.next;
  runs = p.runs;
  waits = p.waits;
  slice = p.slice;
  fresh = p.fresh;
  nonnull = p.nonnull;
  distinct = p.distinct;
}

module _ (iar tf x y : ℕ) (b : Board) where
  pub tick_within :
      (left : ℕ)
      → Pair b.sched x y (suc (suc left))
      → let (tf', b') = schedule_on_tick iar tf b in
        (tf' ≡ tf)
        × Pair b'.sched x y (suc left)
        × ((b'.sched.tasks x).context ≡ tf)
        × ((b'.sched.tasks y).context ≡ (b.sched.tasks y).context)
  unfolding schedule_on_tick finish update
  tick_within left p = ground arith

module _ (tf x y : ℕ) (s : Sched) (p : Pair s x y 1) where
  back_to_other : (linked_back 10000 s x tf x).next ≡ y
  back_to_other = ground (arith, next_linked_back 10000 s x tf, p.tail, p.next, p.distinct)

  Pair-exchanged : Pair (exchanged 10000 s x tf y) y x 10000
  Pair-exchanged =
      let apart = p.distinct in
      let tail = p.tail in
      record {
        head = unfold exchanged in refl;
        tail = unfold exchanged in refl;
        current = unfold exchanged in refl;
        next = ground (arith, next_exchanged 10000 s x tf y y, tail, apart);
        runs = ground (arith, state_exchanged 10000 s x tf y y);
        waits = ground (arith, state_exchanged 10000 s x tf y x, apart);
        slice = ground (arith, slice_left_exchanged 10000 s x tf y y, apart, p.fresh);
        fresh = ground (arith, slice_left_exchanged 10000 s x tf y x);
        nonnull = (p.nonnull.1, p.nonnull.0);
        distinct = λ e. apart (sym e);
      }

module _ (iar tf x y : ℕ) (b : Board) where
  tick_stopped :
      Pair b.sched x y 1
      → schedule_on_tick iar tf b ≡ switch_to_next iar tf (rq_push (stopped 10000 b.sched x tf) x) b
  unfolding schedule_on_tick
  tick_stopped p = ground (arith, p.current, p.runs, p.slice, p.nonnull.0)

  tick_switch :
      Pair b.sched x y 1
      → schedule_on_tick iar tf b
        ≡ ((taken_out 10000 b.sched x tf y).context, finish iar (exchanged 10000 b.sched x tf y) b)
  unfolding switch_to_next exchanged
  tick_switch p =
      let not_null : (y == 0) ≡ false = ground (arith, p.nonnull.1) in
      let tail : b.sched.rq_tail ≢ 0 = ground (arith, p.tail, p.nonnull.1) in
      let back = back_to_other tf x y b.sched p in
      tick_stopped p
      ∙ rw
          (
            push_stopped 10000 b.sched x tf tail,
            switch_to_next,
            pop_stopped 10000 b.sched x tf y p.head p.nonnull.0 p.nonnull.1 back,
            not_null,
            update_self,
          )
          refl

  -- The last tick of a slice resumes the other task where it was interrupted.
  pub tick_expired :
      Pair b.sched x y 1
      → let (tf', b') = schedule_on_tick iar tf b in
        (tf' ≡ (b.sched.tasks y).context)
        × Pair b'.sched y x 10000
        × ((b'.sched.tasks x).context ≡ tf)
        × ((b'.sched.tasks y).context ≡ (b.sched.tasks y).context)
  unfolding finish
  tick_expired p = rw (tick_switch p) (
    ground (arith, context_taken_out 10000 b.sched x tf y, p.distinct),
    Pair-timer (exchanged 10000 b.sched x tf y) y x 10000 _ (Pair-exchanged tf x y b.sched p),
    ground (arith, context_exchanged 10000 b.sched x tf y x),
    ground (arith, context_exchanged 10000 b.sched x tf y y, p.distinct),
  )
