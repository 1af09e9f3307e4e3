-- ===== src/Irq/Dispatch.antt =====
-- Which interrupts switch tasks: `irq_dispatcher` of kernel/core/handlers.c.
use kernel_fuzzing.Base.{
  ℕ, ◌+◌, ◌/◌, ◌%◌, ◌^◌, ◌≡◌, ◌≢◌, ◌≤◌, ◌<◌, ℕ_discrete, dec_lt, subst, sym, ap₂, List, ◌∷◌, arith,
}
use kernel_fuzzing.Base.Bits.{bit_and_low}
use kernel_fuzzing.Sched.{Sched, schedule_on_tick, set_cntv}
use kernel_fuzzing.Sched.Queue.{Queued}
use kernel_fuzzing.Sched.Tick.{
  rotate, Continued, Switched, schedule_on_tick_expired, schedule_on_tick_within,
}
use kernel_fuzzing.Irq.{
  Machine, irq_dispatcher, timer_irq_handler, gic_eoi, w32, check_current_el, virtual_gicc_base,
}

-- The interrupt is the timer's, and it came from a user process.
abbrev pub FromUser : (iar spsr : ℕ) → Type 0
FromUser iar spsr = (iar % 1024 ≡ 27) × (spsr / 4 % 4 ≢ 1)

module _ (iar spsr context : ℕ) (m : Machine) where
  -- Every interrupt is ended at the controller with the value that was acknowledged, after what was
  -- written before.
  pub irq_dispatcher-eoi :
      (irq_dispatcher iar spsr context m).1.gic ≡ (virtual_gicc_base + 0x010, iar % 2 ^ 32) ∷ m.gic
  unfolding irq_dispatcher gic_eoi w32
  irq_dispatcher-eoi = ground arith

  irq_dispatcher-user :
      FromUser iar spsr
      → let (context', m') = irq_dispatcher iar spsr context m in
        (context' ≡ (schedule_on_tick context (timer_irq_handler m.sched)).0)
        × (m'.sched ≡ (schedule_on_tick context (timer_irq_handler m.sched)).1)
  unfolding irq_dispatcher check_current_el
  irq_dispatcher-user h = let low = bit_and_low 10 iar in ground (arith, low, h.0, h.1)

Queued-timer_irq_handler :
    (s : Sched) (x : ℕ) (waiting : List ℕ)
    → Queued s x waiting
    → Queued (timer_irq_handler s) x waiting
unfolding timer_irq_handler
Queued-timer_irq_handler s x waiting q = record {
  head = q.head;
  current = q.current;
  linked = q.linked;
  distinct = q.distinct;
  nonnull = q.nonnull;
  runs = q.runs;
  wait = q.wait;
  fresh = q.fresh;
}

-- What an interrupt does, by its number, where it came from, and the ticks left of the slice of the
-- running task `x`: another one, or one from the kernel, goes on with the interrupted context, and
-- the timer's programs the timer again; from a user process it is a tick of the scheduler.
pub data Dispatched (iar spsr context : ℕ) (s : Sched) (x : ℕ) (waiting : List ℕ)
    (result : ℕ × Sched) : Type 0 where
  other :
      iar % 1024 ≢ 27
      → result.0 ≡ context
      → result.1 ≡ s
      → Dispatched iar spsr context s x waiting result
  from_kernel :
      iar % 1024 ≡ 27
      → spsr / 4 % 4 ≡ 1
      → result.0 ≡ context
      → result.1 ≡ record s { timer = set_cntv s.timer }
      → Dispatched iar spsr context s x waiting result
  within :
      FromUser iar spsr
      → 1 < (s.tasks x).slice_left
      → Continued (record s { timer = set_cntv s.timer }) x context waiting result
      → Dispatched iar spsr context s x waiting result
  expired :
      FromUser iar spsr
      → (s.tasks x).slice_left ≤ 1
      → Switched
          (record s { timer = set_cntv s.timer })
          x
          context
          (rotate x waiting).0
          (rotate x waiting).1
          result
      → Dispatched iar spsr context s x waiting result

module _ (iar spsr context : ℕ) (m : Machine) where
  irq_dispatcher-other :
      iar % 1024 ≢ 27
      → let (context', m') = irq_dispatcher iar spsr context m in
        (context' ≡ context) × (m'.sched ≡ m.sched)
  unfolding irq_dispatcher
  irq_dispatcher-other h = let low = bit_and_low 10 iar in ground (arith, low, h)

  irq_dispatcher-kernel :
      iar % 1024 ≡ 27
      → spsr / 4 % 4 ≡ 1
      → let (context', m') = irq_dispatcher iar spsr context m in
        (context' ≡ context) × (m'.sched ≡ timer_irq_handler m.sched)
  unfolding irq_dispatcher check_current_el
  irq_dispatcher-kernel h from = let low = bit_and_low 10 iar in ground (arith, low, h, from)

-- With a queue whose head runs, every interrupt is ended at the controller with the value that was
-- acknowledged. Another interrupt than the timer's goes on with the interrupted context and changes
-- no task; the timer's from the kernel only programs the timer again; from a user process it counts
-- the slice of the running task down, or resumes the next task when the slice is over.
pub irq_dispatcher-Dispatched :
    (iar spsr context : ℕ) (m : Machine) (x : ℕ) (waiting : List ℕ)
    → Queued m.sched x waiting
    → let (context', m') = irq_dispatcher iar spsr context m in
      (m'.gic ≡ (virtual_gicc_base + 0x010, iar % 2 ^ 32) ∷ m.gic)
      × Dispatched iar spsr context m.sched x waiting (context', m'.sched)
unfolding timer_irq_handler
irq_dispatcher-Dispatched iar spsr context m x waiting q = (
  irq_dispatcher-eoi iar spsr context m,
  elim (ℕ_discrete (iar % 1024) 27) [
    | no h ↦ let (e, e') = irq_dispatcher-other iar spsr context m h in other h e e'
    | yes tick ↦ elim (ℕ_discrete (spsr / 4 % 4) 1) [
      | yes from ↦
          let (e, e') = irq_dispatcher-kernel iar spsr context m tick from in
          from_kernel tick from e e'
      | no from ↦
          let (e, e') = irq_dispatcher-user iar spsr context m (tick, from) in
          let s = timer_irq_handler m.sched in
          let result = sym (ap₂ (λ c t. (c, t)) e e') in
          let q' = Queued-timer_irq_handler m.sched x waiting q in
          elim (dec_lt 1 (m.sched.tasks x).slice_left) [
            | yes more ↦
                within (tick, from) more
                  (subst (Continued s x context waiting) result
                    (schedule_on_tick_within s x waiting context q' more))
            | no over ↦
                expired (tick, from) (omega (arith, over))
                  (subst (Switched s x context (rotate x waiting).0 (rotate x waiting).1) result
                    (schedule_on_tick_expired s x waiting context q' (omega (arith, over))))
          ]
    ]
  ],
)
