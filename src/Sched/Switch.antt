-- ===== src/Sched/Switch.antt =====
-- A tick that ends a slice: `schedule_on_tick` of kernel/core/scheduler/sched.c.
use kernel_fuzzing.Base.{
  ℕ, ◌-◌, ◌≤◌, ◌<◌, ◌≡◌, ◌≢◌, ◌∙◌, refl, false, arith, ◌==◌, update_self, if◌then◌else◌,
}
use kernel_fuzzing.Sched.{
  Sched, running, ready, schedule_on_tick, switch_to_next, rq_push, set_cntv, put,
}
use kernel_fuzzing.Sched.Exchange.{
  stopped, linked_back, taken_out, exchanged, push_stopped, pop_stopped, next_exchanged,
  state_exchanged, context_exchanged, slice_left_exchanged,
}

module _ (s : Sched) (x tf : ℕ) where
  abbrev pub going : Sched
  going = put s x (record (s.tasks x) { context = tf; slice_left = (s.tasks x).slice_left - 1 })

  pub tick_going :
      s.current ≡ x
      → x ≢ 0
      → (s.tasks x).state ≡ running
      → 1 < (s.tasks x).slice_left
      → schedule_on_tick tf s ≡ (tf, going)
  unfolding schedule_on_tick
  tick_going c n r h = ground arith

  pub tick_stopped :
      s.current ≡ x
      → x ≢ 0
      → (s.tasks x).state ≡ running
      → (s.tasks x).slice_left ≤ 1
      → schedule_on_tick tf s ≡ switch_to_next tf (rq_push (stopped 10 s x tf) x)
  unfolding schedule_on_tick
  tick_stopped c n r h = ground arith

  unfoldable pub switched : ℕ → Sched
  unfolding exchanged
  switched y = record (exchanged 10 s x tf y) { timer = set_cntv s.timer }

  pub rq_tail_switched : (y : ℕ) → (switched y).rq_tail ≡ x
  unfolding switched
  rq_tail_switched y = refl

  pub tick_switch :
      (y : ℕ)
      → s.current ≡ x
      → s.rq_head ≡ x
      → s.rq_tail ≢ 0
      → x ≢ 0
      → y ≢ 0
      → (s.tasks x).state ≡ running
      → (s.tasks x).slice_left ≤ 1
      → (linked_back 10 s x tf x).next ≡ y
      → schedule_on_tick tf s ≡ ((taken_out 10 s x tf y).context, switched y)
  unfolding switch_to_next switched
  tick_switch y c h t n m r d e =
      let not_null : (y == 0) ≡ false = ground arith in
      tick_stopped c n r d
      ∙ rw
          (
            push_stopped 10 s x tf t,
            switch_to_next,
            pop_stopped 10 s x tf y h n m e,
            not_null,
            update_self,
          )
          refl

  -- The fields of the tasks afterwards.
  module _ (y z : ℕ) where
    pub next_switched :
        ((switched y).tasks z).next
        ≡ (if z == x then 0 else if z == s.rq_tail then x else (s.tasks z).next)
    unfolding switched
    next_switched = unfold exchanged in next_exchanged 10 s x tf y z

    pub state_switched :
        ((switched y).tasks z).state
        ≡ (if z == y then running else if z == x then ready else (s.tasks z).state)
    unfolding switched
    state_switched = unfold exchanged in state_exchanged 10 s x tf y z

    pub context_switched :
        ((switched y).tasks z).context ≡ (if z == x then tf else (s.tasks z).context)
    unfolding switched
    context_switched = unfold exchanged in context_exchanged 10 s x tf y z

    pub slice_left_switched :
        ((switched y).tasks z).slice_left ≡ (if z == x then 10 else (s.tasks z).slice_left)
    unfolding switched
    slice_left_switched = unfold exchanged in slice_left_exchanged 10 s x tf y z
