-- ===== src/Interrupts/Counting.antt =====
-- Any interrupts in a row, in the kernel of kernel-interrupts/.
use kernel_fuzzing.Base.{
  ℕ, zero, suc, ◌+◌, ◌/◌, ◌%◌, ◌^◌, ◌<◌, ◌≡◌, ◌∙◌, refl, sym, ap, subst, bit_and, Bool, true, false,
  List, [], ◌∷◌, ◌++◌, ◌==◌, if◌then◌else◌, arith, Bool-cases, inl, inr,
}
use mathlib.Core.List.{append-nil, append_assoc}
use kernel_fuzzing.Base.Bits.{bit_and_low}
use kernel_fuzzing.Irq.{Writes, w32}
use kernel_fuzzing.Uart.{Text, uart_puts}
use kernel_fuzzing.Uart.Decimal.{uart_puts_lem}
use kernel_fuzzing.Interrupts.{
  Board, gicc_base, gic_eoi, read_cntfrq, set_cntv, enable_cntv, timer_init_1khz, tick_message,
  timer_irq_handler, el1_irq, enter_el0, kmain,
}

-- The timer counts down between two interrupts: what its register holds then.
abbrev pub counted_down : (tval : ℕ) → Board → Board
counted_down tval b = record b { timer = record b.timer { cntv_tval_el0 = tval } }

-- One interrupt after the other; each is given by what `gic_ack` reads, and by what is left in the
-- register of the timer when it comes.
abbrev pub interrupts : List (ℕ × ℕ) → Board → Board
interrupts [] b = b
interrupts ((iar, tval) ∷ irqs) b = interrupts irqs (el1_irq iar (counted_down tval b))

abbrev pub is_tick : ℕ → Bool
is_tick iar = iar % 1024 == 27

abbrev pub tick_count : List (ℕ × ℕ) → ℕ
tick_count [] = 0
tick_count ((iar, tval) ∷ irqs) = (if is_tick iar then 1 else 0) + tick_count irqs

-- The register of the timer after the interrupts, from `before` on: a tick sets it to the period,
-- another interrupt leaves it.
abbrev pub left_over : (period before : ℕ) → List (ℕ × ℕ) → ℕ
left_over period before [] = before
left_over period before ((iar, tval) ∷ irqs) =
    left_over period (if is_tick iar then period else tval) irqs

-- The end of each interrupt, the last one first.
abbrev pub ended : List (ℕ × ℕ) → Writes → Writes
ended [] done = done
ended ((iar, tval) ∷ irqs) done = ended irqs ((gicc_base + 0x010, iar % 2 ^ 32) ∷ done)

abbrev pub lines : ℕ → Text
lines zero = []
lines (suc n) = lines n ++ tick_message

-- `n` ticks after `before`: they are counted, every thousandth has sent its line, the timer runs,
-- and the user program has its registers.
pub record Counted (before : Text) (n fn : ℕ) (b : Board) : Type 0 where
  pub counted : b.jiffies ≡ n
  pub sent : b.out ≡ before ++ lines (n / 1000)
  pub frequency : b.timer.cntfrq ≡ b.timer.cntfrq_el0
  pub enabled : b.timer.cntv_ctl_el0 ≡ 1
  pub unmasked : b.irq_masked ≡ false
  pub program : (b.elr_el1 ≡ fn) × (b.sp_el0 ≡ 0x40020000) × (b.spsr_el1 ≡ 0)

sent_next :
    (before out : Text) (n : ℕ)
    → out ≡ before ++ lines (n / 1000)
    → (if (n + 1) % 1000 == 0 then uart_puts out tick_message else out)
      ≡ before ++ lines ((n + 1) / 1000)
sent_next before out n h = elim (Bool-cases ((n + 1) % 1000 == 0)) [
  | inr more ↦ let same : (n + 1) / 1000 ≡ n / 1000 = ground (arith, more) in rw (more, same) h
  | inl line ↦
      let next : (n + 1) / 1000 ≡ suc (n / 1000) = ground (arith, line) in
      rw (line, next)
        (uart_puts_lem out tick_message
          ∙ ap (λ t. t ++ tick_message) h
          ∙ append_assoc before (lines (n / 1000)) tick_message)
]

timer_irq_handler-Counted :
    (before : Text) (n fn : ℕ) (b : Board)
    → n + 1 < 2 ^ 64
    → Counted before n fn b
    → Counted before (n + 1) fn (timer_irq_handler b)
unfolding timer_irq_handler set_cntv
timer_irq_handler-Counted before n fn b small c =
    let next : (b.jiffies + 1) % 2 ^ 64 ≡ n + 1 = omega (arith, c.counted, small) in
    record {
      counted = next;
      sent = rw next (sent_next before b.out n c.sent);
      frequency = c.frequency;
      enabled = c.enabled;
      unmasked = c.unmasked;
      program = c.program;
    }

el1_irq-gic :
    (iar : ℕ) (b : Board) → (el1_irq iar b).gic ≡ (gicc_base + 0x010, iar % 2 ^ 32) ∷ b.gic
unfolding el1_irq gic_eoi w32 timer_irq_handler
el1_irq-gic iar b = ground arith

-- The controller is apart from all that is counted.
Counted-gic :
    (before : Text) (n fn : ℕ) (b : Board) (gic : Writes)
    → Counted before n fn b
    → Counted before n fn (record b { gic = gic })
Counted-gic before n fn b gic c = record {
  counted = c.counted;
  sent = c.sent;
  frequency = c.frequency;
  enabled = c.enabled;
  unmasked = c.unmasked;
  program = c.program;
}

el1_irq-Counted :
    (before : Text) (n fn iar : ℕ) (b : Board)
    → n + 1 < 2 ^ 64
    → Counted before n fn b
    → Counted before ((if is_tick iar then 1 else 0) + n) fn (el1_irq iar b)
unfolding el1_irq
el1_irq-Counted before n fn iar b small c = elim (Bool-cases (is_tick iar)) [
  | inl tick ↦
      let id : (bit_and iar 0x3FF == 27) ≡ true = ground (arith, bit_and_low 10 iar, tick) in
      let more : 1 + n ≡ n + 1 = omega arith in
      let d = timer_irq_handler-Counted before n fn b small c in
      rw (tick, id, more) (Counted-gic before (n + 1) fn _ _ d)
  | inr other ↦
      let id : (bit_and iar 0x3FF == 27) ≡ false = ground (arith, bit_and_low 10 iar, other) in
      let same : 0 + n ≡ n = omega arith in rw (other, id, same) (Counted-gic before n fn _ _ c)
]

Counted-counted_down :
    (before : Text) (n fn tval : ℕ) (b : Board)
    → Counted before n fn b
    → Counted before n fn (counted_down tval b)
Counted-counted_down before n fn tval b c = record {
  counted = c.counted;
  sent = c.sent;
  frequency = c.frequency;
  enabled = c.enabled;
  unmasked = c.unmasked;
  program = c.program;
}

interrupts-Counted :
    (before : Text) (n fn : ℕ) (irqs : List (ℕ × ℕ)) (b : Board)
    → tick_count irqs + n + 1 < 2 ^ 64
    → Counted before n fn b
    → Counted before (tick_count irqs + n) fn (interrupts irqs b)
interrupts-Counted before n fn [] b small c = let same : 0 + n ≡ n = omega arith in rw same c
interrupts-Counted before n fn ((iar, tval) ∷ irqs) b small c =
    let one : ℕ = if is_tick iar then 1 else 0 in
    let sum : one + tick_count irqs + n ≡ tick_count irqs + (one + n) = omega arith in
    let b' = counted_down tval b in
    rw sum (
      interrupts-Counted before (one + n) fn irqs (el1_irq iar b') (omega (arith, small)) (
        el1_irq-Counted before n fn iar b' (omega (arith, small))
          (Counted-counted_down before n fn tval b c)))

interrupts-gic : (irqs : List (ℕ × ℕ)) (b : Board) → (interrupts irqs b).gic ≡ ended irqs b.gic
interrupts-gic [] b = refl
interrupts-gic ((iar, tval) ∷ irqs) b =
    interrupts-gic irqs (el1_irq iar (counted_down tval b))
    ∙ ap (ended irqs) (el1_irq-gic iar (counted_down tval b))

-- A tick sets the timer for a millisecond, whatever is left in its register; the frequency stays.
el1_irq-timer :
    (iar : ℕ) (b : Board)
    → let b' = el1_irq iar b in
      (b'.timer.cntv_tval_el0
        ≡ (if is_tick iar then b.timer.cntfrq / 1000 else b.timer.cntv_tval_el0))
      × (b'.timer.cntfrq ≡ b.timer.cntfrq)
unfolding el1_irq timer_irq_handler set_cntv
el1_irq-timer iar b = let low = bit_and_low 10 iar in ground (arith, low)

interrupts-timer :
    (irqs : List (ℕ × ℕ)) (b : Board)
    → (interrupts irqs b).timer.cntv_tval_el0
      ≡ left_over (b.timer.cntfrq / 1000) b.timer.cntv_tval_el0 irqs
interrupts-timer [] b = refl
interrupts-timer ((iar, tval) ∷ irqs) b =
    let (set, same) = el1_irq-timer iar (counted_down tval b) in
    interrupts-timer irqs (el1_irq iar (counted_down tval b)) ∙ rw (set, same) refl

kmain-Counted : (fn : ℕ) (b : Board) → b.jiffies ≡ 0 → Counted (kmain fn b).out 0 fn (kmain fn b)
unfolding kmain enter_el0 timer_init_1khz
kmain-Counted fn b zeroed = record {
  counted = zeroed;
  sent = sym (append-nil _);
  frequency = refl;
  enabled = refl;
  unmasked = refl;
  program = (refl, refl, refl);
}

kmain_timer :
    (user_loop : ℕ) (b : Board) (irqs : List (ℕ × ℕ))
    → let t = (kmain user_loop b).timer in
      let period = b.timer.cntfrq_el0 / 1000 in
      left_over (t.cntfrq / 1000) t.cntv_tval_el0 irqs ≡ left_over period period irqs
unfolding kmain enter_el0 timer_init_1khz read_cntfrq set_cntv enable_cntv
kmain_timer user_loop b irqs = refl

-- After kmain, with `jiffies` 0 at first, and any interrupts, with fewer ticks than `jiffies` can
-- count and anything left in the register of the timer when they come: `jiffies` is the number of
-- timer interrupts, every thousandth of them has sent its line and nothing else was sent, the timer
-- runs, its register is set for a millisecond by kmain and by every tick and left as it is by other
-- interrupts, the user program's registers stay, and the controller got the end of every interrupt
-- in turn, timer or not.
pub interrupts-kmain :
    (user_loop : ℕ) (b : Board) (irqs : List (ℕ × ℕ))
    → b.jiffies ≡ 0
    → tick_count irqs + 1 < 2 ^ 64
    → let started = kmain user_loop b in
      let b' = interrupts irqs started in
      let period = b.timer.cntfrq_el0 / 1000 in
      Counted started.out (tick_count irqs) user_loop b'
      × (b'.timer.cntv_tval_el0 ≡ left_over period period irqs)
      × (b'.gic ≡ ended irqs started.gic)
interrupts-kmain user_loop b irqs zeroed small =
    let started = kmain user_loop b in
    let whole : tick_count irqs + 0 ≡ tick_count irqs = omega arith in
    (
      subst (λ n. Counted started.out n user_loop (interrupts irqs started)) whole
          (interrupts-Counted started.out 0 user_loop irqs started (omega (arith, small))
            (kmain-Counted user_loop b zeroed)),
      interrupts-timer irqs started ∙ kmain_timer user_loop b irqs,
      interrupts-gic irqs started,
    )
