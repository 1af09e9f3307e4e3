-- ===== src/Interrupts.antt =====
-- The kernel of kernel-interrupts/: one user program, and a timer whose interrupts are counted.
-- core/timer.c, core/kmain.c and drivers/irq/gicv2.c; the interrupt controller is written as in
-- kernel/, at its physical address. What `gic_ack` reads is an argument.
pub mod Counting
use kernel_fuzzing.Base.{
  ℕ, ◌+◌, ◌/◌, ◌%◌, ◌^◌, bit_and, Bool, true, false, List, [], ◌∷◌, ◌==◌, if◌then◌else◌,
}
use kernel_fuzzing.Base.Codes.{codes}
use kernel_fuzzing.Sched.{Timer}
use kernel_fuzzing.Uart.{Text, Registers, uart_init, uart_puts}
use kernel_fuzzing.PageTable.Init.{gicd_base}
use kernel_fuzzing.Irq.{Writes, w32, irq_vtimer}

abbrev pub gicc_base : ℕ
gicc_base = 0x08010000

unfoldable pub gic_init : Writes → Writes
gic_init done =
    let done = w32 (gicd_base + 0x000) 1 done in
    let done = w32 (gicd_base + 0x100) (2 ^ irq_vtimer) done in
    let done = w32 (gicc_base + 0x000) 1 done in w32 (gicc_base + 0x004) 0xf0 done

unfoldable pub gic_eoi : ℕ → Writes → Writes
gic_eoi irq done = w32 (gicc_base + 0x010) irq done

unfoldable pub read_cntfrq : Timer → Timer
read_cntfrq t = record t { cntfrq = t.cntfrq_el0 }

unfoldable pub set_cntv : Timer → Timer
set_cntv t = record t { cntv_tval_el0 = t.cntfrq / 1000 }

unfoldable pub enable_cntv : Timer → Timer
enable_cntv t = record t { cntv_ctl_el0 = 1 }

unfoldable pub timer_init_1khz : Timer → Timer
unfolding read_cntfrq set_cntv enable_cntv
timer_init_1khz t = enable_cntv (set_cntv (read_cntfrq t))

-- What the kernel changes: the devices, `jiffies`, what it has sent, and the registers of the
-- processor for the user program.
pub record Board : Type 0 where
  pub uart : Registers
  pub out : Text
  pub gic : Writes
  pub timer : Timer
  pub jiffies : ℕ
  pub irq_masked : Bool
  pub sp_el0 : ℕ
  pub spsr_el1 : ℕ
  pub elr_el1 : ℕ

abbrev pub tick_message : Text
tick_message = codes "Done one Tick, we are in EL1\n"

unfoldable pub timer_irq_handler : Board → Board
timer_irq_handler b =
    let jiffies = (b.jiffies + 1) % 2 ^ 64 in
    record b {
      jiffies = jiffies;
      out = if jiffies % 1000 == 0 then uart_puts b.out tick_message else b.out;
      timer = set_cntv b.timer;
    }

unfoldable pub el1_irq : (iar : ℕ) → Board → Board
el1_irq iar b =
    let id = bit_and iar 0x3FF in
    let b = if id == 27 then timer_irq_handler b else b in record b { gic = gic_eoi iar b.gic }

-- `eret` then goes on at `elr_el1`.
unfoldable pub enter_el0 : (fn : ℕ) → Board → Board
enter_el0 fn b = record b {
  sp_el0 = 0x40020000;
  spsr_el1 = 0;
  elr_el1 = fn;
  out = uart_puts b.out (codes "EL1: all set now -> (EL0)\n");
}

unfoldable pub kmain : (user_loop : ℕ) → Board → Board
kmain user_loop b =
    let b = record b { uart = uart_init b.uart } in
    let b = record b { out = uart_puts b.out (codes "\r\nEL1: Kernel Starting\n") } in
    let b = record b { gic = gic_init b.gic; timer = timer_init_1khz b.timer } in
    let b = record b { out = uart_puts b.out (codes "EL1: enable irq\n") } in
    let b = record b { irq_masked = false } in
    enter_el0 user_loop
      (record b { out = uart_puts b.out (codes "EL1: jump into user function (EL0)\n") })
