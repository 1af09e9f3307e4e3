-- ===== src/Irq.antt =====
-- Interrupts: `irq_dispatcher` of kernel/core/handlers.c and the interrupt controller of
-- kernel/drivers/irq/gicv2.c. What the controller and the processor hold when an interrupt comes,
-- the acknowledge register and SPSR_EL1, are arguments.
pub mod Dispatch
use kernel_fuzzing.Base.{
  ℕ, ◌+◌, ◌*◌, ◌/◌, ◌%◌, ◌^◌, bit_and, Bool, List, [], ◌∷◌, ◌==◌, if◌then◌else◌,
}
use kernel_fuzzing.Sched.{Sched, schedule_on_tick, set_cntv}
use kernel_fuzzing.PageTable.Init.{virtual_gicd_base}

abbrev pub virtual_gicc_base : ℕ
virtual_gicc_base = 0xffff000081410000

-- The writes to the controller, the last one first: an address and a 32-bit value.
abbrev pub Writes : Type 0
Writes = List (ℕ × ℕ)

unfoldable pub w32 : ℕ → ℕ → Writes → Writes
w32 a v done = (a, v % 2 ^ 32) ∷ done

abbrev pub irq_vtimer : ℕ
irq_vtimer = 27

unfoldable pub gic_init : Writes → Writes
gic_init done =
    let done = w32 (virtual_gicd_base + 0x000) 1 done in
    let done = w32 (virtual_gicd_base + 0x100) (2 ^ irq_vtimer) done in
    let done = w32 (virtual_gicc_base + 0x000) 1 done in w32 (virtual_gicc_base + 0x004) 0xf0 done

unfoldable pub gic_eoi : ℕ → Writes → Writes
gic_eoi irq done = w32 (virtual_gicc_base + 0x010) irq done

-- `ubfx` takes bits 3 and 2 of SPSR_EL1: the level that the interrupt came from.
unfoldable pub check_current_el : ℕ → Bool
check_current_el spsr = spsr / 2 ^ 2 % 2 ^ 2 == 1

unfoldable pub timer_irq_handler : Sched → Sched
timer_irq_handler s = record s { timer = set_cntv s.timer }

-- The state of the machine that the dispatcher changes.
pub record Machine : Type 0 where
  pub sched : Sched
  pub gic : Writes

-- `iar` is what `gic_ack` reads.
unfoldable pub irq_dispatcher : (iar spsr : ℕ) → (context : ℕ) → Machine → ℕ × Machine
irq_dispatcher iar spsr context m =
    let id = bit_and iar 0x3FF in
    if id == 27
    then (let s = timer_irq_handler m.sched in
        if check_current_el spsr
        then (context, record { sched = s; gic = gic_eoi iar m.gic })
        else (let (context', s') = schedule_on_tick context s in
            (context', record { sched = s'; gic = gic_eoi iar m.gic })))
    else (context, record { sched = m.sched; gic = gic_eoi iar m.gic })
