-- ===== src/Tests/Devices.antt =====
-- The UART, the block driver, the system calls and the interrupts at concrete inputs.
use kernel_fuzzing.Base.{
  ◌+◌, update, update_self, update_ne, ℕ, ◌%◌, ◌^◌, ◌≡◌, ◌≢◌, refl, true, false, some, List, [],
  ◌∷◌, ◌++◌, arith,
}
use kernel_fuzzing.Uart.{Text, uint2str, int2str, uart_printf}
use kernel_fuzzing.Uart.Decimal.{Decimal, uint2str-Decimal}
use kernel_fuzzing.Uart.Signed.{SignedForm, int2str-SignedForm}
use kernel_fuzzing.Uart.Format.{
  Piece, plain, int, long, string, format, arguments, render, uart_printf-render,
}
use kernel_fuzzing.Irq.{Machine, irq_dispatcher, virtual_gicc_base}
use kernel_fuzzing.Irq.Dispatch.{Dispatched, irq_dispatcher-Dispatched}
use kernel_fuzzing.Block.{
  Used, BlockData, Driver, Desc, block_read, block_write, virtio_blk_t_in, virtio_blk_t_out,
}
use kernel_fuzzing.Block.Transfer.{Handed}
use kernel_fuzzing.Block.Reported.{Answers, block_read_reported, block_write_reported}
use kernel_fuzzing.Tests.Tables.{block}
use kernel_fuzzing.Tests.Heap.{stack, booted, block-IsBlock, booted-IsHeap}
use kernel_fuzzing.Tests.Tasks.{last_tick, last_tick-Queued}

uint2str_example :
    (s : Text) × (uint2str [] 18446744073709551615 ≡ [] ++ s) × Decimal 18446744073709551615 s
uint2str_example = uint2str-Decimal [] 18446744073709551615 (omega arith)

-- The bits of -42.
int2str_example : SignedForm [] 4294967254 (int2str [] 4294967254)
int2str_example = int2str-SignedForm [] 4294967254 (omega arith)

abbrev letter : ℕ
letter = 110

not_percent : letter ≢ 37
not_percent e = ground arith

-- `n%d%l%s`
abbrev message : List Piece
message = plain letter not_percent ∷ (int 7 ∷ (long 8 ∷ (string (33 ∷ []) ∷ [])))

printf_example : uart_printf (format message) (arguments message) [] ≡ some (render [] message)
printf_example = uart_printf-render message []

abbrev machine : Machine
machine = record { sched = last_tick; gic = [] }

irq_dispatcher-Dispatched_example :
    let (context', m') = irq_dispatcher 27 0 77 machine in
    (m'.gic ≡ (virtual_gicc_base + 0x010, 27) ∷ [])
    × Dispatched 27 0 77 machine.sched 0x2000 (0x1000 ∷ []) (context', m'.sched)
irq_dispatcher-Dispatched_example =
    irq_dispatcher-Dispatched 27 0 77 machine 0x2000 (0x1000 ∷ []) last_tick-Queued

abbrev slots : List ℕ → BlockData
slots used = record { global_count = 0; used_request_index = used }

abbrev pub eleven : List ℕ
eleven = 0 ∷ (0 ∷ (0 ∷ (0 ∷ (0 ∷ (0 ∷ (0 ∷ (0 ∷ (0 ∷ (0 ∷ (0 ∷ []))))))))))

abbrev no_desc : ℕ → Desc
no_desc i = record { addr = 0; len = 0; flags = 0; next = 0 }

abbrev pub driver : Driver
driver = record {
  slots = slots (0 ∷ eleven);
  desc = no_desc;
  avail_flags = 0;
  avail_idx = 0;
  avail_ring = λ i. 0;
  requests = λ a. record { type = 0; reserved = 0; sector = 0 };
  notified = [];
  used = record { idx = 0; ring = λ i. record { id = 0; len = 0 } };
  heap = booted;
}

-- A device that answers the chain at 0 with a length.
abbrev pub answering : (reported : ℕ) → Used → Used
answering reported u = record {
  idx = (u.idx + 1) % 2 ^ 16;
  ring = update u.ring (u.idx % 12) (record { id = 0; len = reported });
}

answering-Answers : (reported : ℕ) → Answers (answering reported) 0 reported
answering-Answers reported = record {
  counted = λ u. refl;
  entry = λ u. update_self u.ring (u.idx % 12) _;
  others = λ u i h. update_ne u.ring (u.idx % 12) _ i h;
}

-- The second answer goes to entry 1, so the length of the first one comes back.
abbrev second : Driver
second = record driver { used = answering 513 driver.used }

block_read_reported_example :
    (s' : Driver) × (block_read block stack (answering 100) 1000 0xFFFF0000C0002000 512 second
      ≡ some (513, s'))
    × Handed block 0 0 virtio_blk_t_in (512 % 2 ^ 32) 1000 0xFFFF0000C0002000 eleven true second s'
    × (s'.used.idx ≡ 2)
unfolding update
block_read_reported_example =
    block_read_reported block block-IsBlock stack refl 0 (omega arith) second booted-IsHeap eleven
      refl (answering 100) 100 (answering-Answers 100) 1000 0xFFFF0000C0002000 512

block_write_reported_example :
    (s' : Driver) × (block_write block stack (answering 1) 1000 0xFFFF0000C0002000 100 driver
      ≡ some (1, s'))
    × Handed block 0 0 virtio_blk_t_out 512 1000 0xFFFF0000C0002000 eleven false driver s'
    × (s'.used.idx ≡ 1)
block_write_reported_example =
    block_write_reported block block-IsBlock stack refl 0 (omega arith) driver booted-IsHeap eleven
      refl (answering 1) 1 (answering-Answers 1) 1000 0xFFFF0000C0002000 100
