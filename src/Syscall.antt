-- ===== src/Syscall.antt =====
-- `syscall_dispatcher` of kernel/core/handlers.c over the heap and the block driver.
use kernel_fuzzing.Base.{
  ℕ, ◌+◌, ◌≤◌, ◌≡◌, true, false, Option, none, some, List, ◌∷◌, ◌==◌, if◌then◌else◌, length, arith,
}
use kernel_fuzzing.PageAlloc.{BitIndex}
use kernel_fuzzing.Kmalloc.{kmalloc}
use kernel_fuzzing.Kmalloc.Mapping.{IsBlock}
use kernel_fuzzing.Kmalloc.Laws.{IsHeap}
use kernel_fuzzing.Block.{Used, Driver, block_read, block_write, virtio_blk_t_in, virtio_blk_t_out}
use kernel_fuzzing.Block.Transfer.{Handed, block_read-Handed, block_write-Handed}

-- `array` is the address of the local array that the read fills; the device answers the write with
-- `written` and the read with `read`, what it does to the used ring. The arguments 4 to 7 are never used.
unfoldable pub syscall_dispatcher :
    (block : ℕ) (stack : List BitIndex) (written read : Used → Used) (array : ℕ)
    (arg1 arg2 arg3 syscall_number : ℕ)
    → Driver
    → Option (ℕ × Driver)
syscall_dispatcher block stack written read array arg1 arg2 arg3 syscall_number s =
    if syscall_number == 5
    then elim (kmalloc block stack s.heap arg1) [
      | none ↦ none
      | some (va, heap) ↦ some (va, record s { heap = heap })
    ]
    else if syscall_number == 64
    then elim (block_write block stack written 1000 arg2 arg3 s) [
      | none ↦ none
      | some (_, s') ↦ block_read block stack read 1000 array 512 s'
    ]
    else some (0, s)

-- System call 64, with the first slot free and room for four pages on the heap, returns the length
-- in entry 0 of the used ring, after a write request and a read request for sector 1000,
-- and gives the slot back.
pub syscall_dispatcher-write :
    (block : ℕ)
    → IsBlock block
    → (stack : List BitIndex) → length stack ≡ 64
    → (n : ℕ) → n + 4 ≤ 512
    → (s : Driver) → IsHeap block n s.heap
    → (rest : List ℕ) → s.slots.used_request_index ≡ 0 ∷ rest
    → (written read : Used → Used) (array arg1 arg2 arg3 : ℕ)
    → (mid s' : Driver) × (syscall_dispatcher block stack written read array arg1 arg2 arg3 64 s
        ≡ some ((s'.used.ring 0).len, s'))
      × Handed block n 0 virtio_blk_t_out 512 1000 arg2 rest false s mid
      × Handed block (n + 2) 0 virtio_blk_t_in 512 1000 array rest true mid s'
unfolding syscall_dispatcher
syscall_dispatcher-write block ok stack frame n room s heap rest free written read array arg1 arg2
      arg3 =
    let (mid, e, h, _) =
      block_write-Handed block ok stack frame n (omega arith) s heap rest free written 1000 arg2
        arg3 in
    let (s', e', h', _) =
      block_read-Handed block ok stack frame (n + 2) (omega arith) mid h.heap rest h.slots read 1000
        array 512 in
    (mid, s', rw (syscall_dispatcher, e) e', h, h')
