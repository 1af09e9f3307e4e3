-- ===== src/User/Disk.antt =====
-- What the user processes of kernel/core/kmain.c bring to the disk, with a device that serves
-- requests as the virtio standard describes.
use kernel_fuzzing.Base.{
  ℕ, ◌+◌, ◌^◌, ◌≤◌, ◌<◌, ◌≡◌, ◌⊎◌, ◌∙◌, refl, some, List, ◌∷◌, length, update, arith,
}
use kernel_fuzzing.Base.Bits.{bit_and_low}
use kernel_fuzzing.PageAlloc.{BitIndex}
use kernel_fuzzing.PageTable.{kernal_to_user_space}
use kernel_fuzzing.Kmalloc.Mapping.{IsBlock, heap_pa}
use kernel_fuzzing.Kmalloc.Laws.{IsHeap}
use kernel_fuzzing.Block.{Used, Driver}
use kernel_fuzzing.Block.Disk.{World, Serves, ZeroRing, Stored, served-Stored}
use kernel_fuzzing.Syscall.{syscall_dispatcher-write}
use kernel_fuzzing.User.{Svc, sys_write, user_process1, user_process2, handle}

physical_user : (test : ℕ) → test < 2 ^ 48 → kernal_to_user_space test ≡ test
unfolding kernal_to_user_space
physical_user test small = bit_and_low 48 test ∙ omega (arith, small)

user_process1_bytes :
    (test : ℕ) (m : ℕ → ℕ) (i : ℕ) → i < 5 → (user_process1 test m).0 (test + i) ≡ 65
unfolding user_process1 update
user_process1_bytes test m i small = ground arith

user_process2_bytes :
    (test : ℕ) (m : ℕ → ℕ) (i : ℕ) → 4 ≤ i → i < 9 → (user_process2 test m).0 (test + i) ≡ 67
unfolding user_process2 update
user_process2_bytes test m i low high = ground arith

module _ (block : ℕ) (stack : List BitIndex) (n : ℕ) (s : Driver) (serve : Driver → World → World)
    (written read : Used → Used) (array : ℕ) where
  -- The call is handled, and the 512 bytes from `test` on are in sector 1000 and in the array of the
  -- kernel.
  abbrev pub Brought : World → (test : ℕ) (memory : ℕ → ℕ) → Svc → Type 0
  Brought w test memory svc =
      (mid s' : Driver) × (handle block stack written read array svc s
        ≡ some ((s'.used.ring 0).len, s'))
      × let before : World = record { memory = memory; disk = w.disk } in
        Stored before (serve s' (serve mid before)) n 1000 test (kernal_to_user_space array)

module _ (block : ℕ) (ok : IsBlock block) (stack : List BitIndex) (frame : length stack ≡ 64)
    (n : ℕ) (room : n + 4 ≤ 512) (s : Driver) (heap : IsHeap block n s.heap) (rest : List ℕ)
    (free : s.slots.used_request_index ≡ 0 ∷ rest) (zero_ring : ZeroRing s)
    (serve : Driver → World → World) (device : Serves serve) (written read : Used → Used)
    (array : ℕ)
    (apart : let p = kernal_to_user_space array in
      (p + 512 ≤ heap_pa (n + 1)) ⊎ (heap_pa (n + 3) < p)) where
  write-Brought :
      (w : World) (test : ℕ) (memory : ℕ → ℕ)
      → test < 2 ^ 48
      → Brought block stack n s serve written read array w test memory (sys_write 1 test 512)
  unfolding handle sys_write
  write-Brought w test memory small =
      let (mid, s', e, h, h') =
        syscall_dispatcher-write block ok stack frame n room s heap rest free written read array 1
          test 512 in
      (
        mid,
        s',
        e,
        served-Stored serve device (record { memory = memory; disk = w.disk }) block n rest s mid s'
            zero_ring 1000 test array test (kernal_to_user_space array) h h' (omega arith)
            (physical_user test small) refl apart,
      )

  -- On a well-formed heap with room for four pages, with the first slot free, zeros in the ring, a
  -- device that serves a request as the standard describes before the driver goes on, a local array
  -- of the kernel apart from the pages of the requests, and the array of the process below 2 ^ 48:
  -- the system call of either process brings the 512 bytes from its array on to sector 1000, and
  -- from there to the kernel's array. The first five bytes of process 1 are `A`, and the bytes 4 to
  -- 8 of process 2 are `C`.
  pub user_process-Brought :
      (w : World) (test : ℕ)
      → test < 2 ^ 48
      → let (memory1, svc1) = user_process1 test w.memory in
        let (memory2, svc2) = user_process2 test w.memory in
        Brought block stack n s serve written read array w test memory1 svc1
        × Brought block stack n s serve written read array w test memory2 svc2
        × ((i : ℕ) → i < 5 → memory1 (test + i) ≡ 65)
        × ((i : ℕ) → 4 ≤ i → i < 9 → memory2 (test + i) ≡ 67)
  unfolding user_process1 user_process2
  user_process-Brought w test small = (
    write-Brought w test (user_process1 test w.memory).0 small,
    write-Brought w test (user_process2 test w.memory).0 small,
    (λ i h. user_process1_bytes test w.memory i h),
    (λ i low high. user_process2_bytes test w.memory i low high),
  )
