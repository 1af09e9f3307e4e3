-- ===== src/User.antt =====
-- The two user processes of kernel/core/kmain.c up to their loops, and how their system call comes
-- to the kernel. The operands of the assembly in `sys_write` are taken to be in the registers where
-- the arguments of a function stand; el0_sync_entry of kernel/arch/aarch64/vectors.s hands on `x8`
-- as the last argument.
pub mod Disk
use kernel_fuzzing.Base.{ℕ, ◌+◌, Option, List, update}
use kernel_fuzzing.PageAlloc.{BitIndex}
use kernel_fuzzing.Block.{Used, Driver}
use kernel_fuzzing.Syscall.{syscall_dispatcher}

-- The registers at `svc #0`.
pub record Svc : Type 0 where
  pub x0 : ℕ
  pub x1 : ℕ
  pub x2 : ℕ
  pub x8 : ℕ

unfoldable pub sys_write : (fd buff size : ℕ) → Svc
sys_write fd buff size = record { x0 = fd; x1 = buff; x2 = size; x8 = 64 }

-- `test` is the address of the array of five characters on the process's stack. The pages of a
-- process are mapped to themselves, so memory is the physical memory.
unfoldable pub user_process1 : (test : ℕ) → (ℕ → ℕ) → (ℕ → ℕ) × Svc
user_process1 test m =
    let m = update m test 65 in
    let m = update m (test + 1) 65 in
    let m = update m (test + 2) 65 in
    let m = update m (test + 3) 65 in let m = update m (test + 4) 65 in (m, sys_write 1 test 512)

unfoldable pub user_process2 : (test : ℕ) → (ℕ → ℕ) → (ℕ → ℕ) × Svc
user_process2 test m =
    let m = update m (test + 4) 67 in
    let m = update m (test + 5) 67 in
    let m = update m (test + 6) 67 in
    let m = update m (test + 7) 67 in let m = update m (test + 8) 67 in (m, sys_write 1 test 512)

-- The call in the kernel.
unfoldable pub handle :
    (block : ℕ) (stack : List BitIndex) (written read : Used → Used) (array : ℕ)
    → Svc
    → Driver
    → Option (ℕ × Driver)
handle block stack written read array svc s =
    syscall_dispatcher block stack written read array svc.x0 svc.x1 svc.x2 svc.x8 s
