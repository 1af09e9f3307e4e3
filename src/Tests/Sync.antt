-- ===== src/Tests/Sync.antt =====
-- The spinlock with two processors, and the start of the virtio device with one that keeps what is
-- written.
use kernel_fuzzing.Base.{ℕ, ◌+◌, ◌≡◌, refl, true, false, List, [], ◌∷◌, arith}
use kernel_fuzzing.Base.{update}
use kernel_fuzzing.Spinlock.{step, step_at, store_exclusive, load_exclusive, run, unlocked, holds}
use kernel_fuzzing.Spinlock.Exclusion.{run_exclusive}
use kernel_fuzzing.PageTable.{virtio_reg_range}
use kernel_fuzzing.Virtio.{Device, Virtio, init_virtio_driver}
use kernel_fuzzing.Virtio.Handshake.{KeepsStatus, init_virtio_driver-statuses, last, written}

-- Both see the lock free; processor 2 stores first, and processor 1 has to start again.
abbrev turns : List ℕ
turns = 1 ∷ (2 ∷ (1 ∷ (2 ∷ (2 ∷ (1 ∷ (2 ∷ (1 ∷ (2 ∷ []))))))))

turns-holds : holds ((run unlocked turns).place 2) ≡ true
unfolding run step step_at store_exclusive load_exclusive update
turns-holds = refl

run_exclusive_example : holds ((run unlocked turns).place 1) ≡ false
run_exclusive_example = run_exclusive turns 2 1 turns-holds (λ e. ground arith)

abbrev disk : Virtio
disk = record {
  virtio_base = virtio_reg_range;
  virtual_virtq_desc = 0xFFFF0000C0001000;
  virtual_virtq_avail = 0xFFFF0000C0002000;
  virtual_virtq_used = 0xFFFF0000C0003000;
  physical_virtq_desc = 0xC0001000;
  physical_virtq_avail = 0xC0002000;
  physical_virtq_used = 0xC0003000;
}

abbrev register_file : Device
register_file h address = last (written address h)

register_file-KeepsStatus : KeepsStatus register_file disk
register_file-KeepsStatus h = refl

init_virtio_driver_example :
    written (virtio_reg_range + 0x070) (init_virtio_driver register_file disk [])
    ≡ 15 ∷ (11 ∷ (3 ∷ (1 ∷ (0 ∷ []))))
init_virtio_driver_example =
    init_virtio_driver-statuses register_file disk (omega arith) register_file-KeepsStatus []
