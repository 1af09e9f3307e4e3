-- ===== src/Block/Backend.antt =====
-- `init_virtio_backend` of kernel/drivers/block/block_driver.c: the memory of the driver, the search
-- for the device and its start.
pub mod Started
pub mod Found
use kernel_fuzzing.Base.{
  ℕ, zero, suc, ◌+◌, ◌*◌, ◌≤◌, ◌<◌, ◌≡◌, ◌≢◌, ◌⊎◌, inl, inr, dec_lt, ℕ_discrete, refl, ◌∙◌, sym, ap,
  subst, Bool, true, false, Option, none, some, List, [], ◌∷◌, ◌==◌, ◌>>=◌, if◌then◌else◌, length,
  arith, bit_and,
}
use kernel_fuzzing.Base.Bits.{bit_and_low, bit_and_comm}
use kernel_fuzzing.PageAlloc.{BitIndex}
use kernel_fuzzing.PageTable.{convert_to_physical, add_virtio_page}
use kernel_fuzzing.Kmalloc.{Kernel, kmalloc}
use kernel_fuzzing.Kmalloc.Mapping.{IsBlock, heap_pa, heap_va}
use kernel_fuzzing.Kmalloc.Laws.{IsHeap}
use kernel_fuzzing.Kmalloc.Pages.{kmalloc_page, IsApart, IsHeap-Agree, Agree-add_virtio_page}
use kernel_fuzzing.Virtio.{Device, History, Virtio, find_device, init_virtio_driver}
use kernel_fuzzing.Block.{BlockData, Driver}

-- The driver with what `init_virtio_backend` sets up around it: the word of the lock, the four
-- addresses it keeps, the structure of the device, and the accesses to the registers.
pub record Backend : Type 0 where
  pub driver : Driver
  pub lock : ℕ
  pub global_virtio_address : List ℕ
  pub virtio : Virtio
  pub history : History

abbrev pub virtq_max_requests : ℕ
virtq_max_requests = 24

-- `for (int i = 0; i < 12; i++) used_request_index[i] = 0`
unfoldable pub cleared : ℕ → List ℕ
cleared zero = []
cleared (suc left) = 0 ∷ cleared left

-- The structures are packed: 13 bytes for BlockData, 4 for SpinLock, 56 for virtio, 16, 30 and 4 for
-- the entries of the three rings, 28 for virtq.
module _ (block : ℕ) (stack : List BitIndex) where
  -- The calls of `kmalloc` up to the rings; the addresses of the device's structure and the rings.
  unfoldable pub allocate_structures : Kernel → Option ((ℕ × ℕ × ℕ × ℕ) × Kernel)
  allocate_structures k = do
    (block_data, k) ← kmalloc block stack k 13
    (lock, k) ← kmalloc block stack k 4
    (virtio_obj, k) ← kmalloc block stack k 56
    (desc, k) ← kmalloc block stack k (16 * virtq_max_requests)
    (avail, k) ← kmalloc block stack k (30 * virtq_max_requests)
    (used, k) ← kmalloc block stack k (4 * virtq_max_requests)
    some ((virtio_obj, desc, avail, used), k)

module _ (block : ℕ) (stack : List BitIndex) (device : Device) where
  -- From the search on, with the addresses of the rings.
  unfoldable pub start_device : (desc avail used : ℕ) → Backend → Option Backend
  start_device desc avail used b =
      let (device_reg, h) = find_device device b.history in
      if device_reg == 0 then some (record b { history = h }) else (do
        (queue, k) ← kmalloc block stack b.driver.heap 28
        let v : Virtio = record {
          virtio_base = device_reg;
          virtual_virtq_desc = desc;
          virtual_virtq_avail = avail;
          virtual_virtq_used = used;
          physical_virtq_desc = convert_to_physical desc;
          physical_virtq_avail = convert_to_physical avail;
          physical_virtq_used = convert_to_physical used;
        }
        some (record b {
          driver = record b.driver { heap = k };
          virtio = v;
          history = init_virtio_driver device v h;
        }))

  unfoldable pub init_virtio_backend : (drive_info_register : ℕ) → Backend → Option Backend
  init_virtio_backend drive_info_register b = do
    ((virtio_obj, desc, avail, used), k) ← allocate_structures block stack b.driver.heap
    let heap = record k { memory = add_virtio_page k.memory drive_info_register }
    let slots : BlockData = record { global_count = 0; used_request_index = cleared 12 }
    start_device desc avail used (record b {
      driver = record b.driver { slots = slots; heap = heap };
      lock = 0;
      global_virtio_address = virtio_obj ∷ desc ∷ avail ∷ used ∷ [];
    })
