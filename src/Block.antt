-- ===== src/Block.antt =====
-- The block driver of kernel/drivers/block/block_driver.c: request slots, descriptor chains and the
-- rings of the virtio queue (kernel/drivers/virtio_blk/virtio_blk.h). One request runs at a time:
-- the lock is free when it is taken.
pub mod Slots
pub mod Chain
pub mod Release
pub mod Transfer
pub mod Backend
pub mod Flight
pub mod Disk
pub mod Unseen
pub mod Reported
use kernel_fuzzing.Base.{
  ℕ, zero, suc, ◌+◌, ◌*◌, ◌%◌, ◌^◌, bit_or, Bool, true, false, Option, none, some, List, [], ◌∷◌,
  update, ltb, ◌==◌, if◌then◌else◌, length, set, get_elem?,
}
use kernel_fuzzing.PageAlloc.{BitIndex}
use kernel_fuzzing.PageTable.{kernal_to_user_space}
use kernel_fuzzing.Kmalloc.{Kernel, kmalloc}

-- `used_request_index` is the array of 12 bytes.
pub record BlockData : Type 0 where
  pub global_count : ℕ
  pub used_request_index : List ℕ

-- `struct virtq_dec`
pub record Desc : Type 0 where
  pub addr : ℕ
  pub len : ℕ
  pub flags : ℕ
  pub next : ℕ

-- `struct virtio_blk_req`
pub record Request : Type 0 where
  pub type : ℕ
  pub reserved : ℕ
  pub sector : ℕ

-- `struct virtq_used_elem` and `struct virtq_used`, which the device writes.
pub record UsedElem : Type 0 where
  pub id : ℕ
  pub len : ℕ

pub record Used : Type 0 where
  pub idx : ℕ
  pub ring : ℕ → UsedElem

-- The driver's data, the descriptor table by index, the two rings, the requests in memory by their
-- address, the writes of QueueNotify (the last one first), and the heap. Descriptors, rings and
-- requests are kept apart from each other and from the bytes of buffers.
pub record Driver : Type 0 where
  pub slots : BlockData
  pub desc : ℕ → Desc
  pub avail_flags : ℕ
  pub avail_idx : ℕ
  pub avail_ring : ℕ → ℕ
  pub requests : ℕ → Request
  pub notified : List ℕ
  pub used : Used
  pub heap : Kernel

abbrev pub virtio_blk_t_in : ℕ
virtio_blk_t_in = 0

abbrev pub virtio_blk_t_out : ℕ
virtio_blk_t_out = 1

abbrev pub desc_f_next : ℕ
desc_f_next = 1

abbrev pub desc_f_write : ℕ
desc_f_write = 2

-- The loop of `find_free_index`, from entry `i` on.
unfoldable pub find_free_from : ℕ → List ℕ → Option ℕ
find_free_from i [] = none
find_free_from i (used ∷ rest) =
    let later = find_free_from (i + 1) rest in if used == 0 then some i else later

-- `none` is -1.
unfoldable pub find_free_index : BlockData → Option ℕ × BlockData
find_free_index b = elim (find_free_from 0 b.used_request_index) [
  | none ↦ (none, b)
  | some i ↦ (
    some (i * 3),
    record {
      global_count = (b.global_count + 1) % 2 ^ 8;
      used_request_index = set b.used_request_index i 1;
    },
  )
]

-- The three descriptors of a request at `index`. The `next` of the last one stays as it is.
unfoldable pub fill_chain : (index req buffer status len flags : ℕ) → (ℕ → Desc) → ℕ → Desc
fill_chain index req buffer status len flags desc =
    let d = update desc index (record {
      addr = kernal_to_user_space req;
      len = 16;
      flags = desc_f_next;
      next = (index + 1) % 2 ^ 16;
    }) in
    let d = update d (index + 1) (record {
      addr = kernal_to_user_space buffer;
      len = len % 2 ^ 32;
      flags = flags;
      next = (index + 2) % 2 ^ 16;
    }) in
    update d (index + 2)
      (record (d (index + 2)) { addr = kernal_to_user_space status; len = 1; flags = desc_f_write })

-- From the lock to the unlock, with the index that `find_free_index` gave.
unfoldable pub publish : (index : ℕ) → Driver → Driver
publish index s = record s {
  avail_flags = 1;
  avail_ring = update s.avail_ring index (index % 2 ^ 16);
  avail_idx = (s.avail_idx + 1) % 2 ^ 16;
  notified = 0 ∷ s.notified;
}

module _ (block : ℕ) (stack : List BitIndex) where
  -- A request up to the notification of the device: its index and the state. `none` is a request
  -- that never returns, since every slot is in use, or a `kmalloc` past its array.
  unfoldable pub submit : (type len flags sector buffer : ℕ) → Driver → Option (ℕ × Driver)
  submit type len flags sector buffer s = elim (kmalloc block stack s.heap 16) [
    | none ↦ none
    | some (req, heap) ↦
        let (found, taken) = find_free_index s.slots in
        elim found [
          | none ↦ none
          | some index ↦ elim (kmalloc block stack heap 1) [
            | none ↦ none
            | some (status, heap') ↦ some (
              index,
              publish index (record s {
                slots = taken;
                desc = fill_chain index req buffer status len flags s.desc;
                requests =
                    update s.requests req
                      (record { type = type; reserved = 0; sector = sector % 2 ^ 32 });
                heap = heap';
              }),
            )
          ]
        ]
  ]

  unfoldable pub submit_read : (sector buffer size : ℕ) → Driver → Option (ℕ × Driver)
  submit_read sector buffer size s =
      submit virtio_blk_t_in size (bit_or desc_f_next desc_f_write) sector buffer s

  -- The length is 512, whatever the size.
  unfoldable pub submit_write : (sector buffer size : ℕ) → Driver → Option (ℕ × Driver)
  submit_write sector buffer size s = submit virtio_blk_t_out 512 desc_f_next sector buffer s

-- `used_request_index[free_index] = 0`; a write past the array is `none`.
unfoldable pub release : (index : ℕ) → BlockData → Option BlockData
release index b =
    if ltb index (length b.used_request_index)
    then some (record b { used_request_index = set b.used_request_index index 0 })
    else none

-- `answer` is what the device does to the used ring until its `idx` is another one. The length is
-- read from the ring at the index of the request, wherever the device has put its answer.
unfoldable pub complete : (answer : Used → Used) → ℕ × Driver → Option (ℕ × Driver)
complete answer (index, s) =
    let used = answer s.used in
    elim (release index s.slots) [
      | none ↦ none
      | some b ↦ some ((used.ring index).len, record s { slots = b; used = used })
    ]

unfoldable pub block_read :
    (block : ℕ) (stack : List BitIndex) (answer : Used → Used) (sector buffer size : ℕ)
    → Driver
    → Option (ℕ × Driver)
block_read block stack answer sector buffer size s =
    elim (submit_read block stack sector buffer size s) [ none ↦ none | some r ↦ complete answer r ]

unfoldable pub block_write :
    (block : ℕ) (stack : List BitIndex) (answer : Used → Used) (sector buffer size : ℕ)
    → Driver
    → Option (ℕ × Driver)
block_write block stack answer sector buffer size s =
    elim (submit_write block stack sector buffer size s) [
      | none ↦ none
      | some r ↦ complete answer r
    ]
