-- ===== src/Block/Disk.antt =====
-- What `block_write` and `block_read` of kernel/drivers/block/block_driver.c do to the disk, with a
-- device that serves requests as the virtio standard describes.
use kernel_fuzzing.Base.{
  ℕ, ◌+◌, ◌-◌, ◌*◌, ◌%◌, ◌^◌, ◌≤◌, ◌<◌, ◌≡◌, ◌⊎◌, inl, ◌∙◌, ◌&&◌, refl, ap, subst, Bool, true,
  false, some, List, [], ◌∷◌, ◌==◌, leb, ltb, if◌then◌else◌, length, arith, ℕ_discrete,
}
use kernel_fuzzing.PageAlloc.{BitIndex}
use kernel_fuzzing.Kmalloc.{kernel_bits}
use kernel_fuzzing.Kmalloc.Mapping.{IsBlock, heap_pa, heap_va}
use kernel_fuzzing.Kmalloc.Laws.{IsHeap}
use kernel_fuzzing.Kmalloc.Pages.{physical_heap}
use kernel_fuzzing.PageTable.{kernal_to_user_space}
use kernel_fuzzing.Block.{Used, Driver, Request, block_read, block_write}
use kernel_fuzzing.Block.Chain.{chain}
use kernel_fuzzing.Block.Transfer.{Handed, block_read-Handed, block_write-Handed}

-- The bytes of the physical memory, and of the disk in sectors of 512.
pub record World : Type 0 where
  pub memory : ℕ → ℕ
  pub disk : ℕ → ℕ

-- The entry of the available ring that the device takes next: the one before `idx`, in a ring of
-- 12, the size that the driver gives to it.
abbrev pub next_head : Driver → ℕ
next_head s = s.avail_ring ((s.avail_idx + (2 ^ 16 - 1)) % 2 ^ 16 % 12)

abbrev pub within : (start len a : ℕ) → Bool
within start len a = leb start a && ltb a (start + len)

-- A chain with a request at `header`, a buffer and a status byte.
abbrev pub Chained : Driver → (header buffer len status : ℕ) (writes : Bool) → Type 0
Chained s header buffer len status writes =
    chain 4 s.desc (next_head s)
    ≡ record { addr = header; len = 16; device_writes = false }
      ∷ (record { addr = buffer; len = len; device_writes = writes }
          ∷ (record { addr = status; len = 1; device_writes = true } ∷ []))

-- The disk after a buffer is copied to a sector, and the memory after a sector is copied to a
-- buffer and the status byte is set.
abbrev pub disk_after : World → (sector buffer len a : ℕ) → ℕ
disk_after w sector buffer len a =
    if within (sector * 512) len a then w.memory (buffer + (a - sector * 512)) else w.disk a

abbrev pub memory_after : World → (sector buffer len status a : ℕ) → ℕ
memory_after w sector buffer len status a =
    if a == status
    then 0
    else if within buffer len a
    then w.disk (sector * 512 + (a - buffer))
    else w.memory a

abbrev pub request_of : (type sector : ℕ) → Request
request_of type sector = record { type = type; reserved = 0; sector = sector }

-- What the standard says of a block device: a request of type 1 copies the buffer to the disk from
-- its sector on, one of type 0 the other way, and both set the status byte to 0. The request is
-- read at its physical address.
pub record Serves (serve : Driver → World → World) : Type 0 where
  pub write :
      (s : Driver) (w : World) (header buffer len status sector : ℕ)
      → Chained s header buffer len status false
      → s.requests (kernel_bits + header) ≡ request_of 1 sector
      → let w' = serve s w in
        ((a : ℕ) → w'.memory a ≡ (if a == status then 0 else w.memory a))
        × ((a : ℕ) → w'.disk a ≡ disk_after w sector buffer len a)
  pub read :
      (s : Driver) (w : World) (header buffer len status sector : ℕ)
      → Chained s header buffer len status true
      → s.requests (kernel_bits + header) ≡ request_of 0 sector
      → let w' = serve s w in
        ((a : ℕ) → w'.memory a ≡ memory_after w sector buffer len status a)
        × ((a : ℕ) → w'.disk a ≡ w.disk a)

-- While one request at most is under way, the ring holds 0 everywhere.
abbrev pub ZeroRing : Driver → Type 0
ZeroRing s = (i : ℕ) → s.avail_ring i ≡ 0

module _ (block n first_slot type len sector buffer : ℕ) (rest : List ℕ) (writes : Bool)
    (s s' : Driver) where
  pub ZeroRing-Handed :
      ZeroRing s → Handed block n first_slot type len sector buffer rest writes s s' → ZeroRing s'
  ZeroRing-Handed zero_ring h i = elim (ℕ_discrete i 0) [
    | yes e ↦ rw e h.ring
    | no other ↦ h.ring_rest i other ∙ zero_ring i
  ]

  -- So the device finds the chain of the request.
  Chained-Handed :
      ZeroRing s
      → Handed block n first_slot type len sector buffer rest writes s s'
      → Chained s' (heap_pa n) (kernal_to_user_space buffer) len (heap_pa (n + 1)) writes
  Chained-Handed zero_ring h =
      rw (ZeroRing-Handed zero_ring h ((s'.avail_idx + (2 ^ 16 - 1)) % 2 ^ 16 % 12)) h.parts

module _ (w : World) (p sector : ℕ) where
  sector_inside :
      (i : ℕ) → i < 512 → disk_after w sector p 512 (sector * 512 + i) ≡ w.memory (p + i)
  sector_inside i h =
      let here : within (sector * 512) 512 (sector * 512 + i) ≡ true = ground arith in
      let off : sector * 512 + i - sector * 512 ≡ i = omega arith in rw (here, off) refl

  sector_outside :
      (a : ℕ)
      → (a < sector * 512) ⊎ (sector * 512 + 512 ≤ a)
      → disk_after w sector p 512 a ≡ w.disk a
  sector_outside a h = let away : within (sector * 512) 512 a ≡ false = ground arith in rw away refl

  module _ (n : ℕ) (apart : (p + 512 ≤ heap_pa (n + 1)) ⊎ (heap_pa (n + 3) < p)) where
    buffer_inside :
        (i : ℕ)
        → i < 512
        → memory_after w sector p 512 (heap_pa (n + 2 + 1)) (p + i) ≡ w.disk (sector * 512 + i)
    buffer_inside i h =
        let other : (p + i == heap_pa (n + 2 + 1)) ≡ false = ground arith in
        let here : within p 512 (p + i) ≡ true = ground arith in
        let off : p + i - p ≡ i = omega arith in rw (other, here, off) refl

    status_now : memory_after w sector p 512 (heap_pa (n + 2 + 1)) (heap_pa (n + 3)) ≡ 0
    status_now =
        let here : (heap_pa (n + 3) == heap_pa (n + 2 + 1)) ≡ true = ground arith in rw here refl

    status_kept :
        memory_after w sector p 512 (heap_pa (n + 2 + 1)) (heap_pa (n + 1))
        ≡ w.memory (heap_pa (n + 1))
    status_kept =
        let other : (heap_pa (n + 1) == heap_pa (n + 2 + 1)) ≡ false = ground arith in
        let away : within p 512 (heap_pa (n + 1)) ≡ false = ground arith in rw (other, away) refl

same_if : (a v : ℕ) → (if a == a then 0 else v) ≡ 0
same_if a v = ground arith

-- The bytes at `p` are in the sector and at `p'`, the statuses of two requests on the pages from `n`
-- on are 0, and the rest of the disk stays.
abbrev pub Stored : (w w' : World) (n sector p p' : ℕ) → Type 0
Stored w w' n sector p p' =
    ((i : ℕ) → i < 512 → w'.memory (p' + i) ≡ w.memory (p + i))
    × ((i : ℕ) → i < 512 → w'.disk (sector * 512 + i) ≡ w.memory (p + i))
    × ((a : ℕ) → (a < sector * 512) ⊎ (sector * 512 + 512 ≤ a) → w'.disk a ≡ w.disk a)
    × (w'.memory (heap_pa (n + 3)) ≡ 0)
    × (w'.memory (heap_pa (n + 1)) ≡ 0)

module _ (serve : Driver → World → World) (device : Serves serve) (w : World) (block n : ℕ)
    (rest : List ℕ) (s mid s' : Driver) (zero_ring : ZeroRing s) where
  -- A write of a sector and then a read of it, each served before the call returns.
  pub served-Stored :
      (sector buffer buffer' p p' : ℕ)
      → Handed block n 0 1 512 sector buffer rest false s mid
      → Handed block (n + 2) 0 0 512 sector buffer' rest true mid s'
      → sector < 2 ^ 32
      → kernal_to_user_space buffer ≡ p
      → kernal_to_user_space buffer' ≡ p'
      → (p' + 512 ≤ heap_pa (n + 1)) ⊎ (heap_pa (n + 3) < p')
      → Stored w (serve s' (serve mid w)) n sector p p'
  served-Stored sector buffer buffer' p p' h h' small at at' apart =
      let whole : sector % 2 ^ 32 ≡ sector = omega (arith, small) in
      let w1 = serve mid w in
      let zero_mid = ZeroRing-Handed block n 0 1 512 sector buffer rest false s mid zero_ring h in
      let (memory1, disk1) =
        device.write mid w (heap_pa n) p 512 (heap_pa (n + 1)) sector
          (subst (λ p. Chained mid (heap_pa n) p 512 (heap_pa (n + 1)) false) at
            (Chained-Handed block n 0 1 512 sector buffer rest false s mid zero_ring h))
          (h.request ∙ ap (request_of 1) whole) in
      let (memory2, disk2) =
        device.read s' w1 (heap_pa (n + 2)) p' 512 (heap_pa (n + 2 + 1)) sector
          (subst (λ p. Chained s' (heap_pa (n + 2)) p 512 (heap_pa (n + 2 + 1)) true) at'
            (Chained-Handed block (n + 2) 0 0 512 sector buffer' rest true mid s' zero_mid h'))
          (h'.request ∙ ap (request_of 0) whole) in
      let sector_byte = λ (i : ℕ) (inside : i < 512).
        disk1 (sector * 512 + i) ∙ sector_inside w p sector i inside in
      (
        (λ i inside.
            memory2 (p' + i) ∙ buffer_inside w1 p' sector n apart i inside ∙ sector_byte i inside),
        (λ i inside. disk2 (sector * 512 + i) ∙ sector_byte i inside),
        (λ a out. disk2 a ∙ disk1 a ∙ sector_outside w p sector a out),
        memory2 (heap_pa (n + 3)) ∙ status_now w1 p' sector n apart,
        memory2 (heap_pa (n + 1))
            ∙ status_kept w1 p' sector n apart
            ∙ memory1 (heap_pa (n + 1))
            ∙ same_if (heap_pa (n + 1)) (w.memory (heap_pa (n + 1))),
      )

module _ (block : ℕ) (ok : IsBlock block) (stack : List BitIndex) (frame : length stack ≡ 64)
    (n : ℕ) (room : n + 4 ≤ 512) (s : Driver) (heap : IsHeap block n s.heap) (rest : List ℕ)
    (free : s.slots.used_request_index ≡ 0 ∷ rest) (zero_ring : ZeroRing s)
    (serve : Driver → World → World) (device : Serves serve) where
  -- On a well-formed heap with room for four pages, with the first slot free, zeros in the ring and
  -- a device that serves a request as the standard describes before the call returns: after a
  -- sector is written from page `q` of the heap and read into page `r`, the 512 bytes of `q` are in
  -- `r` and in the sector, both requests have status 0, and the rest of the disk stays.
  pub block_read-block_write :
      (answer answer' : Used → Used) (sector q r : ℕ) (w : World)
      → sector < 2 ^ 32
      → q < n
      → r < n
      → (mid s' : Driver) × (block_write block stack answer sector (heap_va q) 512 s
          ≡ some ((mid.used.ring 0).len, mid))
        × (block_read block stack answer' sector (heap_va r) 512 mid
            ≡ some ((s'.used.ring 0).len, s'))
        × Stored w (serve s' (serve mid w)) n sector (heap_pa q) (heap_pa r)
  block_read-block_write answer answer' sector q r w small lq lr =
      let (mid, e, h, _) =
        block_write-Handed block ok stack frame n (omega arith) s heap rest free answer sector
          (heap_va q) 512 in
      let (s', e', h', _) =
        block_read-Handed block ok stack frame (n + 2) (omega arith) mid h.heap rest h.slots answer'
          sector (heap_va r) 512 in
      (
        mid,
        s',
        e,
        e',
        served-Stored serve device w block n rest s mid s' zero_ring sector (heap_va q) (heap_va r)
            (heap_pa q) (heap_pa r) h h' small (physical_heap q (omega (arith, room, lq)))
            (physical_heap r (omega (arith, room, lr))) (inl (omega (arith, lr))),
      )
