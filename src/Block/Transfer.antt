-- ===== src/Block/Transfer.antt =====
-- `block_read` and `block_write` of kernel/drivers/block/block_driver.c from end to end, while the
-- first slot is free, on a well-formed heap.
use kernel_fuzzing.Base.{
  ℕ, ◌+◌, ◌/◌, ◌%◌, ◌^◌, ◌≤◌, ◌≡◌, ◌≢◌, refl, ◌∙◌, ap, Bool, true, false, some, List, [], ◌∷◌, ltb,
  ◌==◌, length, set, update, update_self, update_ne, arith, subst,
}
use kernel_fuzzing.PageAlloc.{BitIndex}
use kernel_fuzzing.PageTable.{kernal_to_user_space}
use kernel_fuzzing.Kmalloc.{Kernel}
use kernel_fuzzing.Kmalloc.Mapping.{IsBlock, heap_pa, heap_va}
use kernel_fuzzing.Kmalloc.Laws.{IsHeap}
use kernel_fuzzing.Block.{
  Driver, Used, find_free_index, fill_chain, publish, submit, submit_read, submit_write, release,
  complete, block_read, block_write, virtio_blk_t_in, virtio_blk_t_out,
}
use kernel_fuzzing.Kmalloc.Pages.{kmalloc_page, physical_heap}
use kernel_fuzzing.Block.Slots.{find_free_index_first}
use kernel_fuzzing.Block.Chain.{chain, fill_chain-chain, fill_chain-next}

-- What the device finds after a request, and what the driver is left with: the first slot is as
-- `first_slot` says, and the heap has `n` pages.
pub record Handed (block n first_slot type len sector buffer : ℕ) (rest : List ℕ) (writes : Bool)
    (before after : Driver) : Type 0 where
  pub slots : after.slots.used_request_index ≡ first_slot ∷ rest
  pub parts :
      chain 4 after.desc 0
      ≡ record { addr = heap_pa n; len = 16; device_writes = false }
        ∷ (record { addr = kernal_to_user_space buffer; len = len; device_writes = writes }
            ∷ (record { addr = heap_pa (n + 1); len = 1; device_writes = true } ∷ []))
  pub links : ((after.desc 0).next ≡ 1) × ((after.desc 1).next ≡ 2) × ((after.desc 2).flags ≡ 2)
  pub request :
      after.requests (heap_va n) ≡ record { type = type; reserved = 0; sector = sector % 2 ^ 32 }
  pub ring : after.avail_ring 0 ≡ 0
  pub ring_rest : (i : ℕ) → i ≢ 0 → after.avail_ring i ≡ before.avail_ring i
  pub idx : after.avail_idx ≡ (before.avail_idx + 1) % 2 ^ 16
  pub notified : after.notified ≡ 0 ∷ before.notified
  pub heap : IsHeap block (n + 2) after.heap

module _ (block : ℕ) (ok : IsBlock block) (stack : List BitIndex) (frame : length stack ≡ 64)
    (n : ℕ) (room : n + 2 ≤ 512) (s : Driver) (heap : IsHeap block n s.heap) (rest : List ℕ)
    (free : s.slots.used_request_index ≡ 0 ∷ rest) where
  taken_first : find_free_index s.slots ≡ (
    some 0,
    record { global_count = (s.slots.global_count + 1) % 2 ^ 8; used_request_index = 1 ∷ rest },
  )
  taken_first = find_free_index_first s.slots rest free

  -- The state when the device is notified, with `k` the heap then.
  abbrev handed : (type len flags sector buffer : ℕ) → Kernel → Driver
  handed type len flags sector buffer k = publish 0 (record s {
    slots = record {
      global_count = (s.slots.global_count + 1) % 2 ^ 8;
      used_request_index = 1 ∷ rest;
    };
    desc = fill_chain 0 (heap_va n) buffer (heap_va (n + 1)) len flags s.desc;
    requests =
        update s.requests (heap_va n)
          (record { type = type; reserved = 0; sector = sector % 2 ^ 32 });
    heap = k;
  })

  pub submit-Handed :
      (type len flags sector buffer : ℕ)
      → flags % 2 ≡ 1
      → (s' : Driver) × (submit block stack type len flags sector buffer s ≡ some (0, s'))
        × Handed block n 1 type (len % 2 ^ 32) sector buffer rest (flags / 2 % 2 == 1) s s'
        × (s'.used ≡ s.used)
  unfolding submit publish
  submit-Handed type len flags sector buffer more =
      let (k, e, heap1) =
        kmalloc_page block ok n s.heap heap stack 16 frame (omega arith) (omega arith) in
      let (k', e', heap2) =
        kmalloc_page block ok (n + 1) k heap1 stack 1 frame (omega arith) (omega arith) in
      (
        handed type len flags sector buffer k',
        rw (submit, e, taken_first, e') (rw taken_first refl),
        record {
          slots = refl;
          parts =
              fill_chain-chain 0 (heap_va n) buffer (heap_va (n + 1)) len flags s.desc (omega arith)
                more
              ∙ rw (physical_heap n (omega arith), physical_heap (n + 1) (omega arith)) refl;
          links = fill_chain-next 0 (heap_va n) buffer (heap_va (n + 1)) len flags s.desc;
          request = update_self s.requests (heap_va n) _;
          ring = update_self s.avail_ring 0 _;
          ring_rest = λ i h. update_ne s.avail_ring 0 _ i h;
          idx = refl;
          notified = refl;
          heap = subst (λ t. IsHeap block t k') (omega arith) heap2;
        },
        refl,
      )

  -- What comes back from the device, and the slot given back.
  complete_first :
      (answer : Used → Used) (type len sector buffer : ℕ) (writes : Bool) (s' : Driver)
      → Handed block n 1 type len sector buffer rest writes s s'
      → (s'' : Driver) × (complete answer (0, s') ≡ some ((s''.used.ring 0).len, s''))
        × Handed block n 0 type len sector buffer rest writes s s''
        × (s''.used ≡ answer s'.used)
  unfolding complete release
  complete_first answer type len sector buffer writes s' h =
      let inside : ltb 0 (length s'.slots.used_request_index) ≡ true = ground (arith, h.slots) in
      let b = record s'.slots { used_request_index = set s'.slots.used_request_index 0 0 } in
      (
        record s' { slots = b; used = answer s'.used },
        rw (complete, release, inside) refl,
        record {
          slots = ap (λ u. set u 0 0) h.slots;
          parts = h.parts;
          links = h.links;
          request = h.request;
          ring = h.ring;
          ring_rest = h.ring_rest;
          idx = h.idx;
          notified = h.notified;
          heap = h.heap;
        },
        refl,
      )

  -- While the first slot is free and the heap has room for two more pages, `block_read` returns the
  -- length in entry 0 of the used ring. The device gets one chain, with a read request for the
  -- sector and the buffer to write to; the slots are afterwards as they were before.
  pub block_read-Handed :
      (answer : Used → Used) (sector buffer size : ℕ)
      → (s' : Driver) × (block_read block stack answer sector buffer size s
          ≡ some ((s'.used.ring 0).len, s'))
        × Handed block n 0 virtio_blk_t_in (size % 2 ^ 32) sector buffer rest true s s'
        × (s'.used ≡ answer s.used)
  unfolding block_read submit_read
  block_read-Handed answer sector buffer size =
      let (s', e, h, same) = submit-Handed virtio_blk_t_in size 3 sector buffer refl in
      let (s'', e', h', u) =
        complete_first answer virtio_blk_t_in (size % 2 ^ 32) sector buffer true s' h in
      (s'', rw (block_read, submit_read, e) e', h', u ∙ ap answer same)

  -- Likewise `block_write`, with a write request and the buffer to read 512 bytes from, whatever the
  -- size is.
  pub block_write-Handed :
      (answer : Used → Used) (sector buffer size : ℕ)
      → (s' : Driver) × (block_write block stack answer sector buffer size s
          ≡ some ((s'.used.ring 0).len, s'))
        × Handed block n 0 virtio_blk_t_out 512 sector buffer rest false s s'
        × (s'.used ≡ answer s.used)
  unfolding block_write submit_write
  block_write-Handed answer sector buffer size =
      let (s', e, h, same) = submit-Handed virtio_blk_t_out 512 1 sector buffer refl in
      let (s'', e', h', u) = complete_first answer virtio_blk_t_out 512 sector buffer false s' h in
      (s'', rw (block_write, submit_write, e) e', h', u ∙ ap answer same)
