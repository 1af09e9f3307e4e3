-- ===== src/Block/Unseen.antt =====
-- Two requests under way in the available ring of kernel/drivers/block/block_driver.c.
use kernel_fuzzing.Base.{
  ℕ, ◌+◌, ◌-◌, ◌/◌, ◌%◌, ◌^◌, ◌≤◌, ◌<◌, ◌≡◌, ◌≢◌, ◌∙◌, refl, Bool, true, false, some, inl, List, [],
  ◌∷◌, ◌==◌, length, update, update_ne, arith,
}
use kernel_fuzzing.PageAlloc.{BitIndex}
use kernel_fuzzing.PageTable.{kernal_to_user_space}
use kernel_fuzzing.Kmalloc.Mapping.{IsBlock, heap_pa, heap_va}
use kernel_fuzzing.Kmalloc.Laws.{IsHeap}
use kernel_fuzzing.Kmalloc.Pages.{kmalloc_page, physical_heap}
use kernel_fuzzing.Kmalloc.{Kernel}
use kernel_fuzzing.Block.{Driver, fill_chain, submit, publish}
use kernel_fuzzing.Block.Slots.{find_free_index_second}
use kernel_fuzzing.Block.Chain.{Part, chain, same_chain, fill_chain-chain, fill_chain-frame}
use kernel_fuzzing.Block.Transfer.{submit-Handed}
use kernel_fuzzing.Block.Disk.{next_head, ZeroRing, ZeroRing-Handed}

-- The three parts of a request whose pages are `n` and `n + 1`.
abbrev pub parts_of : (n len buffer : ℕ) (writes : Bool) → List Part
parts_of n len buffer writes =
    record { addr = heap_pa n; len = 16; device_writes = false }
    ∷ (record { addr = kernal_to_user_space buffer; len = len; device_writes = writes }
        ∷ (record { addr = heap_pa (n + 1); len = 1; device_writes = true } ∷ []))

-- A request that got the second slot.
record Second (n len buffer : ℕ) (writes : Bool) (before after : Driver) : Type 0 where
  kept : (j : ℕ) → j < 3 → after.desc j ≡ before.desc j
  parts : chain 4 after.desc 3 ≡ parts_of n len buffer writes
  ring_rest : (i : ℕ) → i ≢ 3 → after.avail_ring i ≡ before.avail_ring i
  idx : after.avail_idx ≡ (before.avail_idx + 1) % 2 ^ 16
  notified : after.notified ≡ 0 ∷ before.notified

module _ (block : ℕ) (ok : IsBlock block) (stack : List BitIndex) (frame : length stack ≡ 64) where
  -- The state when the device is notified, with `k` the heap then.
  abbrev handed_second :
      (n : ℕ) (s : Driver) (rest : List ℕ) (type len flags sector buffer : ℕ) → Kernel → Driver
  handed_second n s rest type len flags sector buffer k = publish 3 (record s {
    slots = record {
      global_count = (s.slots.global_count + 1) % 2 ^ 8;
      used_request_index = 1 ∷ (1 ∷ rest);
    };
    desc = fill_chain 3 (heap_va n) buffer (heap_va (n + 1)) len flags s.desc;
    requests =
        update s.requests (heap_va n)
          (record { type = type; reserved = 0; sector = sector % 2 ^ 32 });
    heap = k;
  })

  submit-Second :
      (n : ℕ)
      → n + 2 ≤ 512
      → (s : Driver) → IsHeap block n s.heap
      → (rest : List ℕ) → s.slots.used_request_index ≡ 1 ∷ (0 ∷ rest)
      → (type len flags sector buffer : ℕ) → flags % 2 ≡ 1
      → (s' : Driver) × (submit block stack type len flags sector buffer s ≡ some (3, s'))
        × Second n (len % 2 ^ 32) buffer (flags / 2 % 2 == 1) s s'
  unfolding submit publish
  submit-Second n room s heap rest free type len flags sector buffer more =
      let (k, e, heap1) =
        kmalloc_page block ok n s.heap heap stack 16 frame (omega arith) (omega arith) in
      let (k', e', heap2) =
        kmalloc_page block ok (n + 1) k heap1 stack 1 frame (omega arith) (omega arith) in
      let taken = find_free_index_second s.slots rest free in
      (
        handed_second n s rest type len flags sector buffer k',
        rw (submit, e, taken, e') (rw taken refl),
        record {
          kept = λ j low.
              fill_chain-frame 3 (heap_va n) buffer (heap_va (n + 1)) len flags s.desc j (inl low);
          parts =
              fill_chain-chain 3 (heap_va n) buffer (heap_va (n + 1)) len flags s.desc (omega arith)
                more
              ∙ rw (physical_heap n (omega arith), physical_heap (n + 1) (omega arith)) refl;
          ring_rest = λ i h. update_ne s.avail_ring 3 _ i h;
          idx = refl;
          notified = refl;
        },
      )

  module _ (n : ℕ) (room : n + 4 ≤ 512) (s : Driver) (heap : IsHeap block n s.heap) (rest : List ℕ)
      (free : s.slots.used_request_index ≡ 0 ∷ (0 ∷ rest)) (zero_ring : ZeroRing s) where
    -- On a well-formed heap with room for four pages, with two free slots and zeros in the ring:
    -- when a second request is handed over before the first one has ended, the device is notified
    -- twice, but the entry of the ring that it takes next is the chain of the first request again,
    -- unless this entry is number 3. The second request has a chain at index 3.
    pub second_request_unseen :
        (type len flags sector buffer type' len' flags' sector' buffer' : ℕ)
        → flags % 2 ≡ 1
        → flags' % 2 ≡ 1
        → (s.avail_idx + 1) % 2 ^ 16 % 12 ≢ 3
        → (s1 s2 : Driver) × (submit block stack type len flags sector buffer s ≡ some (0, s1))
          × (submit block stack type' len' flags' sector' buffer' s1 ≡ some (3, s2))
          × (s2.notified ≡ 0 ∷ (0 ∷ s.notified))
          × (chain 4 s1.desc (next_head s1) ≡ parts_of n (len % 2 ^ 32) buffer (flags / 2 % 2 == 1))
          × (chain 4 s2.desc (next_head s2) ≡ parts_of n (len % 2 ^ 32) buffer (flags / 2 % 2 == 1))
          × (chain 4 s2.desc 3 ≡ parts_of (n + 2) (len' % 2 ^ 32) buffer' (flags' / 2 % 2 == 1))
    second_request_unseen type len flags sector buffer type' len' flags' sector' buffer' more more'
          off =
        let (s1, e, h, _) =
          submit-Handed block ok stack frame n (omega (arith, room)) s heap (0 ∷ rest) free type len
            flags sector buffer more in
        let (s2, e', h') =
          submit-Second (n + 2) (omega (arith, room)) s1 h.heap rest h.slots type' len' flags'
            sector' buffer' more' in
        let zeros =
          ZeroRing-Handed block n 1 type (len % 2 ^ 32) sector buffer (0 ∷ rest)
            (flags / 2 % 2 == 1) s s1 zero_ring h in
        let place : (s2.avail_idx + (2 ^ 16 - 1)) % 2 ^ 16 % 12 ≢ 3 =
          λ at. off (omega (arith, at, h.idx, h'.idx)) in
        let head : next_head s2 ≡ 0 = h'.ring_rest _ place ∙ zeros _ in
        let (link0, link1, link2) = h.links in
        (
          s1,
          s2,
          e,
          e',
          rw h'.notified (rw h.notified refl),
          rw (zeros ((s1.avail_idx + (2 ^ 16 - 1)) % 2 ^ 16 % 12)) h.parts,
          rw head (same_chain s1.desc s2.desc link0 link1 link2 h'.kept ∙ h.parts),
          h'.parts,
        )
