-- ===== src/Tests/Disk.antt =====
-- A sector of the disk of kernel/drivers/block/block_driver.c, written and read back, with a device
-- as a function.
use kernel_fuzzing.Base.{
  ℕ, ◌+◌, ◌*◌, ◌≤◌, ◌<◌, ◌≡◌, ◌⊎◌, inl, ◌∙◌, refl, ap, true, some, List, [], ◌∷◌, ◌==◌,
  if◌then◌else◌, arith,
}
use kernel_fuzzing.PageAlloc.{page_total}
use kernel_fuzzing.PageAlloc.Allocate.{page_total_lem}
use kernel_fuzzing.Kmalloc.{Kernel, kernel_bits, kmalloc}
use kernel_fuzzing.Kmalloc.Mapping.{heap_pa, heap_va}
use kernel_fuzzing.Kmalloc.Laws.{IsHeap, kmalloc-IsHeap}
use kernel_fuzzing.Block.{Driver, Request, submit, block_read, block_write}
use kernel_fuzzing.Block.Unseen.{parts_of, second_request_unseen}
use kernel_fuzzing.PageTable.{kernal_to_user_space}
use kernel_fuzzing.User.{user_process1, user_process2}
use kernel_fuzzing.User.Disk.{Brought, user_process-Brought}
use kernel_fuzzing.Block.Chain.{Part, chain}
use kernel_fuzzing.Block.Disk.{
  World, next_head, disk_after, memory_after, Serves, block_read-block_write,
}
use kernel_fuzzing.Tests.Tables.{block}
use kernel_fuzzing.Tests.Heap.{stack, booted, block-IsBlock, booted-IsHeap}
use kernel_fuzzing.Tests.Devices.{driver, eleven, answering}

-- One request, by its three parts.
abbrev served : Request → List Part → World → World
served rq (h ∷ (b ∷ (t ∷ []))) w =
    if rq.type == 1
    then record {
      memory = λ a. if a == t.addr then 0 else w.memory a;
      disk = disk_after w rq.sector b.addr b.len;
    }
    else record { memory = memory_after w rq.sector b.addr b.len t.addr; disk = w.disk }
served rq parts w = w

abbrev header : List Part → ℕ
header [] = 0
header (h ∷ parts) = h.addr

abbrev served_parts : Driver → World → List Part → World
served_parts s w parts = served (s.requests (kernel_bits + header parts)) parts w

abbrev serve : Driver → World → World
serve s w = served_parts s w (chain 4 s.desc (next_head s))

serve_lem :
    (s : Driver) (w : World) (parts : List Part) (rq : Request)
    → chain 4 s.desc (next_head s) ≡ parts
    → s.requests (kernel_bits + header parts) ≡ rq
    → serve s w ≡ served rq parts w
serve_lem s w parts rq e er = ap (served_parts s w) e ∙ ap (λ rq. served rq parts w) er

serve-Serves : Serves serve
serve-Serves = record {
  write =
      λ s w h buffer len status sector e er. rw (serve_lem s w _ _ e er) ((λ a. refl), (λ a. refl));
  read =
      λ s w h buffer len status sector e er. rw (serve_lem s w _ _ e er) ((λ a. refl), (λ a. refl));
}

total_5000 : page_total 5000 ≡ 2
total_5000 = omega (arith, page_total_lem 5000)

-- A heap of two pages.
two_pages :
    (k' : Kernel) × (kmalloc block stack booted 5000 ≡ some (heap_va 0, k'))
    × IsHeap block (0 + page_total 5000) k'
two_pages =
    kmalloc-IsHeap block block-IsBlock 0 booted booted-IsHeap stack 5000 refl
      (omega (arith, total_5000)) (omega (arith, total_5000))

abbrev ready : Driver
ready = record driver { heap = two_pages.0 }

abbrev world : World
world = record { memory = λ a. a; disk = λ a. 0 }

block_read-block_write_example :
    (mid s' : Driver) × (block_write block stack (answering 1) 1000 (heap_va 0) 512 ready
      ≡ some ((mid.used.ring 0).len, mid))
    × (block_read block stack (answering 513) 1000 (heap_va 1) 512 mid
        ≡ some ((s'.used.ring 0).len, s'))
    × let w' = serve s' (serve mid world) in
      ((i : ℕ) → i < 512 → w'.memory (heap_pa 1 + i) ≡ world.memory (heap_pa 0 + i))
      × ((i : ℕ) → i < 512 → w'.disk (1000 * 512 + i) ≡ world.memory (heap_pa 0 + i))
      × ((a : ℕ) → (a < 1000 * 512) ⊎ (1000 * 512 + 512 ≤ a) → w'.disk a ≡ world.disk a)
      × (w'.memory (heap_pa (0 + page_total 5000 + 3)) ≡ 0)
      × (w'.memory (heap_pa (0 + page_total 5000 + 1)) ≡ 0)
block_read-block_write_example =
    block_read-block_write block block-IsBlock stack refl (0 + page_total 5000)
      (omega (arith, total_5000)) ready two_pages.2 eleven refl (λ i. refl) serve serve-Serves
      (answering 1) (answering 513) 1000 0 1 world (omega arith) (omega (arith, total_5000))
      (omega (arith, total_5000))

abbrev ten : List ℕ
ten = 0 ∷ (0 ∷ (0 ∷ (0 ∷ (0 ∷ (0 ∷ (0 ∷ (0 ∷ (0 ∷ (0 ∷ [])))))))))

-- Two reads.
second_request_unseen_example :
    (s1 s2 : Driver) × (submit block stack 0 512 3 1000 (heap_va 8) driver ≡ some (0, s1))
    × (submit block stack 0 512 3 2000 (heap_va 9) s1 ≡ some (3, s2))
    × (s2.notified ≡ 0 ∷ (0 ∷ driver.notified))
    × (chain 4 s1.desc (next_head s1) ≡ parts_of 0 512 (heap_va 8) true)
    × (chain 4 s2.desc (next_head s2) ≡ parts_of 0 512 (heap_va 8) true)
    × (chain 4 s2.desc 3 ≡ parts_of 2 512 (heap_va 9) true)
second_request_unseen_example =
    second_request_unseen block block-IsBlock stack refl 0 (omega arith) driver booted-IsHeap ten
      refl (λ i. refl) 0 512 3 1000 (heap_va 8) 0 512 3 2000 (heap_va 9) refl refl
      (λ e. omega (arith, e))

local_apart :
    let p = kernal_to_user_space 0x80100000 in (p + 512 ≤ heap_pa (0 + 1)) ⊎ (heap_pa (0 + 3) < p)
unfolding kernal_to_user_space
local_apart = inl (omega arith)

-- The array of the process stands on page 0, the kernel's below its image.
user_process-Brought_example :
    let (memory1, svc1) = user_process1 0xC0000010 world.memory in
    let (memory2, svc2) = user_process2 0xC0000010 world.memory in
    Brought block stack 0 driver serve
      (answering 1)
      (answering 513)
      0x80100000
      world
      0xC0000010
      memory1
      svc1
    × Brought block stack 0 driver serve
        (answering 1)
        (answering 513)
        0x80100000
        world
        0xC0000010
        memory2
        svc2
    × ((i : ℕ) → i < 5 → memory1 (0xC0000010 + i) ≡ 65)
    × ((i : ℕ) → 4 ≤ i → i < 9 → memory2 (0xC0000010 + i) ≡ 67)
user_process-Brought_example =
    user_process-Brought block block-IsBlock stack refl 0 (omega arith) driver booted-IsHeap eleven
      refl (λ i. refl) serve serve-Serves (answering 1) (answering 513) 0x80100000 local_apart world
      0xC0000010 (omega arith)
