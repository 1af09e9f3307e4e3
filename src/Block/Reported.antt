-- ===== src/Block/Reported.antt =====
-- The length that `block_read` and `block_write` of kernel/drivers/block/block_driver.c return, with
-- a device that answers in the used ring as the virtio standard describes.
use kernel_fuzzing.Base.{
  ℕ, ◌+◌, ◌%◌, ◌^◌, ◌≤◌, ◌≡◌, ◌≢◌, ◌∙◌, sym, ap, true, false, some, List, ◌∷◌, ◌==◌, length,
  if◌then◌else◌, arith, ℕ_discrete,
}
use kernel_fuzzing.PageAlloc.{BitIndex}
use kernel_fuzzing.Kmalloc.Mapping.{IsBlock}
use kernel_fuzzing.Kmalloc.Laws.{IsHeap}
use kernel_fuzzing.Block.{
  UsedElem, Used, Driver, block_read, block_write, virtio_blk_t_in, virtio_blk_t_out,
}
use kernel_fuzzing.Block.Transfer.{Handed, block_read-Handed, block_write-Handed}

-- The device puts the head of the chain and the length into the entry that is next by its own
-- count, in a ring of 12, and then counts on.
pub record Answers (answer : Used → Used) (head reported : ℕ) : Type 0 where
  pub counted : (u : Used) → (answer u).idx ≡ (u.idx + 1) % 2 ^ 16
  pub entry : (u : Used) → (answer u).ring (u.idx % 12) ≡ record { id = head; len = reported }
  pub others : (u : Used) (i : ℕ) → i ≢ u.idx % 12 → (answer u).ring i ≡ u.ring i

-- What stands in entry 0 after an answer to a request.
abbrev pub first_len : (reported : ℕ) → Used → ℕ
first_len reported u = if u.idx % 12 == 0 then reported else (u.ring 0).len

first_len_lem :
    (answer : Used → Used) (reported : ℕ) (u : Used)
    → Answers answer 0 reported
    → ((answer u).ring 0).len ≡ first_len reported u
first_len_lem answer reported u a = elim (ℕ_discrete (u.idx % 12) 0) [
  | yes first ↦
      let e : (u.idx % 12 == 0) ≡ true = ground (arith, first) in
      rw e
        (ap (λ i. ((answer u).ring i).len) (sym first) ∙ ap (λ (x : UsedElem). x.len) (a.entry u))
  | no other ↦
      let e : (u.idx % 12 == 0) ≡ false = ground (arith, other) in
      let apart : 0 ≢ u.idx % 12 = λ z. other (sym z) in
      rw e (ap (λ (x : UsedElem). x.len) (a.others u 0 apart))
]

module _ (block : ℕ) (ok : IsBlock block) (stack : List BitIndex) (frame : length stack ≡ 64)
    (n : ℕ) (room : n + 2 ≤ 512) (s : Driver) (heap : IsHeap block n s.heap) (rest : List ℕ)
    (free : s.slots.used_request_index ≡ 0 ∷ rest) (answer : Used → Used) (reported : ℕ)
    (answers : Answers answer 0 reported) where
  -- On a well-formed heap with room for two pages, with the first slot free and a device that
  -- answers in the used ring as the standard describes: block_read hands over one chain, with a read
  -- request for the sector and the buffer to write to, and leaves the slots as they were; the
  -- length it returns is the one that the device reports if the device's count is a multiple of
  -- 12, and otherwise the one that stood in entry 0 before.
  pub block_read_reported :
      (sector buffer size : ℕ)
      → (s' : Driver) × (block_read block stack answer sector buffer size s
          ≡ some (first_len reported s.used, s'))
        × Handed block n 0 virtio_blk_t_in (size % 2 ^ 32) sector buffer rest true s s'
        × (s'.used.idx ≡ (s.used.idx + 1) % 2 ^ 16)
  block_read_reported sector buffer size =
      let (s', e, h, u) =
        block_read-Handed block ok stack frame n room s heap rest free answer sector buffer size in
      let returned =
        ap (λ (u : Used). (u.ring 0).len) u ∙ first_len_lem answer reported s.used answers in
      (
        s',
        e ∙ ap (λ len. some (len, s')) returned,
        h,
        ap (λ (u : Used). u.idx) u ∙ answers.counted s.used,
      )

  -- On a well-formed heap with room for two pages, with the first slot free and a device that
  -- answers in the used ring as the standard describes: block_write hands over one chain, with a
  -- write request for the sector and 512 bytes of the buffer to read, whatever the size is, and
  -- leaves the slots as they were; the length it returns is the one that the device reports if the
  -- device's count is a multiple of 12, and otherwise the one that stood in entry 0 before.
  pub block_write_reported :
      (sector buffer size : ℕ)
      → (s' : Driver) × (block_write block stack answer sector buffer size s
          ≡ some (first_len reported s.used, s'))
        × Handed block n 0 virtio_blk_t_out 512 sector buffer rest false s s'
        × (s'.used.idx ≡ (s.used.idx + 1) % 2 ^ 16)
  block_write_reported sector buffer size =
      let (s', e, h, u) =
        block_write-Handed block ok stack frame n room s heap rest free answer sector buffer size in
      let returned =
        ap (λ (u : Used). (u.ring 0).len) u ∙ first_len_lem answer reported s.used answers in
      (
        s',
        e ∙ ap (λ len. some (len, s')) returned,
        h,
        ap (λ (u : Used). u.idx) u ∙ answers.counted s.used,
      )
