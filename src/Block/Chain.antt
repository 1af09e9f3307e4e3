-- ===== src/Block/Chain.antt =====
-- The descriptor chain that a request of kernel/drivers/block/block_driver.c hands to the device.
use kernel_fuzzing.Base.{
  ℕ, zero, suc, ◌+◌, ◌/◌, ◌%◌, ◌^◌, ◌<◌, ◌≤◌, ◌≡◌, ◌⊎◌, refl, ap, Bool, true, false, List, [], ◌∷◌,
  ◌==◌, if◌then◌else◌, update, arith,
}
use kernel_fuzzing.PageTable.{kernal_to_user_space}
use kernel_fuzzing.Block.{Desc, fill_chain}

-- A part of a request as the device sees it: where it is, its length, and whether the device writes.
pub record Part : Type 0 where
  pub addr : ℕ
  pub len : ℕ
  pub device_writes : Bool

-- The device follows `next` while flag 1 is set, at most `n` descriptors; flag 2 is for writing.
abbrev pub chain : (n : ℕ) → (ℕ → Desc) → ℕ → List Part
chain zero desc index = []
chain (suc n) desc index =
    let d = desc index in
    let rest = chain n desc d.next in
    record { addr = d.addr; len = d.len; device_writes = d.flags / 2 % 2 == 1 }
    ∷ (if d.flags % 2 == 1 then rest else [])

module _ (index req buffer status len flags : ℕ) (desc : ℕ → Desc) where
  abbrev filled : ℕ → Desc
  filled = fill_chain index req buffer status len flags desc

  -- A request touches its own three descriptors only.
  pub fill_chain-frame : (j : ℕ) → (j < index) ⊎ (index + 3 ≤ j) → filled j ≡ desc j
  unfolding fill_chain update
  fill_chain-frame j h = ground arith

  first :
      filled index
      ≡ record { addr = kernal_to_user_space req; len = 16; flags = 1; next = (index + 1) % 2 ^ 16 }
  unfolding fill_chain update
  first = ground arith

  second : filled (index + 1) ≡ record {
    addr = kernal_to_user_space buffer;
    len = len % 2 ^ 32;
    flags = flags;
    next = (index + 2) % 2 ^ 16;
  }
  unfolding fill_chain update
  second = ground arith

  third : filled (index + 2) ≡ record {
    addr = kernal_to_user_space status;
    len = 1;
    flags = 2;
    next = (desc (index + 2)).next;
  }
  unfolding fill_chain update
  third = ground arith

  -- From the index that is put into the ring, the device finds exactly three parts: the request,
  -- which it reads, the buffer, which it writes if the flags say so, and the status byte, which it
  -- writes; all by their physical addresses.
  pub fill_chain-chain :
      index + 2 < 2 ^ 16
      → flags % 2 ≡ 1
      → chain 4 filled index
        ≡ record { addr = kernal_to_user_space req; len = 16; device_writes = false }
          ∷ (record {
            addr = kernal_to_user_space buffer;
            len = len % 2 ^ 32;
            device_writes = flags / 2 % 2 == 1;
          }
              ∷ (record { addr = kernal_to_user_space status; len = 1; device_writes = true } ∷ []))
  fill_chain-chain small more =
      let n1 : (index + 1) % 2 ^ 16 ≡ index + 1 = omega arith in
      let n2 : (index + 2) % 2 ^ 16 ≡ index + 2 = omega arith in
      rw (first, n1, second, n2, more, third) refl

  -- How the three descriptors hang together.
  pub fill_chain-next :
      ((filled index).next ≡ (index + 1) % 2 ^ 16)
      × ((filled (index + 1)).next ≡ (index + 2) % 2 ^ 16)
      × ((filled (index + 2)).flags ≡ 2)
  fill_chain-next = (
    ap (λ (d : Desc). d.next) first,
    ap (λ (d : Desc). d.next) second,
    ap (λ (d : Desc). d.flags) third,
  )

-- The device finds the same chain at 0 while the first three descriptors stay.
pub same_chain :
    (d d' : ℕ → Desc)
    → (d 0).next ≡ 1
    → (d 1).next ≡ 2
    → (d 2).flags ≡ 2
    → ((j : ℕ) → j < 3 → d' j ≡ d j)
    → chain 4 d' 0 ≡ chain 4 d 0
same_chain d d' first second third same =
    rw (same 0 (omega arith), first, same 1 (omega arith), second, same 2 (omega arith), third) refl
