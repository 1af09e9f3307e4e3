-- ===== src/Block/Release.antt =====
-- Giving a slot back: the end of `block_read` and `block_write` of
-- kernel/drivers/block/block_driver.c writes at the index of the descriptor, three times the slot.
use kernel_fuzzing.Base.{
  ℕ, ◌*◌, ◌<◌, ◌≤◌, ◌≡◌, refl, ◌∙◌, true, none, some, ltb, length, set, get_elem?, length-set,
  get_elem?-set_self, get_elem?-set_ne, arith,
}
use kernel_fuzzing.Block.{BlockData, release}

-- The slots after `find_free_index` has taken slot `i`.
abbrev pub marked : BlockData → ℕ → BlockData
marked b i = record b { used_request_index = set b.used_request_index i 1 }

module _ (b : BlockData) (i : ℕ) (twelve : length b.used_request_index ≡ 12) where
  length-marked : length (marked b i).used_request_index ≡ 12
  length-marked = length-set b.used_request_index i 1 ∙ twelve

  -- For the slots 1, 2 and 3 the release frees slot `3 * i`, whoever has it, and slot `i` stays in
  -- use for good.
  pub release-leaks :
      0 < i
      → i < 4
      → (out : BlockData) × (release (i * 3) (marked b i) ≡ some out)
        × (get_elem? out.used_request_index i ≡ some 1)
        × (get_elem? out.used_request_index (i * 3) ≡ some 0)
  unfolding release
  release-leaks pos small =
      let used = set b.used_request_index i 1 in
      let inside : ltb (i * 3) (length used) ≡ true = ground (arith, length-marked) in
      (
        record (marked b i) { used_request_index = set used (i * 3) 0 },
        rw inside refl,
        get_elem?-set_ne used (i * 3) i 0 (omega arith)
            ∙ get_elem?-set_self b.used_request_index i 1 (omega (arith, twelve)),
        get_elem?-set_self used (i * 3) 0 (omega (arith, length-marked)),
      )

  -- For the slots from 4 on it writes past the array.
  pub release-overruns : 4 ≤ i → release (i * 3) (marked b i) ≡ none
  unfolding release
  release-overruns big = ground (arith, length-marked)
