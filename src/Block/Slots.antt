-- ===== src/Block/Slots.antt =====
-- `find_free_index` of kernel/drivers/block/block_driver.c.
use kernel_fuzzing.Base.{
  ℕ, zero, suc, ◌+◌, ◌*◌, ◌%◌, ◌^◌, ◌<◌, ◌≡◌, ◌≢◌, refl, ◌∙◌, ap, Option, none, some, List, [], ◌∷◌,
  ◌==◌, set, get_elem?, arith, Bool-cases, inl, inr,
}
use kernel_fuzzing.Block.{BlockData, find_free_from, find_free_index}

-- The outcome of a search that counts from `base`: the first entry that is 0, or no entry is 0.
pub data FirstZero (base : ℕ) (used : List ℕ) (found : Option ℕ) : Type 0 where
  zero_at :
      (i : ℕ)
      → found ≡ some (i + base)
      → get_elem? used i ≡ some 0
      → ((j : ℕ) → j < i → get_elem? used j ≢ some 0)
      → FirstZero base used found
  nowhere : found ≡ none → ((j : ℕ) → get_elem? used j ≢ some 0) → FirstZero base used found

not_before :
    (u : ℕ) (used : List ℕ) (i : ℕ)
    → u ≢ 0
    → ((j : ℕ) → j < i → get_elem? used j ≢ some 0)
    → (j : ℕ) → j < suc i
    → get_elem? (u ∷ used) j ≢ some 0
not_before u used i n h zero lt e = n (cc)
not_before u used i n h (suc j) lt e = h j (omega arith) e

never :
    (u : ℕ) (used : List ℕ)
    → u ≢ 0
    → ((j : ℕ) → get_elem? used j ≢ some 0)
    → (j : ℕ) → get_elem? (u ∷ used) j ≢ some 0
never u used n h zero e = n (cc)
never u used n h (suc j) e = h j e

FirstZero-cons :
    (base u : ℕ) (used : List ℕ) (found : Option ℕ)
    → u ≢ 0
    → FirstZero (base + 1) used found
    → FirstZero base (u ∷ used) found
FirstZero-cons base u used found n (zero_at i e at before) =
    zero_at (suc i) (e ∙ ap some (omega arith)) at (not_before u used i n before)
FirstZero-cons base u used found n (nowhere e none_zero) = nowhere e (never u used n none_zero)

nothing : (j : ℕ) → get_elem? {A = ℕ} [] j ≢ some 0
nothing zero e = cc
nothing (suc j) e = cc

find_free_from-FirstZero :
    (base : ℕ) (used : List ℕ) → FirstZero base used (find_free_from base used)
unfolding find_free_from
find_free_from-FirstZero base [] = nowhere refl (λ j e. nothing j e)
find_free_from-FirstZero base (u ∷ used) = elim (Bool-cases (u == 0)) [
  | inl e ↦
      let is_zero : u ≡ 0 = ground arith in
      rw e (zero_at 0 (ap some (omega arith)) (ap some is_zero) (λ j lt. absurd (omega arith)))
  | inr e ↦
      rw e (FirstZero-cons base u used _ (ground arith) (find_free_from-FirstZero (base + 1) used))
]

-- The outcome of `find_free_index`.
pub data Taken (b : BlockData) (result : Option ℕ × BlockData) : Type 0 where
  slot :
      (i : ℕ)
      → result.0 ≡ some (i * 3)
      → get_elem? b.used_request_index i ≡ some 0
      → ((j : ℕ) → j < i → get_elem? b.used_request_index j ≢ some 0)
      → result.1.used_request_index ≡ set b.used_request_index i 1
      → Taken b result
  full :
      result.0 ≡ none
      → ((j : ℕ) → get_elem? b.used_request_index j ≢ some 0)
      → result.1 ≡ b
      → Taken b result

-- `find_free_index` takes the first slot that is free, marks that slot and no other, and returns
-- three times its number; if no slot is free it returns -1 and changes nothing.
pub find_free_index-Taken : (b : BlockData) → Taken b (find_free_index b)
unfolding find_free_index
find_free_index-Taken b = elim (find_free_from-FirstZero 0 b.used_request_index) [
  | zero_at i e at before ↦
      let e' : find_free_from 0 b.used_request_index ≡ some i = e ∙ ap some (omega arith) in
      rw (find_free_index, e') (slot i refl at before refl)
  | nowhere e none_zero ↦ rw (find_free_index, e) (full refl none_zero refl)
]

-- A free first slot is the one that is taken.
pub find_free_index_first :
    (b : BlockData) (rest : List ℕ)
    → b.used_request_index ≡ 0 ∷ rest
    → find_free_index b ≡ (
      some 0,
      record { global_count = (b.global_count + 1) % 2 ^ 8; used_request_index = 1 ∷ rest },
    )
unfolding find_free_index find_free_from
find_free_index_first b rest free =
    let marked : set b.used_request_index 0 1 ≡ 1 ∷ rest = ap (λ u. set u 0 1) free in
    rw (find_free_index, free) (rw marked refl)

-- With the first slot in use and the second one free, the index is 3.
pub find_free_index_second :
    (b : BlockData) (rest : List ℕ)
    → b.used_request_index ≡ 1 ∷ (0 ∷ rest)
    → find_free_index b ≡ (
      some 3,
      record { global_count = (b.global_count + 1) % 2 ^ 8; used_request_index = 1 ∷ (1 ∷ rest) },
    )
unfolding find_free_index find_free_from
find_free_index_second b rest free =
    let marked : set b.used_request_index 1 1 ≡ 1 ∷ (1 ∷ rest) = ap (λ u. set u 1 1) free in
    rw (find_free_index, free) (rw marked refl)
