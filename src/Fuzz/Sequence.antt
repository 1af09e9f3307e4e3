-- ===== src/Fuzz/Sequence.antt =====
-- The sequences that `LLVMFuzzerTestOneInput` of fuzzing/fuzz_nsim.c builds.
use kernel_fuzzing.Base.{
  ℕ, zero, suc, ◌+◌, ◌-◌, ◌%◌, ◌≤◌, ◌<◌, ◌≡◌, refl, bit_and, List, [], ◌∷◌, ◌++◌, ◌==◌,
  if◌then◌else◌, length, length-append, arith, All, Bool, true, false,
}
use kernel_fuzzing.Fuzz.{op_del, op_double_del, take_bytes, drop_bytes, slices, count_of, sequence}

-- Every byte is one.
abbrev pub IsBytes : List ℕ → Type 0
IsBytes p = All (λ x. x < 256) p

-- An operation with the id behind its code, and at most eight bytes more.
abbrev pub IsSlice : (id : ℕ) → List ℕ → Type 0
IsSlice id [] = ⊥
IsSlice id (op ∷ []) = ⊥
IsSlice id (op ∷ (i ∷ p)) = (i ≡ id) × (op < 256) × IsBytes p × (length p ≤ 8)

abbrev pub AllSlices : (id : ℕ) → List (List ℕ) → Type 0
AllSlices id [] = Unit {0}
AllSlices id (p ∷ seq) = IsSlice id p × AllSlices id seq

pub AllSlices-append :
    (id : ℕ) (xs ys : List (List ℕ)) → AllSlices id xs → AllSlices id ys → AllSlices id (xs ++ ys)
AllSlices-append id [] ys h k = k
AllSlices-append id (x ∷ xs) ys h k = (h.0, AllSlices-append id xs ys h.1 k)

pub length-take_bytes : (n : ℕ) (xs : List ℕ) → length (take_bytes n xs) ≤ n
unfolding take_bytes
length-take_bytes zero xs = omega arith
length-take_bytes (suc n) [] = omega arith
length-take_bytes (suc n) (x ∷ xs) = omega (arith, length-take_bytes n xs)

take_bytes-IsBytes : (n : ℕ) (xs : List ℕ) → IsBytes xs → IsBytes (take_bytes n xs)
unfolding take_bytes
take_bytes-IsBytes zero xs h = tt
take_bytes-IsBytes (suc n) [] h = tt
take_bytes-IsBytes (suc n) (x ∷ xs) h = (h.0, take_bytes-IsBytes n xs h.1)

drop_bytes-IsBytes : (n : ℕ) (xs : List ℕ) → IsBytes xs → IsBytes (drop_bytes n xs)
unfolding drop_bytes
drop_bytes-IsBytes zero xs h = h
drop_bytes-IsBytes (suc n) [] h = tt
drop_bytes-IsBytes (suc n) (x ∷ xs) h = drop_bytes-IsBytes n xs h.1

slices-AllSlices :
    (rounds id : ℕ) (rest : List ℕ) → IsBytes rest → AllSlices id (slices rounds id rest)
unfolding slices
slices-AllSlices zero id rest h = tt
slices-AllSlices (suc rounds) id [] h = tt
slices-AllSlices (suc rounds) id (op ∷ rest) h = (
  (refl, h.0, take_bytes-IsBytes 8 rest h.1, length-take_bytes 8 rest),
  slices-AllSlices rounds id (drop_bytes 8 rest) (drop_bytes-IsBytes 8 rest h.1),
)

length-slices : (rounds id : ℕ) (rest : List ℕ) → length (slices rounds id rest) ≤ rounds
unfolding slices
length-slices zero id rest = omega arith
length-slices (suc rounds) id [] = omega arith
length-slices (suc rounds) id (op ∷ rest) =
    omega (arith, length-slices rounds id (drop_bytes 8 rest))

-- The operations at the end.
abbrev pub closing : (id : ℕ) → Bool → List (List ℕ)
closing id odd = (op_del ∷ id ∷ []) ∷ (if odd then (op_double_del ∷ id ∷ []) ∷ [] else [])

closing-AllSlices :
    (id : ℕ) (odd : Bool)
    → AllSlices id (closing id odd) × (1 ≤ length (closing id odd)) × (length (closing id odd) ≤ 2)
closing-AllSlices id true = (
  ((refl, omega arith, tt, omega arith), ((refl, omega arith, tt, omega arith), tt)),
  omega arith,
  omega arith,
)
closing-AllSlices id false = (((refl, omega arith, tt, omega arith), tt), omega arith, omega arith)

-- For an input of bytes that is not empty, every operation of the sequence has the id of the first
-- byte and two to ten bytes, and the operations fit the array of `count + 3` entries.
pub sequence-AllSlices :
    (first : ℕ) (rest : List ℕ)
    → IsBytes rest
    → AllSlices (first % 32) (sequence (first ∷ rest))
      × (length (sequence (first ∷ rest)) ≤ count_of first + 2)
      × (2 ≤ length (sequence (first ∷ rest)))
unfolding sequence count_of
sequence-AllSlices first rest h =
    let id = first % 32 in
    let middle = slices (count_of first - 1) id rest in
    let last = closing id (bit_and first 1 == 1) in
    let end = closing-AllSlices id (bit_and first 1 == 1) in
    let count = length-append middle last in
    let most = length-slices (count_of first - 1) id rest in
    let some_rounds : 1 ≤ count_of first = omega arith in
    (
      (
        (refl, omega arith, (omega arith, tt), omega arith),
        AllSlices-append id middle last (slices-AllSlices (count_of first - 1) id rest h) end.0,
      ),
      omega (arith, count, most, end.2, some_rounds),
      omega (arith, count, end.1),
    )
