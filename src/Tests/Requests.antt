-- ===== src/Tests/Requests.antt =====
-- Requests of the block driver in flight, from twelve free slots.
use kernel_fuzzing.Base.{ℕ, refl, List, [], ◌∷◌, arith}
use kernel_fuzzing.Block.{find_free_index, find_free_from, release}
use kernel_fuzzing.Block.Flight.{
  Flight, starts, finishes, Reach, here, next, remove, Alone, Reach-Alone, Reach-collides,
  four_slots,
}

abbrev eight : List ℕ
eight = 0 ∷ 0 ∷ 0 ∷ 0 ∷ 0 ∷ 0 ∷ 0 ∷ 0 ∷ []

abbrev free_slots : Flight
free_slots = four_slots 0 0 0 0 0 eight []

abbrev taken : Flight
taken = four_slots 1 1 0 0 0 eight (0 ∷ [])

abbrev given_back : Flight
given_back = four_slots 1 0 0 0 0 eight []

-- A request, its end, and a request again.
three_steps : Reach 1 free_slots (four_slots 2 1 0 0 0 eight (0 ∷ []))
unfolding find_free_index find_free_from release remove
three_steps =
    let r1 =
      next free_slots free_slots taken (here free_slots) (starts free_slots taken 0 refl refl)
        (omega arith) in
    let r2 =
      next free_slots taken given_back r1 (finishes taken given_back 0 refl refl) (omega arith) in
    next free_slots given_back (four_slots 2 1 0 0 0 eight (0 ∷ [])) r2
      (starts given_back (four_slots 2 1 0 0 0 eight (0 ∷ [])) 0 refl refl) (omega arith)

Reach-Alone_example : Alone (0 ∷ 0 ∷ 0 ∷ eight) (four_slots 2 1 0 0 0 eight (0 ∷ []))
Reach-Alone_example =
    Reach-Alone (0 ∷ 0 ∷ 0 ∷ eight) free_slots (four_slots 2 1 0 0 0 eight (0 ∷ [])) refl refl
      three_steps

Reach-collides_example :
    Reach 4 (four_slots 0 0 0 0 0 eight []) (four_slots 5 1 1 1 1 eight (9 ∷ 9 ∷ 6 ∷ 0 ∷ []))
Reach-collides_example = Reach-collides eight
