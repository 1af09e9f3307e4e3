-- ===== src/Block/Flight.antt =====
-- Requests of kernel/drivers/block/block_driver.c in flight: a request takes a slot in its part
-- under the lock, and gives it back when the device has answered, in any order.
use kernel_fuzzing.Base.{
  ℕ, zero, suc, ◌%◌, ◌^◌, ◌≤◌, ◌≡◌, ◌⊎◌, inl, inr, refl, sym, ap, ◌∙◌, true, Option, none, some,
  List, [], ◌∷◌, ltb, ◌==◌, if◌then◌else◌, ◌>>=◌, length, set, arith,
}
use kernel_fuzzing.Block.Slots.{find_free_index_first}
use kernel_fuzzing.Block.{BlockData, find_free_index, find_free_from, release}

-- The slots, and the indices of the requests that the device has not answered, the last one first.
pub record Flight : Type 0 where
  pub slots : BlockData
  pub flying : List ℕ

-- A list without the first place of a number.
unfoldable pub remove : ℕ → List ℕ → Option (List ℕ)
remove x [] = none
remove x (y ∷ ys) =
    let rest = remove x ys >>= λ zs. some (y ∷ zs) in if y == x then some ys else rest

-- `find_free_index` under the lock, or `used_request_index[free_index] = 0` at the end.
pub data Step : Flight → Flight → Type 0 where
  starts :
      (f g : Flight) (index : ℕ)
      → find_free_index f.slots ≡ (some index, g.slots)
      → g.flying ≡ index ∷ f.flying
      → Step f g
  finishes :
      (f g : Flight) (index : ℕ)
      → remove index f.flying ≡ some g.flying
      → release index f.slots ≡ some g.slots
      → Step f g

-- Any number of steps with at most `most` requests in flight.
pub data Reach (most : ℕ) : Flight → Flight → Type 0 where
  here : (f : Flight) → Reach most f f
  next : (f g h : Flight) → Reach most f g → Step g h → length h.flying ≤ most → Reach most f h

-- The first slot free and nothing in flight, or the first slot taken by the only request.
abbrev pub Alone : List ℕ → Flight → Type 0
Alone rest f =
    ((f.flying ≡ []) × (f.slots.used_request_index ≡ 0 ∷ rest))
    ⊎ ((f.flying ≡ 0 ∷ []) × (f.slots.used_request_index ≡ 1 ∷ rest))

first_released :
    (b : BlockData) (rest : List ℕ)
    → b.used_request_index ≡ 1 ∷ rest
    → release 0 b ≡ some (record { global_count = b.global_count; used_request_index = 0 ∷ rest })
unfolding release
first_released b rest taken =
    let inside : ltb 0 (length b.used_request_index) ≡ true = ground (arith, taken) in
    let freed : set b.used_request_index 0 0 ≡ 0 ∷ rest = ap (λ u. set u 0 0) taken in
    rw (release, inside) (rw freed refl)

index_zero : (index : ℕ) → some 0 ≡ some index → index ≡ 0
index_zero index e = ground arith

used_same : (b c : BlockData) → some b ≡ some c → c.used_request_index ≡ b.used_request_index
used_same b c e = sym (ap (λ (o : Option BlockData). entries o) e)
  where
    entries : Option BlockData → List ℕ
    entries none = []
    entries (some d) = d.used_request_index

remove_only :
    (index : ℕ) (left : List ℕ) → remove index (0 ∷ []) ≡ some left → (index ≡ 0) × (left ≡ [])
unfolding remove
remove_only zero left e = (refl, ground (arith, e))
remove_only (suc index) left e = absurd (ground (arith, e))

Alone-Step :
    (rest : List ℕ) (f g : Flight) → Alone rest f → Step f g → length g.flying ≤ 1 → Alone rest g
unfolding remove
Alone-Step rest f g (inl idle) (starts _ _ index e fly) one =
    let first = sym (find_free_index_first f.slots rest idle.1) ∙ e in
    let zeroth : index ≡ 0 = index_zero index (ap (λ r. r.0) first) in
    inr (
      fly ∙ ap (λ l. index ∷ l) idle.0 ∙ ap (λ i. i ∷ []) zeroth,
      sym (ap (λ (r : Option ℕ × BlockData). r.1.used_request_index) first),
    )
Alone-Step rest f g (inr busy) (starts _ _ index e fly) one =
    let two : length g.flying ≡ 2 = ap length (fly ∙ ap (λ l. index ∷ l) busy.0) in
    absurd (omega arith)
Alone-Step rest f g (inl idle) (finishes _ _ index gone back) one =
    let nothing : none ≡ some g.flying = sym (ap (remove index) idle.0) ∙ gone in
    absurd (ground arith)
Alone-Step rest f g (inr busy) (finishes _ _ index gone back) one =
    let (zeroth, left) = remove_only index g.flying (sym (ap (remove index) busy.0) ∙ gone) in
    let freed =
      sym (first_released f.slots rest busy.1) ∙ ap (λ i. release i f.slots) (sym zeroth) ∙ back in
    inl (left, used_same _ g.slots freed)

-- From a free first slot and nothing in flight, as long as one request at most is in flight, every request gets the first slot, and the slots are
-- afterwards as they were before: none is lost.
pub Reach-Alone :
    (rest : List ℕ) (f g : Flight)
    → f.flying ≡ []
    → f.slots.used_request_index ≡ 0 ∷ rest
    → Reach 1 f g
    → Alone rest g
Reach-Alone rest f g idle free reach = follow g reach
  where
    follow : (h : Flight) → Reach 1 f h → Alone rest h
    follow h (here _) = inl (idle, free)
    follow h (next _ k _ before step few) = Alone-Step rest k h (follow k before) step few

-- A state with these first four slots.
abbrev pub four_slots : (count s0 s1 s2 s3 : ℕ) → (rest flying : List ℕ) → Flight
four_slots count s0 s1 s2 s3 rest flying = record {
  slots = record { global_count = count % 2 ^ 8; used_request_index = s0 ∷ s1 ∷ s2 ∷ s3 ∷ rest };
  flying = flying;
}

-- Four requests together take the slots 0 to 3. When the second one ends, the slot of the fourth is
-- freed in its place, so the next request gets the descriptors from 9 on, which the fourth still
-- has in flight, while slot 1 stays in use.
pub Reach-collides :
    (rest : List ℕ)
    → Reach 4 (four_slots 0 0 0 0 0 rest []) (four_slots 5 1 1 1 1 rest (9 ∷ 9 ∷ 6 ∷ 0 ∷ []))
unfolding find_free_index find_free_from release remove
Reach-collides rest =
    let f0 = four_slots 0 0 0 0 0 rest [] in
    let f1 = four_slots 1 1 0 0 0 rest (0 ∷ []) in
    let f2 = four_slots 2 1 1 0 0 rest (3 ∷ 0 ∷ []) in
    let f3 = four_slots 3 1 1 1 0 rest (6 ∷ 3 ∷ 0 ∷ []) in
    let f4 = four_slots 4 1 1 1 1 rest (9 ∷ 6 ∷ 3 ∷ 0 ∷ []) in
    let f5 = four_slots 4 1 1 1 0 rest (9 ∷ 6 ∷ 0 ∷ []) in
    let f6 = four_slots 5 1 1 1 1 rest (9 ∷ 9 ∷ 6 ∷ 0 ∷ []) in
    let r1 = next f0 f0 f1 (here f0) (starts f0 f1 0 refl refl) (omega arith) in
    let r2 = next f0 f1 f2 r1 (starts f1 f2 3 refl refl) (omega arith) in
    let r3 = next f0 f2 f3 r2 (starts f2 f3 6 refl refl) (omega arith) in
    let r4 = next f0 f3 f4 r3 (starts f3 f4 9 refl refl) (omega arith) in
    let inside : ltb 3 (length (1 ∷ 1 ∷ 1 ∷ 1 ∷ rest)) ≡ true = ground arith in
    let back : release 3 f4.slots ≡ some f5.slots = rw (release, inside) refl in
    let r5 = next f0 f4 f5 r4 (finishes f4 f5 3 refl back) (omega arith) in
    next f0 f5 f6 r5 (starts f5 f6 9 refl refl) (omega arith)
