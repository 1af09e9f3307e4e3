-- ===== src/Fuzz/Finish.antt =====
-- The two threads of the fuzzer fuzzing/fuzz_nsim.c finish.
use kernel_fuzzing.Base.{
  ℕ, zero, suc, ◌+◌, ◌-◌, ◌*◌, ◌%◌, ◌≤◌, ◌≡◌, refl, Bool, true, false, List, [], ◌∷◌, ◌==◌,
  if◌then◌else◌, length, bit_and, arith, inl,
}
use kernel_fuzzing.Fuzz.{
  Text, first_nsim_if, Command, nsim_new, nsim_del, byte_or, ports_of, Trace, Interfaces, Program,
  finished, issue, look, if_any, on_first, or_create, run_op, do_op, runner, Threads, advance, turn,
  run, start, slices, count_of, sequence,
}
use kernel_fuzzing.Fuzz.Sequence.{IsBytes, closing, sequence-AllSlices}
use kernel_fuzzing.Fuzz.Order.{
  Closes, Ends, Begins, runner-Closes, closing-Closes, run-WillEnd, WillEnd-finished, run-Begins,
}

-- At most `n` turns are left, whatever the interfaces.
abbrev pub Within : (n : ℕ) → Program → Type 0
Within n finished = Unit {0}
Within zero (issue command rest) = ⊥
Within zero (look rest) = ⊥
Within (suc n) (issue command rest) = Within n rest
Within (suc n) (look rest) = (o : Text) → Within n (rest o)

Within-more : (n : ℕ) (p : Program) → Within n p → Within (suc n) p
Within-more n finished h = tt
Within-more zero (issue command rest) h = absurd h
Within-more zero (look rest) h = absurd h
Within-more (suc n) (issue command rest) h = Within-more n rest h
Within-more (suc n) (look rest) h = λ o. Within-more n (rest o) (h o)

if-Within :
    (n : ℕ) (b : Bool) (p q : Program) → Within n p → Within n q → Within n (if b then p else q)
if-Within n true p q h k = h
if-Within n false p q h k = k

if_any-Within :
    (n : ℕ) (command : Text → Command) (rest : Program)
    → Within n rest
    → (o : Text) → Within (suc n) (if_any command rest o)
unfolding if_any
if_any-Within n command rest h [] = Within-more n rest h
if_any-Within n command rest h (c ∷ name) = h

on_first-Within :
    (n : ℕ) (command : Text → Command) (rest : Program)
    → Within n rest
    → Within (suc (suc n)) (on_first command rest)
unfolding on_first
on_first-Within n command rest h = if_any-Within n command rest h

or_create-Within :
    (n id : ℕ) (command : Text → Command) (rest : Program)
    → Within n rest
    → (o : Text) → Within (suc (suc (suc n))) (or_create id command rest o)
unfolding or_create
or_create-Within n id command rest h [] = on_first-Within n command rest h
or_create-Within n id command rest h (c ∷ name) = Within-more (suc n) rest (Within-more n rest h)

abbrev more : ℕ → ℕ
more n = suc (suc (suc (suc n)))

module _ (n : ℕ) where
  -- An operation takes four turns at most.
  run_op-Within :
      (op : ℕ) (p : List ℕ) (id : ℕ) (rest : Program)
      → Within n rest
      → Within (more n) (run_op op p id rest)
  unfolding run_op
  run_op-Within op p id rest h =
      let either = λ (b : Bool) (x y : Program) (h : Within (more n) x) (k : Within (more n) y).
        if-Within (more n) b x y h k in
      let two = λ (x : Program) (h : Within (suc (suc n)) x).
        Within-more (suc (suc (suc n))) x (Within-more (suc (suc n)) x h) in
      let after = two rest (Within-more (suc n) rest (Within-more n rest h)) in
      let first = λ (command : Text → Command).
        two (on_first command rest) (on_first-Within n command rest h) in
      either (op == 0) _ _ (two (issue (nsim_new id (ports_of p)) rest) (Within-more n rest h)) (
        either (op == 1) _ _ (or_create-Within n id _ rest h) (
          either (op == 2) _ _ (first _) (
            either (op == 3) _ _ (first _) (
              either (op == 4) _ _ (first _) (
                either (op == 5) _ _ (two (issue (nsim_del id) rest) (Within-more n rest h)) (
                  either (op == 6) _ _ (two (issue (nsim_del id) (issue (nsim_del id) rest)) h)
                    (either (op == 7) _ _ (first _) (either (op == 8) _ _ (first _) after))))))))

  do_op-Within :
      (p : List ℕ) (default_id : ℕ) (rest : Program)
      → Within n rest
      → Within (more n) (do_op p default_id rest)
  unfolding do_op
  do_op-Within [] default_id rest h =
      Within-more (suc (suc (suc n))) rest
        (Within-more (suc (suc n)) rest (Within-more (suc n) rest (Within-more n rest h)))
  do_op-Within (op ∷ p) default_id rest h = run_op-Within op (op ∷ p) _ rest h

-- Four turns for each operation.
abbrev budget : List (List ℕ) → ℕ
budget [] = 0
budget (p ∷ seq) = more (budget seq)

budget-length : (seq : List (List ℕ)) → budget seq ≡ 4 * length seq
budget-length [] = refl
budget-length (p ∷ seq) = omega (arith, budget-length seq)

runner-Within : (seq : List (List ℕ)) → Within (budget seq) (runner seq)
unfolding runner
runner-Within [] = tt
runner-Within (p ∷ seq) = do_op-Within (budget seq) p 1 (runner seq) (runner-Within seq)

-- The turns of the first thread, and of the second.
abbrev pub first_turns : List Bool → ℕ
first_turns [] = 0
first_turns (true ∷ turns) = 1 + first_turns turns
first_turns (false ∷ turns) = first_turns turns

abbrev pub second_turns : List Bool → ℕ
second_turns [] = 0
second_turns (true ∷ turns) = second_turns turns
second_turns (false ∷ turns) = 1 + second_turns turns

abbrev less : ℕ → ℕ
less zero = zero
less (suc n) = n

less_bound : (n m : ℕ) → n ≤ 1 + m → less n ≤ m
less_bound zero m h = omega arith
less_bound (suc n) m h = omega (arith, h)

Within-none : (n m : ℕ) (p : Program) → Within n p → n ≤ m → m ≡ 0 → p ≡ finished
Within-none n m finished h k e = refl
Within-none zero m (issue command rest) h k e = absurd h
Within-none zero m (look rest) h k e = absurd h
Within-none (suc n) m (issue command rest) h k e = absurd (omega (arith, k, e))
Within-none (suc n) m (look rest) h k e = absurd (omega (arith, k, e))

advance-Within :
    (interfaces : Interfaces) (n : ℕ) (p : Program) (t : Trace)
    → Within n p
    → Within (less n) (advance interfaces p t).0
unfolding advance
advance-Within interfaces n finished t h = tt
advance-Within interfaces zero (issue command rest) t h = absurd h
advance-Within interfaces (suc n) (issue command rest) t h = h
advance-Within interfaces zero (look rest) t h = absurd h
advance-Within interfaces (suc n) (look rest) t h = h (first_nsim_if (interfaces t))

run-finished :
    (interfaces : Interfaces) (s : Threads) (turns : List Bool) (n m : ℕ)
    → Within n s.first
    → Within m s.second
    → n ≤ first_turns turns
    → m ≤ second_turns turns
    → ((run interfaces s turns).first ≡ finished) × ((run interfaces s turns).second ≡ finished)
unfolding run turn
run-finished interfaces s [] n m h k a b =
    (Within-none n 0 s.first h a refl, Within-none m 0 s.second k b refl)
run-finished interfaces s (true ∷ turns) n m h k a b =
    run-finished interfaces (turn interfaces s true) turns (less n) m
      (advance-Within interfaces n s.first s.trace h) k (less_bound n _ a) b
run-finished interfaces s (false ∷ turns) n m h k a b =
    run-finished interfaces (turn interfaces s false) turns n (less m) h
      (advance-Within interfaces m s.second s.trace k) a (less_bound m _ b)

-- The first turn, of either thread, creates the device.
turn-Begins :
    (interfaces : Interfaces) (first : ℕ) (rest : List ℕ) (b : Bool)
    → Begins (first % 32) (turn interfaces (start (first ∷ rest)) b).trace
unfolding turn start sequence runner do_op run_op advance byte_or ports_of
turn-Begins interfaces first rest true =
    let e : first % 32 % 32 ≡ first % 32 = omega arith in ([], rw e refl)
turn-Begins interfaces first rest false =
    let e : first % 32 % 32 ≡ first % 32 = omega arith in ([], rw e refl)

start-Begins :
    (interfaces : Interfaces) (first : ℕ) (rest : List ℕ) (turns : List Bool)
    → 104 ≤ first_turns turns
    → Begins (first % 32) (run interfaces (start (first ∷ rest)) turns).trace
unfolding run
start-Begins interfaces first rest [] h = absurd (omega (arith, h))
start-Begins interfaces first rest (b ∷ turns) h =
    run-Begins (first % 32) interfaces (turn interfaces (start (first ∷ rest)) b) turns
      (turn-Begins interfaces first rest b)

count_of_bound : (first : ℕ) → count_of first ≤ 24
unfolding count_of
count_of_bound first = omega arith

sequence-Closes :
    (first : ℕ) (rest : List ℕ) → Closes (first % 32) (runner (sequence (first ∷ rest)))
unfolding sequence
sequence-Closes first rest =
    let id = first % 32 in
    let odd = bit_and first 1 == 1 in
    runner-Closes id ((0 ∷ id ∷ 1 ∷ []) ∷ slices (count_of first - 1) id rest) (closing id odd)
      (closing-Closes id odd (omega arith))

-- For an input of bytes that is not empty and any interfaces, both threads finish in whatever order
-- they take turns, if each gets 104 turns at least. Then the first command creates the device of
-- the input with two ports, and the last one deletes it.
pub run-start_order :
    (interfaces : Interfaces) (first : ℕ) (rest : List ℕ) (turns : List Bool)
    → IsBytes rest
    → 104 ≤ first_turns turns
    → 104 ≤ second_turns turns
    → let s = run interfaces (start (first ∷ rest)) turns in
      (s.first ≡ finished)
      × (s.second ≡ finished)
      × Begins (first % 32) s.trace
      × Ends (first % 32) s.trace
unfolding start
run-start_order interfaces first rest turns bytes a b =
    let seq = sequence (first ∷ rest) in
    let s = run interfaces (start (first ∷ rest)) turns in
    let most : count_of first ≤ 24 = count_of_bound first in
    let enough : budget seq ≤ 104 =
      omega (arith, budget-length seq, (sequence-AllSlices first rest bytes).1, most) in
    let (p, q) =
      run-finished interfaces (start (first ∷ rest)) turns (budget seq) (budget seq)
        (runner-Within seq) (runner-Within seq) (omega (arith, enough, a))
        (omega (arith, enough, b)) in
    let c = sequence-Closes first rest in
    let last =
      run-WillEnd (first % 32) interfaces (start (first ∷ rest)) turns (inl c, inl c, inl c) in
    (
      p,
      q,
      start-Begins interfaces first rest turns a,
      WillEnd-finished (first % 32) s.first s.second s.trace last p q,
    )
