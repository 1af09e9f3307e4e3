-- ===== src/Fuzz/Order.antt =====
-- What the two threads of the fuzzer fuzzing/fuzz_nsim.c give first and last.
use kernel_fuzzing.Base.{
  ℕ, ◌%◌, ◌<◌, ◌≡◌, refl, ap, subst, Bool, true, false, List, [], ◌∷◌, ◌++◌, ◌==◌, if◌then◌else◌,
  arith, ◌⊎◌, inl, inr,
}
use kernel_fuzzing.Fuzz.{
  Text, first_nsim_if, Command, nsim_new, nsim_del, Trace, Interfaces, byte_or, Program, finished,
  issue, look, if_any, on_first, or_create, run_op, do_op, runner, Threads, advance, turn, run,
}
use kernel_fuzzing.Fuzz.Sequence.{closing}

-- The last command that is left deletes the device, whatever the interfaces.
abbrev pub Closes : (id : ℕ) → Program → Type 0
Closes id finished = ⊥
Closes id (issue command rest) = ((rest ≡ finished) × (command ≡ nsim_del id)) ⊎ Closes id rest
Closes id (look rest) = (o : Text) → Closes id (rest o)

module _ (id : ℕ) where
  if-Closes :
      (b : Bool) (p q : Program) → Closes id p → Closes id q → Closes id (if b then p else q)
  if-Closes true p q h k = h
  if-Closes false p q h k = k

  if_any-Closes :
      (command : Text → Command) (rest : Program)
      → Closes id rest
      → (o : Text) → Closes id (if_any command rest o)
  unfolding if_any
  if_any-Closes command rest h [] = h
  if_any-Closes command rest h (c ∷ name) = inr h

  on_first-Closes :
      (command : Text → Command) (rest : Program)
      → Closes id rest
      → Closes id (on_first command rest)
  unfolding on_first
  on_first-Closes command rest h = if_any-Closes command rest h

  or_create-Closes :
      (i : ℕ) (command : Text → Command) (rest : Program)
      → Closes id rest
      → (o : Text) → Closes id (or_create i command rest o)
  unfolding or_create
  or_create-Closes i command rest h [] = inr (on_first-Closes command rest h)
  or_create-Closes i command rest h (c ∷ name) = inr h

  run_op-Closes :
      (op : ℕ) (p : List ℕ) (i : ℕ) (rest : Program)
      → Closes id rest
      → Closes id (run_op op p i rest)
  unfolding run_op
  run_op-Closes op p i rest h =
      let either =
        λ (b : Bool) (x y : Program) (h : Closes id x) (k : Closes id y). if-Closes b x y h k in
      either (op == 0) _ _ (inr h) (
        either (op == 1) _ _ (or_create-Closes i _ rest h) (
          either (op == 2) _ _ (on_first-Closes _ rest h) (
            either (op == 3) _ _ (on_first-Closes _ rest h) (
              either (op == 4) _ _ (on_first-Closes _ rest h) (
                either (op == 5) _ _ (inr h) (
                  either (op == 6) _ _ (inr (inr h)) (
                    either (op == 7) _ _ (on_first-Closes _ rest h)
                      (either (op == 8) _ _ (on_first-Closes _ rest h) h))))))))

  do_op-Closes :
      (p : List ℕ) (default_id : ℕ) (rest : Program)
      → Closes id rest
      → Closes id (do_op p default_id rest)
  unfolding do_op
  do_op-Closes [] default_id rest h = h
  do_op-Closes (op ∷ p) default_id rest h = run_op-Closes op (op ∷ p) _ rest h

  pub runner-Closes :
      (xs ys : List (List ℕ)) → Closes id (runner ys) → Closes id (runner (xs ++ ys))
  unfolding runner
  runner-Closes [] ys h = h
  runner-Closes (x ∷ xs) ys h = do_op-Closes x 1 (runner (xs ++ ys)) (runner-Closes xs ys h)

  pub closing-Closes : (odd : Bool) → id < 32 → Closes id (runner (closing id odd))
  unfolding runner do_op run_op byte_or
  closing-Closes true small =
      let e : id % 32 ≡ id = omega arith in rw e (inr (inr (inl (refl, refl))))
  closing-Closes false small = let e : id % 32 ≡ id = omega arith in rw e (inl (refl, refl))

  -- The last command so far.
  abbrev pub Ends : Trace → Type 0
  Ends t = (u : Trace) × (t ≡ nsim_del id ∷ u)

  -- The first command so far.
  abbrev pub Begins : Trace → Type 0
  Begins t = (u : Trace) × (t ≡ u ++ nsim_new id 2 ∷ [])

  -- Each of the two threads has its last command before it or is done, and one of them has it
  -- before it unless the last command so far is one.
  abbrev pub WillEnd : Program → Program → Trace → Type 0
  WillEnd p q t =
      (Closes id p ⊎ (p ≡ finished))
      × (Closes id q ⊎ (q ≡ finished))
      × (Closes id p ⊎ (Closes id q ⊎ Ends t))

  WillEnd-swap : (p q : Program) (t : Trace) → WillEnd p q t → WillEnd q p t
  WillEnd-swap p q t (h, k, inl a) = (k, h, inr (inl a))
  WillEnd-swap p q t (h, k, inr (inl b)) = (k, h, inl b)
  WillEnd-swap p q t (h, k, inr (inr c)) = (k, h, inr (inr c))

  advance-WillEnd :
      (interfaces : Interfaces) (p q : Program) (t : Trace)
      → WillEnd p q t
      → WillEnd (advance interfaces p t).0 q (advance interfaces p t).1
  unfolding advance
  advance-WillEnd interfaces finished q t h = h
  advance-WillEnd interfaces (issue command rest) q t (inl (inl (e, f)), k, c) =
      (inr e, k, inr (inr (t, ap (λ c. c ∷ t) f)))
  advance-WillEnd interfaces (issue command rest) q t (inl (inr h), k, c) = (inl h, k, inl h)
  advance-WillEnd interfaces (issue command rest) q t (inr e, k, c) = absurd (ground (arith, e))
  advance-WillEnd interfaces (look rest) q t (inl h, k, c) =
      (inl (h (first_nsim_if (interfaces t))), k, inl (h (first_nsim_if (interfaces t))))
  advance-WillEnd interfaces (look rest) q t (inr e, k, c) = absurd (ground (arith, e))

  pub run-WillEnd :
      (interfaces : Interfaces) (s : Threads) (turns : List Bool)
      → WillEnd s.first s.second s.trace
      → let s' = run interfaces s turns in WillEnd s'.first s'.second s'.trace
  unfolding run turn
  run-WillEnd interfaces s [] h = h
  run-WillEnd interfaces s (true ∷ turns) h =
      run-WillEnd interfaces (turn interfaces s true) turns
        (advance-WillEnd interfaces s.first s.second s.trace h)
  run-WillEnd interfaces s (false ∷ turns) h =
      run-WillEnd interfaces (turn interfaces s false) turns (
        WillEnd-swap _ _ _
          (advance-WillEnd interfaces s.second s.first s.trace (WillEnd-swap _ _ _ h)))

  -- Both threads finished: the last command is a deletion.
  pub WillEnd-finished :
      (p q : Program) (t : Trace) → WillEnd p q t → p ≡ finished → q ≡ finished → Ends t
  WillEnd-finished p q t (h, k, inl a) e f = absurd (subst (λ x. Closes id x) e a)
  WillEnd-finished p q t (h, k, inr (inl b)) e f = absurd (subst (λ x. Closes id x) f b)
  WillEnd-finished p q t (h, k, inr (inr c)) e f = c

  advance-Begins :
      (interfaces : Interfaces) (p : Program) (t : Trace)
      → Begins t
      → Begins (advance interfaces p t).1
  unfolding advance
  advance-Begins interfaces finished t h = h
  advance-Begins interfaces (issue command rest) t (u, e) = (command ∷ u, ap (λ t. command ∷ t) e)
  advance-Begins interfaces (look rest) t h = h

  pub run-Begins :
      (interfaces : Interfaces) (s : Threads) (turns : List Bool)
      → Begins s.trace
      → Begins (run interfaces s turns).trace
  unfolding run turn
  run-Begins interfaces s [] h = h
  run-Begins interfaces s (true ∷ turns) h =
      run-Begins interfaces (turn interfaces s true) turns
        (advance-Begins interfaces s.first s.trace h)
  run-Begins interfaces s (false ∷ turns) h =
      run-Begins interfaces (turn interfaces s false) turns
        (advance-Begins interfaces s.second s.trace h)
