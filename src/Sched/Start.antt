-- ===== src/Sched/Start.antt =====
-- How the ready queue comes to be: `sched_ready_enqueue` for each task of `init_task`, then
-- `sched_set_current`, as `kmain` of kernel/core/kmain.c calls them.
use kernel_fuzzing.Base.{
  ℕ, ◌≡◌, ◌≢◌, ◌∙◌, sym, ap, refl, subst, false, List, [], ◌∷◌, ◌++◌, arith, ◌==◌, has, update,
  Distinct, All, All-map, All-map_has, update_ne, has_ne, true, has-All, Distinct-apart,
  Distinct-take, All-take, All-append, if◌then◌else◌,
}
use kernel_fuzzing.Sched.{
  Task, put, Sched, ready, running, sched_ready_enqueue, sched_set_current, rq_push,
}
use kernel_fuzzing.Sched.Queue.{Linked, Linked-has, Linked-map, Linked-map_has, Linked-snoc}
use mathlib.Core.List.{append-nil, append_assoc}
use kernel_fuzzing.Sched.Round.{Turn}

abbrev pub enqueue_all : Sched → List ℕ → Sched
enqueue_all s [] = s
enqueue_all s (x ∷ xs) = enqueue_all (sched_ready_enqueue s x) xs

-- The queue holds exactly these tasks, all ready with a full slice.
pub record Waiting (s : Sched) (x : ℕ) (xs : List ℕ) : Type 0 where
  pub head : s.rq_head ≡ x
  pub linked : Linked s.tasks (x ∷ xs) s.rq_tail
  pub all_ready : All (λ y. (s.tasks y).state ≡ ready) (x ∷ xs)
  pub all_fresh : All (λ y. (s.tasks y).slice_left ≡ 10) (x ∷ xs)

module _ (s : Sched) (z : ℕ) where
  abbrev pub enqueued : Sched
  enqueued = sched_ready_enqueue s z

  state_enqueued :
      (y : ℕ) → (enqueued.tasks y).state ≡ (if y == z then ready else (s.tasks y).state)
  unfolding sched_ready_enqueue rq_push update
  state_enqueued y = ground arith

  slice_left_enqueued :
      (y : ℕ) → (enqueued.tasks y).slice_left ≡ (if y == z then 10 else (s.tasks y).slice_left)
  unfolding sched_ready_enqueue rq_push update
  slice_left_enqueued y = ground arith

  next_enqueued :
      s.rq_tail ≢ 0
      → (y : ℕ) → (enqueued.tasks y).next ≡ (if y == s.rq_tail then z else (s.tasks y).next)
  unfolding sched_ready_enqueue rq_push update
  next_enqueued n y = ground arith

  rq_tail_enqueued : enqueued.rq_tail ≡ z
  unfolding sched_ready_enqueue rq_push
  rq_tail_enqueued = ground arith

  rq_head_enqueued : enqueued.rq_head ≡ (if s.rq_tail == 0 then z else s.rq_head)
  unfolding sched_ready_enqueue rq_push
  rq_head_enqueued = ground arith

pub Waiting-enqueued :
    (s : Sched) (x : ℕ) (xs : List ℕ) (z : ℕ)
    → has z (x ∷ xs) ≡ false
    → Distinct (x ∷ xs)
    → All (λ y. y ≢ 0) (x ∷ xs)
    → Waiting s x xs
    → Waiting (enqueued s z) x (xs ++ z ∷ [])
Waiting-enqueued s x xs z new d n w =
    let tail : s.rq_tail ≢ 0 =
      has-All (λ y. y ≢ 0) s.rq_tail (x ∷ xs) (Linked-has s.tasks (x ∷ xs) s.rq_tail w.linked) n in
    record {
      head = ground (arith, rq_head_enqueued s z, w.head);
      linked = rw (rq_tail_enqueued s z) (
          Linked-snoc s.tasks (enqueued s z).tasks (x ∷ xs) s.rq_tail z
            (λ y m e. ground (arith, next_enqueued s z tail y))
            (ground (arith, next_enqueued s z tail s.rq_tail)) d w.linked);
      all_ready =
          All-append (λ y. ((enqueued s z).tasks y).state ≡ ready) (x ∷ xs) (z ∷ [])
            (All-map (λ y. (s.tasks y).state ≡ ready) (λ y. ((enqueued s z).tasks y).state ≡ ready)
              z (x ∷ xs) (λ y e h. ground (arith, state_enqueued s z y)) new w.all_ready)
            (ground (arith, state_enqueued s z z), tt);
      all_fresh =
          All-append (λ y. ((enqueued s z).tasks y).slice_left ≡ 10) (x ∷ xs) (z ∷ [])
            (All-map (λ y. (s.tasks y).slice_left ≡ 10)
              (λ y. ((enqueued s z).tasks y).slice_left ≡ 10) z (x ∷ xs)
              (λ y e h. ground (arith, slice_left_enqueued s z y)) new w.all_fresh)
            (ground (arith, slice_left_enqueued s z z), tt);
    }

pub Waiting-first : (s : Sched) (x : ℕ) → s.rq_tail ≡ 0 → Waiting (enqueued s x) x []
Waiting-first s x t = record {
  head = ground (arith, rq_head_enqueued s x);
  linked = sym (rq_tail_enqueued s x);
  all_ready = (ground (arith, state_enqueued s x x), tt);
  all_fresh = (ground (arith, slice_left_enqueued s x x), tt);
}

-- A task that is not in the queue may be written.
pub Waiting-put :
    (s : Sched) (x : ℕ) (xs : List ℕ) (z : ℕ) (t : Task)
    → has z (x ∷ xs) ≡ false
    → Waiting s x xs
    → Waiting (put s z t) x xs
unfolding update
Waiting-put s x xs z t new w = record {
  head = w.head;
  linked =
      Linked-map_has s.tasks (put s z t).tasks (x ∷ xs) s.rq_tail
        (λ y m. ap (λ (u : Task). u.next) (kept y m)) w.linked;
  all_ready =
      All-map_has (λ y. (s.tasks y).state ≡ ready) (λ y. ((put s z t).tasks y).state ≡ ready)
        (x ∷ xs) (λ y m h. ap (λ (u : Task). u.state) (kept y m) ∙ h) w.all_ready;
  all_fresh =
      All-map_has (λ y. (s.tasks y).slice_left ≡ 10) (λ y. ((put s z t).tasks y).slice_left ≡ 10)
        (x ∷ xs) (λ y m h. ap (λ (u : Task). u.slice_left) (kept y m) ∙ h) w.all_fresh;
}
  where
    kept : (y : ℕ) → has y (x ∷ xs) ≡ true → (put s z t).tasks y ≡ s.tasks y
    kept y m = update_ne s.tasks z t y (has_ne y z (x ∷ xs) m new)

-- The tasks of two lists together are distinct and not NULL.
abbrev pub Fit : List ℕ → Type 0
Fit xs = Distinct xs × All (λ y. y ≢ 0) xs

Waiting-all :
    (s : Sched) (x : ℕ) (xs zs : List ℕ)
    → Fit (x ∷ (xs ++ zs))
    → Waiting s x xs
    → Waiting (enqueue_all s zs) x (xs ++ zs)
Waiting-all s x xs [] f w = subst (Waiting s x) (sym (append-nil xs)) w
Waiting-all s x xs (z ∷ zs) f w =
    let e = append_assoc xs (z ∷ []) zs in
    subst (Waiting (enqueue_all (enqueued s z) zs) x) e (
      Waiting-all (enqueued s z) x (xs ++ z ∷ []) zs (subst Fit (ap (λ l. x ∷ l) (sym e)) f) (
        Waiting-enqueued s x xs z (Distinct-apart (x ∷ xs) z zs f.0)
          (Distinct-take (x ∷ xs) (z ∷ zs) f.0) (All-take (λ y. y ≢ 0) (x ∷ xs) (z ∷ zs) f.1) w))

module _ (s : Sched) (x : ℕ) where
  abbrev current_set : Sched
  current_set = sched_set_current s x

  next_set : (y : ℕ) → (current_set.tasks y).next ≡ (s.tasks y).next
  unfolding sched_set_current update
  next_set y = ground arith

  slice_left_set : (y : ℕ) → (current_set.tasks y).slice_left ≡ (s.tasks y).slice_left
  unfolding sched_set_current update
  slice_left_set y = ground arith

  state_set : (y : ℕ) → y ≢ x → (current_set.tasks y).state ≡ (s.tasks y).state
  unfolding sched_set_current update
  state_set y n = ground arith

  state_set_self : (current_set.tasks x).state ≡ running
  unfolding sched_set_current update
  state_set_self = ground arith

-- `sched_set_current` of the task at the head starts its slice.
pub Turn-current :
    (s : Sched) (x : ℕ) (xs : List ℕ)
    → Fit (x ∷ xs)
    → Waiting s x xs
    → Turn 10 (sched_set_current s x) (x ∷ xs)
unfolding sched_set_current
Turn-current s x xs f w = (
  record {
    head = w.head;
    current = refl;
    linked = Linked-map s.tasks (current_set s x).tasks (x ∷ xs) s.rq_tail (next_set s x) w.linked;
    distinct = f.0;
    nonnull = f.1;
    runs = state_set_self s x;
    wait =
        All-map (λ y. (s.tasks y).state ≡ ready) (λ y. ((current_set s x).tasks y).state ≡ ready) x
          xs (λ y e h. state_set s x y e ∙ h) f.0.0 w.all_ready.1;
    fresh =
        All-map (λ y. (s.tasks y).slice_left ≡ 10)
          (λ y. ((current_set s x).tasks y).slice_left ≡ 10) x xs
          (λ y e h. slice_left_set s x y ∙ h) f.0.0 w.all_fresh.1;
  },
  slice_left_set s x x ∙ w.all_fresh.0,
)

-- Enqueueing tasks that are distinct and not NULL with an empty queue, and making the first one
-- current, leaves that task running with a full slice and the others waiting in their order.
pub sched_start-Turn :
    (s : Sched) (x : ℕ) (xs : List ℕ)
    → s.rq_tail ≡ 0
    → Distinct (x ∷ xs)
    → All (λ y. y ≢ 0) (x ∷ xs)
    → Turn 10 (sched_set_current (enqueue_all s (x ∷ xs)) x) (x ∷ xs)
sched_start-Turn s x xs t d n =
    Turn-current (enqueue_all (enqueued s x) xs) x xs (d, n)
      (Waiting-all (enqueued s x) x [] xs (d, n) (Waiting-first s x t))
