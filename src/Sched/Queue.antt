-- ===== src/Sched/Queue.antt =====
-- The linked ready queue of kernel/core/scheduler/sched.c as a list of tasks.
use kernel_fuzzing.Base.{
  ℕ, ◌≡◌, ◌≢◌, ◌∙◌, refl, true, List, [], ◌∷◌, ◌++◌, arith, has, Distinct, All,
}
use kernel_fuzzing.Sched.{Task, Sched, TaskState}

abbrev pub Tasks : Type 0
Tasks = ℕ → Task

-- The `next` pointers lead through the list, and its last task is `tail`. The `next` of the last
-- task may be anything: nothing reads it before it is written.
abbrev pub Linked : Tasks → List ℕ → ℕ → Type 0
Linked t [] tail = ⊥
Linked t (x ∷ []) tail = x ≡ tail
Linked t (x ∷ (y ∷ ys)) tail = ((t x).next ≡ y) × Linked t (y ∷ ys) tail

pub Linked-has : (t : Tasks) (xs : List ℕ) (tail : ℕ) → Linked t xs tail → has tail xs ≡ true
Linked-has t [] tail h = absurd h
Linked-has t (x ∷ []) tail h = ground arith
Linked-has t (x ∷ (y ∷ ys)) tail h = ground (arith, Linked-has t (y ∷ ys) tail h.1)

-- Pointing the last task to `x` extends the list by `x`, even if `x` is in the list already.
pub Linked-snoc :
    (t u : Tasks) (xs : List ℕ) (tail x : ℕ)
    → ((y : ℕ) → has y xs ≡ true → y ≢ tail → (u y).next ≡ (t y).next)
    → (u tail).next ≡ x
    → Distinct xs
    → Linked t xs tail
    → Linked u (xs ++ x ∷ []) x
Linked-snoc t u [] tail x same e d h = absurd h
Linked-snoc t u (y ∷ []) tail x same e d h = (ground arith, refl)
Linked-snoc t u (y ∷ (z ∷ zs)) tail x same e d h = (
  ground (arith, same y, Linked-has t (z ∷ zs) tail h.1, h.0),
  Linked-snoc t u (z ∷ zs) tail x (λ w m n. same w (ground arith) n) e d.1 h.1,
)

pub Linked-map :
    (t u : Tasks) (xs : List ℕ) (tail : ℕ)
    → ((y : ℕ) → (u y).next ≡ (t y).next)
    → Linked t xs tail
    → Linked u xs tail
Linked-map t u [] tail e h = h
Linked-map t u (x ∷ []) tail e h = h
Linked-map t u (x ∷ (y ∷ ys)) tail e h = (e x ∙ h.0, Linked-map t u (y ∷ ys) tail e h.1)

-- Only the tasks of the list matter.
pub Linked-map_has :
    (t u : Tasks) (xs : List ℕ) (tail : ℕ)
    → ((y : ℕ) → has y xs ≡ true → (u y).next ≡ (t y).next)
    → Linked t xs tail
    → Linked u xs tail
Linked-map_has t u [] tail e h = h
Linked-map_has t u (x ∷ []) tail e h = h
Linked-map_has t u (x ∷ (y ∷ ys)) tail e h =
    (e x (ground arith) ∙ h.0, Linked-map_has t u (y ∷ ys) tail (λ z k. e z (ground arith)) h.1)

-- The running task, which is also the head of the queue, and the tasks that wait behind it.
pub record Queued (s : Sched) (x : ℕ) (waiting : List ℕ) : Type 0 where
  pub head : s.rq_head ≡ x
  pub current : s.current ≡ x
  pub linked : Linked s.tasks (x ∷ waiting) s.rq_tail
  pub distinct : Distinct (x ∷ waiting)
  pub nonnull : All (λ y. y ≢ 0) (x ∷ waiting)
  pub runs : (s.tasks x).state ≡ TaskState.running
  pub wait : All (λ y. (s.tasks y).state ≡ TaskState.ready) waiting
  pub fresh : All (λ y. (s.tasks y).slice_left ≡ 10) waiting
