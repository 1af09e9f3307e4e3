-- ===== src/Base/Members.antt =====
-- Membership in lists of numbers (addresses, page numbers) as a Boolean, and predicates on lists.
use Prim.Native.Nat.{ℕ}
use mathlib.Core.Path.{◌≡◌, refl, sym, subst}
use mathlib.Core.Logic.{◌≢◌}
use mathlib.Core.Bool.{Bool, true, false, ◌||◌}
use mathlib.Core.List.{List, [], ◌∷◌, ◌++◌}
use native.Mathlib.Omega.{arith}
use native.Mathlib.Decide.{ℕ_discrete}
use kernel_fuzzing.Base.Tests.{◌==◌}

abbrev pub has : ℕ → List ℕ → Bool
has q [] = false
has q (p ∷ ps) = q == p || has q ps

pub has-append : (q : ℕ) (xs ys : List ℕ) → has q (xs ++ ys) ≡ (has q xs || has q ys)
has-append q [] ys = refl
has-append q (x ∷ xs) ys = ground (arith, has-append q xs ys)

pub has_ne : (y z : ℕ) (xs : List ℕ) → has y xs ≡ true → has z xs ≡ false → y ≢ z
has_ne y z xs m new e = let h : has z xs ≡ true = subst (λ t. has t xs ≡ true) e m in ground arith

-- No number occurs twice.
abbrev pub Distinct : List ℕ → Type 0
Distinct [] = Unit {0}
Distinct (x ∷ xs) = (has x xs ≡ false) × Distinct xs

abbrev pub All {ℓ} : (ℕ → Type ℓ) → List ℕ → Type ℓ
All P [] = Unit
All P (x ∷ xs) = P x × All P xs

pub All-append {ℓ} : (P : ℕ → Type ℓ) (xs ys : List ℕ) → All P xs → All P ys → All P (xs ++ ys)
All-append P [] ys h k = k
All-append P (x ∷ xs) ys h k = (h.0, All-append P xs ys h.1 k)

pub Distinct-snoc : (x : ℕ) (xs : List ℕ) → has x xs ≡ false → Distinct xs → Distinct (xs ++ x ∷ [])
Distinct-snoc x [] h d = (refl, tt)
Distinct-snoc x (y ∷ ys) h d =
    (ground (arith, has-append y ys (x ∷ [])), Distinct-snoc x ys (ground arith) d.1)

-- A predicate that holds of a number that does not occur need not change.
pub All-map {ℓ} :
    (P Q : ℕ → Type ℓ) (x : ℕ) (xs : List ℕ)
    → ((y : ℕ) → y ≢ x → P y → Q y)
    → has x xs ≡ false
    → All P xs
    → All Q xs
All-map P Q x [] f h a = tt
All-map P Q x (y ∷ ys) f h a = (f y (ground arith) a.0, All-map P Q x ys f (ground arith) a.1)

-- A predicate that follows from membership and another predicate.
pub All-map_has {ℓ} :
    (P Q : ℕ → Type ℓ) (xs : List ℕ) → ((y : ℕ) → has y xs ≡ true → P y → Q y) → All P xs → All Q xs
All-map_has P Q [] f a = tt
All-map_has P Q (y ∷ ys) f a =
    (f y (ground arith) a.0, All-map_has P Q ys (λ z h. f z (ground arith)) a.1)

pub has-All {ℓ} : (P : ℕ → Type ℓ) (t : ℕ) (xs : List ℕ) → has t xs ≡ true → All P xs → P t
has-All P t [] h a = ground arith
has-All P t (y ∷ ys) h a = elim (ℕ_discrete t y) [
  | yes e ↦ subst P (sym e) a.0
  | no n ↦ has-All P t ys (ground arith) a.1
]

-- What holds of a whole list holds of its first part, and an element of the second part is not in
-- the first if all are distinct.
pub All-take {ℓ} : (P : ℕ → Type ℓ) (xs ys : List ℕ) → All P (xs ++ ys) → All P xs
All-take P [] ys h = tt
All-take P (x ∷ xs) ys h = (h.0, All-take P xs ys h.1)

pub Distinct-take : (xs ys : List ℕ) → Distinct (xs ++ ys) → Distinct xs
Distinct-take [] ys h = tt
Distinct-take (x ∷ xs) ys h = (ground (arith, has-append x xs ys, h.0), Distinct-take xs ys h.1)

pub Distinct-apart :
    (xs : List ℕ) (z : ℕ) (zs : List ℕ) → Distinct (xs ++ z ∷ zs) → has z xs ≡ false
Distinct-apart [] z zs h = refl
Distinct-apart (x ∷ xs) z zs h =
    ground (arith, has-append x xs (z ∷ zs), h.0, Distinct-apart xs z zs h.1)
