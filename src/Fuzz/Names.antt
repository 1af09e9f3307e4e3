-- ===== src/Fuzz/Names.antt =====
-- The name of an interface that `first_nsim_if` of fuzzing/fuzz_nsim.c finds.
use kernel_fuzzing.Base.{
  ℕ, zero, suc, ◌≤◌, ◌≡◌, refl, ◌≢◌, ◌⊎◌, subst, All, none, some, List, [], ◌∷◌, length, arith,
  Option-cases, inl, inr,
}
use kernel_fuzzing.Fuzz.{Text, take_bytes, behind_slash, first_nsim_if}
use kernel_fuzzing.Fuzz.Sequence.{length-take_bytes}

-- The paths have no space in them, as the names of network interfaces have none.
abbrev pub NoSpaces : Text → Type 0
NoSpaces s = All (λ c. c ≢ 32) s

abbrev pub OnePieces : List Text → Type 0
OnePieces [] = Unit {0}
OnePieces (p ∷ paths) = NoSpaces p × OnePieces paths

-- A name that `first_nsim_if` leaves: it fits its 64 bytes, and is one word and no path.
abbrev pub IsName : Text → Type 0
IsName name = (1 ≤ length name) × (length name ≤ 63) × NoSpaces name × All (λ c. c ≢ 47) name

-- What `first_nsim_if` leaves is empty or a name.
take_bytes-All : (P : ℕ → Type 0) (n : ℕ) (s : Text) → All P s → All P (take_bytes n s)
unfolding take_bytes
take_bytes-All P zero s h = tt
take_bytes-All P (suc n) [] h = tt
take_bytes-All P (suc n) (c ∷ s) h = (h.0, take_bytes-All P n s h.1)

behind_slash-none : (s : Text) → behind_slash s ≡ none → All (λ c. c ≢ 47) s
unfolding behind_slash
behind_slash-none [] e = tt
behind_slash-none (c ∷ s) e = elim (Option-cases (behind_slash s)) [
  | inl missing ↦ (ground (arith, missing, e), behind_slash-none s missing)
  | inr (name, found) ↦ absurd (ground (arith, found, e))
]

-- The name has no slash, and only characters of the path.
behind_slash_name :
    (P : ℕ → Type 0) (s name : Text)
    → behind_slash s ≡ some name
    → All P s
    → All P name × All (λ c. c ≢ 47) name
unfolding behind_slash
behind_slash_name P [] name e h = absurd (ground arith)
behind_slash_name P (c ∷ s) name e h = elim (Option-cases (behind_slash s)) [
  | inr (x, found) ↦ behind_slash_name P s name (ground (arith, found, e)) h.1
  | inl missing ↦
      let same : s ≡ name = ground (arith, missing, e) in
      (subst (All P) same h.1, subst (All (λ c. c ≢ 47)) same (behind_slash-none s missing))
]

word_cases :
    (name : Text)
    → length name ≤ 63
    → NoSpaces name
    → All (λ c. c ≢ 47) name
    → (name ≡ []) ⊎ IsName name
word_cases [] h k l = inl refl
word_cases (c ∷ name) h k l = inr (omega arith, h, k, l)

pub first_nsim_if-IsName :
    (paths : List Text)
    → OnePieces paths
    → (first_nsim_if paths ≡ []) ⊎ IsName (first_nsim_if paths)
unfolding first_nsim_if
first_nsim_if-IsName [] h = inl refl
first_nsim_if-IsName (p ∷ paths) h = elim (Option-cases (behind_slash p)) [
  | inl missing ↦ inl (rw (first_nsim_if, missing) refl)
  | inr (name, e) ↦
      let plain = behind_slash_name _ p name e h.0 in
      rw (first_nsim_if, e)
        (word_cases (take_bytes 63 name) (length-take_bytes 63 name)
          (take_bytes-All _ 63 name plain.0) (take_bytes-All _ 63 name plain.1))
]
