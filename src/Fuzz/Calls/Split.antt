-- ===== src/Fuzz/Calls/Split.antt =====
-- Splitting a text at a separator, and texts that keep their length in a buffer.
use kernel_fuzzing.Base.{
  ℕ, zero, suc, ◌-◌, ◌≤◌, ◌<◌, ◌≡◌, ◌≢◌, refl, false, [], ◌∷◌, ◌++◌, ◌==◌, length, All, arith, ap,
}
use kernel_fuzzing.Fuzz.{Text, take_bytes}
use kernel_fuzzing.Fuzz.Calls.{snprintf}
use kernel_fuzzing.Fuzz.Calls.Reader.{split}

pub split-word :
    (sep : ℕ) (w rest : Text)
    → All (λ c. c ≢ sep) w
    → split sep (w ++ sep ∷ rest) ≡ w ∷ split sep rest
unfolding split
split-word sep [] rest h = ground arith
split-word sep (c ∷ w) rest h =
    let e : (c == sep) ≡ false = ground (arith, h.0) in rw (e, split-word sep w rest h.1) refl

pub split-last : (sep : ℕ) (w : Text) → All (λ c. c ≢ sep) w → split sep w ≡ w ∷ []
unfolding split
split-last sep [] h = refl
split-last sep (c ∷ w) h =
    let e : (c == sep) ≡ false = ground (arith, h.0) in rw (e, split-last sep w h.1) refl

pub take_bytes-whole : (n : ℕ) (s : Text) → length s ≤ n → take_bytes n s ≡ s
unfolding take_bytes
take_bytes-whole zero [] h = refl
take_bytes-whole zero (c ∷ s) h = absurd (omega arith)
take_bytes-whole (suc n) [] h = refl
take_bytes-whole (suc n) (c ∷ s) h = ap (λ t. c ∷ t) (take_bytes-whole n s (omega arith))

-- A text that fits is not cut.
pub snprintf-whole : (size : ℕ) (s : Text) → length s < size → snprintf size s ≡ (s, length s)
unfolding snprintf
snprintf-whole size s h = ap (λ t. (t, length s)) (take_bytes-whole (size - 1) s (omega arith))
