-- ===== src/Uart/Signed.antt =====
-- `int2str` of kernel/drivers/char/uart.c: the numbers of an `int`, negative ones included.
use kernel_fuzzing.Base.{
  ℕ, ◌-◌, ◌%◌, ◌^◌, ◌<◌, ◌≡◌, refl, ◌∙◌, ap, [], ◌∷◌, ◌++◌, arith, dec_lt, ℕ_discrete,
}
use mathlib.Core.List.{append_assoc}
use kernel_fuzzing.Uart.{Text, uart_putc, print_digits, uint2str, int2str, extract_int_digits}
use kernel_fuzzing.Uart.Decimal.{Decimal, uint2str-Decimal}

int2str-positive : (out : Text) (d : ℕ) → d < 2 ^ 31 → int2str out d ≡ uint2str out d
unfolding int2str uint2str extract_int_digits
int2str-positive out d h = ground arith

int2str-negative :
    (out : Text) (d : ℕ)
    → 2 ^ 31 < d
    → d < 2 ^ 32
    → int2str out d ≡ uint2str (uart_putc out 45) (2 ^ 32 - d)
unfolding int2str uint2str extract_int_digits
int2str-negative out d h k =
    let whole : (2 ^ 32 - d) % 2 ^ 32 ≡ 2 ^ 32 - d = omega arith in rw whole (ground arith)

int2str-least : (out : Text) → int2str out (2 ^ 31) ≡ out ++ 45 ∷ []
unfolding int2str extract_int_digits print_digits uart_putc
int2str-least out = refl

-- What is sent for an `int`, which is its 32 bits.
pub data SignedForm (out : Text) (d : ℕ) (sent : Text) : Type 0 where
  plain : (s : Text) → d < 2 ^ 31 → sent ≡ out ++ s → Decimal d s → SignedForm out d sent
  minus :
      (s : Text)
      → 2 ^ 31 < d
      → sent ≡ out ++ 45 ∷ s
      → Decimal (2 ^ 32 - d) s
      → SignedForm out d sent
  sign_alone : d ≡ 2 ^ 31 → sent ≡ out ++ 45 ∷ [] → SignedForm out d sent

-- `int2str` sends the decimal form of an `int` that is not negative, and `-` and the decimal form of
-- the absolute value of a negative one, except for the least, -2147483648, for which it sends `-`
-- alone.
pub int2str-SignedForm : (out : Text) (d : ℕ) → d < 2 ^ 32 → SignedForm out d (int2str out d)
unfolding uart_putc
int2str-SignedForm out d k = elim (dec_lt d (2 ^ 31)) [
  | yes h ↦
      let (s, e, form) = uint2str-Decimal out d (omega arith) in
      plain s h (int2str-positive out d h ∙ e) form
  | no h ↦ elim (ℕ_discrete d (2 ^ 31)) [
    | yes e ↦ sign_alone e (ap (int2str out) e ∙ int2str-least out)
    | no n ↦
        let (s, e, form) = uint2str-Decimal (uart_putc out 45) (2 ^ 32 - d) (omega arith) in
        minus s (omega arith)
          (int2str-negative out d (omega arith) k ∙ e ∙ append_assoc out (45 ∷ []) s) form
  ]
]
