-- ===== src/Uart/Decimal.antt =====
-- The digits that `uint2str` and `int2str` of kernel/drivers/char/uart.c send.
use kernel_fuzzing.Base.{
  ℕ, zero, suc, ◌+◌, ◌-◌, ◌*◌, ◌/◌, ◌%◌, ◌^◌, ◌≤◌, ◌<◌, ◌≡◌, ◌≢◌, refl, ◌∙◌, sym, ap, [], ◌∷◌, ◌++◌,
  arith, dec_lt, All,
}
use mathlib.Core.List.{append-nil, append_assoc}
use native.Mathlib.Nat.{pow-suc}
use kernel_fuzzing.Uart.{
  Text, uart_putc, uart_puts, extract_digits, print_digits, uint2str, buf_size,
}

-- A reader of decimal numbers, with what it has read so far.
abbrev pub read_from : ℕ → Text → ℕ
read_from n [] = n
read_from n (c ∷ s) = read_from (n * 10 + (c - 48)) s

abbrev pub read : Text → ℕ
read s = read_from 0 s

abbrev pub IsDigit : ℕ → Type 0
IsDigit c = (48 ≤ c) × (c ≤ 57)

-- The first digit is not 0.
abbrev pub Leads : Text → Type 0
Leads [] = ⊥
Leads (c ∷ s) = c ≢ 48

pub print_digits_lem : (out buf : Text) → print_digits out buf ≡ out ++ buf
unfolding print_digits uart_putc
print_digits_lem out [] = sym (append-nil out)
print_digits_lem out (c ∷ buf) =
    print_digits_lem (uart_putc out c) buf ∙ append_assoc out (c ∷ []) buf

pub uart_puts_lem : (out s : Text) → uart_puts out s ≡ out ++ s
unfolding uart_puts uart_putc
uart_puts_lem out [] = sym (append-nil out)
uart_puts_lem out (c ∷ s) = uart_puts_lem (uart_putc out c) s ∙ append_assoc out (c ∷ []) s

extract_digits-suc :
    (room d : ℕ) (buf : Text)
    → extract_digits (suc room) (suc d) buf
      ≡ extract_digits room (suc d / 10) ((48 + suc d % 10) ∷ buf)
unfolding extract_digits
extract_digits-suc room d buf = ground arith

extract_digits-read :
    (room d : ℕ) (buf : Text) → d < 2 ^ room → read (extract_digits room d buf) ≡ read_from d buf
unfolding extract_digits
extract_digits-read zero d buf h = let e : d ≡ 0 = omega arith in rw e refl
extract_digits-read (suc room) zero buf h = refl
extract_digits-read (suc room) (suc d) buf h =
    let n = suc d in
    let small : n / 10 < 2 ^ room = omega (arith, pow-suc 2 room) in
    let whole : n / 10 * 10 + (48 + n % 10 - 48) ≡ n = omega arith in
    ap read (extract_digits-suc room d buf)
    ∙ extract_digits-read room (n / 10) ((48 + n % 10) ∷ buf) small
    ∙ ap (λ m. read_from m buf) whole

extract_digits-IsDigit :
    (room d : ℕ) (buf : Text) → All IsDigit buf → All IsDigit (extract_digits room d buf)
unfolding extract_digits
extract_digits-IsDigit zero d buf h = h
extract_digits-IsDigit (suc room) zero buf h = h
extract_digits-IsDigit (suc room) (suc d) buf h = rw (extract_digits-suc room d buf) (
    extract_digits-IsDigit room (suc d / 10) ((48 + suc d % 10) ∷ buf)
      ((omega arith, omega arith), h))

extract_digits-zero : (room : ℕ) (buf : Text) → extract_digits room 0 buf ≡ buf
unfolding extract_digits
extract_digits-zero zero buf = refl
extract_digits-zero (suc room) buf = refl

extract_digits-Leads :
    (room d : ℕ) (buf : Text) → 0 < d → d < 2 ^ room → Leads (extract_digits room d buf)
unfolding extract_digits
extract_digits-Leads zero d buf pos h = absurd (omega arith)
extract_digits-Leads (suc room) zero buf pos h = absurd (omega arith)
extract_digits-Leads (suc room) (suc d) buf pos h =
    let next : Text = (48 + suc d % 10) ∷ buf in
    rw (extract_digits-suc room d buf) elim (dec_lt 0 (suc d / 10)) [
      | yes more ↦ extract_digits-Leads room (suc d / 10) next more (omega (arith, pow-suc 2 room))
      | no last ↦
          let done : suc d / 10 ≡ 0 = omega arith in
          rw (done, extract_digits-zero room next) (λ e. ground arith)
    ]

-- The text is the usual decimal form of the number.
pub record Decimal (n : ℕ) (s : Text) : Type 0 where
  pub value : read s ≡ n
  pub digits : All IsDigit s
  pub leads : n ≢ 0 → Leads s

extract_digits-Decimal : (d : ℕ) → 0 < d → d < 2 ^ 64 → Decimal d (extract_digits buf_size d [])
extract_digits-Decimal d pos h = record {
  value = extract_digits-read 2048 d [] (omega arith);
  digits = extract_digits-IsDigit 2048 d [] tt;
  leads = λ n. extract_digits-Leads 2048 d [] pos (omega arith);
}

zero-Decimal : Decimal 0 (48 ∷ [])
zero-Decimal = record {
  value = refl;
  digits = ((omega arith, omega arith), tt);
  leads = λ n. absurd (n refl);
}

-- `uint2str` sends the decimal form of every 64-bit number: it reads back as the number, it has
-- digits only, and no 0 in front.
pub uint2str-Decimal :
    (out : Text) (d : ℕ) → d < 2 ^ 64 → (s : Text) × (uint2str out d ≡ out ++ s) × Decimal d s
unfolding uint2str uart_putc
uint2str-Decimal out zero h = (48 ∷ [], refl, zero-Decimal)
uint2str-Decimal out (suc d) h =
    let s = extract_digits buf_size (suc d) [] in
    (s, ground (arith, print_digits_lem out s), extract_digits-Decimal (suc d) (omega arith) h)
