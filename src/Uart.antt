-- ===== src/Uart.antt =====
-- Output to the UART: kernel/drivers/char/uart.c. What has been sent is a list of characters, the
-- first one first; `uart_putc` waits for room in the device, which is taken to come. A string is a
-- list of characters without the NUL at its end.
pub mod Decimal
pub mod Signed
pub mod Format
use kernel_fuzzing.Base.{
  ℕ, zero, suc, ◌+◌, ◌-◌, ◌*◌, ◌/◌, ◌%◌, ◌^◌, bit_or, Bool, true, false, Option, none, some, List,
  [], ◌∷◌, ◌++◌, ltb, leb, ◌==◌, ◌&&◌, if◌then◌else◌,
}

abbrev pub Text : Type 0
Text = List ℕ

-- The registers of the device by their offset, and what the driver wrote last.
abbrev pub Registers : Type 0
Registers = ℕ → ℕ

abbrev mmio_w32 : Registers → ℕ → ℕ → Registers
mmio_w32 r offset v = λ o. if o == offset then v else r o

unfoldable pub uart_init : Registers → Registers
uart_init r =
    let r = mmio_w32 r 0x30 0 in
    let r = mmio_w32 r 0x44 0x7FF in
    let r = mmio_w32 r 0x24 13 in
    let r = mmio_w32 r 0x28 2 in
    let r = mmio_w32 r 0x2C (bit_or (3 * 2 ^ 5) (1 * 2 ^ 4)) in
    let r = mmio_w32 r 0x38 0 in
    mmio_w32 r 0x30 (bit_or (bit_or (1 * 2 ^ 0) (1 * 2 ^ 8)) (1 * 2 ^ 9))

unfoldable pub uart_putc : Text → ℕ → Text
uart_putc out c = out ++ c ∷ []

unfoldable pub uart_puts : Text → Text → Text
uart_puts out [] = out
uart_puts out (c ∷ s) = uart_puts (uart_putc out c) s

abbrev pub buf_size : ℕ
buf_size = 2048

-- The digits in `buf`, the last one that is written first; `room` is what `i < sizeof(buf)` leaves.
unfoldable pub extract_digits : (room d : ℕ) → Text → Text
extract_digits zero d buf = buf
extract_digits (suc room) d buf =
    let rest = extract_digits room (d / 10) ((48 + d % 10) ∷ buf) in if ltb 0 d then rest else buf

-- `while (--i >= 0) uart_putc(buf[i])` sends `buf` from its last digit to its first.
unfoldable pub print_digits : Text → Text → Text
print_digits out [] = out
print_digits out (c ∷ buf) = print_digits (uart_putc out c) buf

unfoldable pub uint2str : Text → ℕ → Text
uint2str out d =
    if d == 0 then uart_putc out 48 else print_digits out (extract_digits buf_size d [])

-- An `int` is its 32 bits. `-d` wraps for the least one, as the compiled code does; `d > 0` is false
-- for it then, and the loop makes no round.
abbrev pub is_negative : ℕ → Bool
is_negative d = leb (2 ^ 31) d

unfoldable pub extract_int_digits : ℕ → Text
extract_int_digits d = if is_negative d then [] else extract_digits buf_size d []

unfoldable pub int2str : Text → ℕ → Text
int2str out d =
    if d == 0
    then uart_putc out 48
    else if is_negative d
    then print_digits (uart_putc out 45) (extract_int_digits ((2 ^ 32 - d) % 2 ^ 32))
    else print_digits out (extract_int_digits d)

-- The arguments of `uart_printf`. Taking one that is missing or has another type is undefined in C
-- and `none` here.
pub data Arg : Type 0 where
  int_arg : ℕ → Arg
  uint64_arg : ℕ → Arg
  string_arg : Text → Arg

unfoldable pub take_int : List Arg → Option (ℕ × List Arg)
take_int (int_arg d ∷ args) = some (d, args)
take_int _ = none

unfoldable pub take_uint64 : List Arg → Option (ℕ × List Arg)
take_uint64 (uint64_arg d ∷ args) = some (d, args)
take_uint64 _ = none

unfoldable pub take_string : List Arg → Option (Text × List Arg)
take_string (string_arg s ∷ args) = some (s, args)
take_string _ = none

-- One conversion: the output and the arguments left. `uart_putc(c)` cuts the `int` to a `char`.
unfoldable pub convert : (specifier : ℕ) → List Arg → Text → Option (Text × List Arg)
convert specifier args out =
    if specifier == 99
    then elim (take_int args) [
      | none ↦ none
      | some (c, rest) ↦ some (uart_putc out (c % 256), rest)
    ]
    else if specifier == 100
    then elim (take_int args) [ none ↦ none | some (d, rest) ↦ some (int2str out d, rest) ]
    else if specifier == 108
    then elim (take_uint64 args) [ none ↦ none | some (l, rest) ↦ some (uint2str out l, rest) ]
    else elim (take_string args) [ none ↦ none | some (s, rest) ↦ some (uart_puts out s, rest) ]

-- The character after the last one is NUL, and a `%` at the end reads it.
unfoldable pub uart_printf : (fmt : Text) → List Arg → Text → Option Text
uart_printf [] args out = some out
uart_printf (current ∷ []) args out =
    if current == 37
    then elim (convert 0 args out) [ none ↦ none | some (out', _) ↦ some out' ]
    else some (uart_putc out current)
uart_printf (current ∷ (specifier ∷ fmt)) args out =
    let plain = uart_printf (specifier ∷ fmt) args (uart_putc out current) in
    if current == 37
    then elim (convert specifier args out) [
      | none ↦ none
      | some (out', rest) ↦ uart_printf fmt rest out'
    ]
    else plain
