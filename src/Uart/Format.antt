-- ===== src/Uart/Format.antt =====
-- The loop of `uart_printf` of kernel/drivers/char/uart.c against formats in pieces.
use kernel_fuzzing.Base.{ℕ, ◌%◌, ◌≡◌, ◌≢◌, refl, ◌∙◌, some, List, [], ◌∷◌, arith}
use kernel_fuzzing.Uart.{
  Text, Arg, int_arg, uint64_arg, string_arg, uart_printf, convert, uart_putc, uart_puts, int2str,
  uint2str, take_int, take_uint64, take_string,
}

-- A format: plain characters and the conversions `%c`, `%d`, `%l` and `%s` with their arguments.
pub data Piece : Type 0 where
  plain : (c : ℕ) → c ≢ 37 → Piece
  char : ℕ → Piece
  int : ℕ → Piece
  long : ℕ → Piece
  string : Text → Piece

abbrev pub format : List Piece → Text
format [] = []
format (plain c n ∷ ps) = c ∷ format ps
format (char c ∷ ps) = 37 ∷ (99 ∷ format ps)
format (int d ∷ ps) = 37 ∷ (100 ∷ format ps)
format (long l ∷ ps) = 37 ∷ (108 ∷ format ps)
format (string s ∷ ps) = 37 ∷ (115 ∷ format ps)

abbrev pub arguments : List Piece → List Arg
arguments [] = []
arguments (plain c n ∷ ps) = arguments ps
arguments (char c ∷ ps) = int_arg c ∷ arguments ps
arguments (int d ∷ ps) = int_arg d ∷ arguments ps
arguments (long l ∷ ps) = uint64_arg l ∷ arguments ps
arguments (string s ∷ ps) = string_arg s ∷ arguments ps

-- What the pieces stand for, sent one after the other.
abbrev pub render : Text → List Piece → Text
render out [] = out
render out (plain c n ∷ ps) = render (uart_putc out c) ps
render out (char c ∷ ps) = render (uart_putc out (c % 256)) ps
render out (int d ∷ ps) = render (int2str out d) ps
render out (long l ∷ ps) = render (uint2str out l) ps
render out (string s ∷ ps) = render (uart_puts out s) ps

printf-plain :
    (c : ℕ) (fmt : Text) (args : List Arg) (out : Text)
    → c ≢ 37
    → uart_printf (c ∷ fmt) args out ≡ uart_printf fmt args (uart_putc out c)
unfolding uart_printf
printf-plain c [] args out n = ground arith
printf-plain c (x ∷ fmt) args out n = ground arith

-- `uart_printf` on the format and the arguments of a list of pieces takes every argument once and
-- sends each piece in its place.
pub uart_printf-render :
    (ps : List Piece) (out : Text)
    → uart_printf (format ps) (arguments ps) out ≡ some (render out ps)
unfolding uart_printf convert take_int take_uint64 take_string
uart_printf-render [] out = refl
uart_printf-render (plain c n ∷ ps) out =
    printf-plain c (format ps) (arguments ps) out n ∙ uart_printf-render ps (uart_putc out c)
uart_printf-render (char c ∷ ps) out = uart_printf-render ps (uart_putc out (c % 256))
uart_printf-render (int d ∷ ps) out = uart_printf-render ps (int2str out d)
uart_printf-render (long l ∷ ps) out = uart_printf-render ps (uint2str out l)
uart_printf-render (string s ∷ ps) out = uart_printf-render ps (uart_puts out s)
