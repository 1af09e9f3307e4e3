-- ===== src/Fuzz/Calls/Words.antt =====
-- The words of a call's text: numbers, addresses and MAC addresses.
use kernel_fuzzing.Base.{
  ℕ, ◌*◌, ◌/◌, ◌%◌, ◌≤◌, ◌<◌, ◌≡◌, ◌≢◌, refl, sym, ap, subst, true, ◌&&◌, ◌||◌, some, List, [], ◌∷◌,
  ◌++◌, ◌==◌, ltb, length, length-append, All, All-append, arith, every_below, every_below_lem,
}
use kernel_fuzzing.Uart.{uint2str, extract_digits, print_digits, uart_putc}
use kernel_fuzzing.Uart.Decimal.{read, IsDigit, Decimal, uint2str-Decimal}
use kernel_fuzzing.Fuzz.{Text, Command}
use kernel_fuzzing.Fuzz.Sequence.{IsBytes}
use kernel_fuzzing.Fuzz.Calls.{decimal, hex_digit, hex_byte, address_text, mac_text}
use kernel_fuzzing.Fuzz.Calls.Reader.{split, read_digit, read_byte, read_bytes, read_address}
use kernel_fuzzing.Fuzz.Calls.Split.{split-word, split-last}

decimal-Decimal : (n : ℕ) → n < 4581 → Decimal n (decimal n)
unfolding decimal
decimal-Decimal n h =
    let (s, e, d) = uint2str-Decimal [] n (omega arith) in subst (Decimal n) (sym e) d

pub read-decimal : (n : ℕ) → n < 4581 → read (decimal n) ≡ n
read-decimal n h = (decimal-Decimal n h).value

digits_plain : (sep : ℕ) (s : Text) → (sep < 48) → All IsDigit s → All (λ c. c ≢ sep) s
digits_plain sep [] h a = tt
digits_plain sep (c ∷ s) h a = (λ e. omega (arith, a.0, e), digits_plain sep s h a.1)

pub decimal_plain : (sep n : ℕ) → sep < 48 → n < 4581 → All (λ c. c ≢ sep) (decimal n)
decimal_plain sep n h small = digits_plain sep (decimal n) h (decimal-Decimal n small).digits

short_table : every_below 4581 (λ n. ltb (length (decimal n)) 5) ≡ true
unfolding every_below decimal uint2str extract_digits print_digits uart_putc
short_table = refl

pub length-decimal : (n : ℕ) → n < 4581 → length (decimal n) ≤ 4
length-decimal n h = let e = every_below_lem 4581 _ n short_table h in ground (arith, e)

-- A digit of a byte: what it reads as, and that it is no separator.
hex_table :
    every_below 16 (λ d.
      (read_digit (hex_digit d) == d)
      && (ltb 47 (hex_digit d) && (ltb (hex_digit d) 58 || ltb 58 (hex_digit d))))
    ≡ true
unfolding every_below hex_digit read_digit
hex_table = refl

hex_facts :
    (d : ℕ) → d < 16 → (read_digit (hex_digit d) ≡ d) × (hex_digit d ≢ 58) × (hex_digit d ≢ 32)
hex_facts d h =
    let e = every_below_lem 16 _ d hex_table h in
    (ground (arith, e), (λ k. ground (arith, e, k)), (λ k. ground (arith, e, k)))

hex_byte-read : (b : ℕ) → b < 256 → read_byte (hex_byte b) ≡ some b
unfolding hex_byte
hex_byte-read b h =
    let high = hex_facts (b / 16 % 16) (omega arith) in
    let low = hex_facts (b % 16) (omega arith) in rw (high.0, low.0) (ap some (omega arith))

hex_byte_plain : (b : ℕ) → (All (λ c. c ≢ 58) (hex_byte b)) × (All (λ c. c ≢ 32) (hex_byte b))
unfolding hex_byte
hex_byte_plain b =
    let high = hex_facts (b / 16 % 16) (omega arith) in
    let low = hex_facts (b % 16) (omega arith) in ((high.1, (low.1, tt)), (high.2, (low.2, tt)))

pub read_bytes-mac_text :
    (x : ℕ) (mac : List ℕ)
    → IsBytes (x ∷ mac)
    → read_bytes (split 58 (mac_text (x ∷ mac))) ≡ some (x ∷ mac)
unfolding mac_text
read_bytes-mac_text x [] h =
    rw (split-last 58 (hex_byte x) (hex_byte_plain x).0, hex_byte-read x h.0) refl
read_bytes-mac_text x (y ∷ mac) h =
    rw
      (
        split-word 58 (hex_byte x) (mac_text (y ∷ mac)) (hex_byte_plain x).0,
        hex_byte-read x h.0,
        read_bytes-mac_text y mac h.1,
      )
      refl

pub mac_text_plain : (mac : List ℕ) → All (λ c. c ≢ 32) (mac_text mac)
unfolding mac_text
mac_text_plain [] = tt
mac_text_plain (x ∷ []) = (hex_byte_plain x).1
mac_text_plain (x ∷ (y ∷ mac)) =
    All-append _ (hex_byte x) (58 ∷ mac_text (y ∷ mac)) (hex_byte_plain x).1
      ((λ e. omega (arith, e)), mac_text_plain (y ∷ mac))

pub length-mac_text : (mac : List ℕ) → length (mac_text mac) ≤ 3 * length mac
unfolding mac_text hex_byte
length-mac_text [] = omega arith
length-mac_text (x ∷ []) = omega arith
length-mac_text (x ∷ (y ∷ mac)) = omega (arith, length-mac_text (y ∷ mac))

module _ (a b c d prefix : ℕ) (ha : a < 256) (hb : b < 256) (hc : c < 256) (hd : d < 256)
    (hp : prefix ≤ 30) where
  pub address_text_plain : All (λ x. x ≢ 32) (address_text a b c d prefix)
  unfolding address_text
  address_text_plain =
      let part = λ (n : ℕ) (h : n < 256). decimal_plain 32 n (omega arith) (omega (arith, h)) in
      let dot : ◌≢◌ {A = ℕ} 46 32 = λ e. omega (arith, e) in
      All-append _ (decimal a) _ (part a ha) (
        dot,
        All-append _ (decimal b) _ (part b hb) (
          dot,
          All-append _ (decimal c) _ (part c hc) (
            dot,
            All-append _ (decimal d) _ (part d hd)
                ((λ e. omega (arith, e)), part prefix (omega (arith, hp))),
          ),
        ),
      )

  pub length-address_text : length (address_text a b c d prefix) ≤ 24
  unfolding address_text
  length-address_text =
      let short = λ (n : ℕ) (h : n < 256). length-decimal n (omega (arith, h)) in
      omega (
        arith,
        length-append {0},
        short a ha,
        short b hb,
        short c hc,
        short d hd,
        short prefix (omega (arith, hp)),
      )

  -- The address reads back as its numbers.
  pub read_address-address_text :
      (command : ℕ → ℕ → ℕ → ℕ → ℕ → Command)
      → read_address command (split 46 (address_text a b c d prefix))
        ≡ some (command a b c d prefix)
  unfolding address_text
  read_address-address_text command =
      let plain =
        λ (sep n : ℕ) (s : sep < 48) (h : n < 256). decimal_plain sep n s (omega (arith, h)) in
      let value = λ (n : ℕ) (h : n < 256). read-decimal n (omega (arith, h)) in
      let small : prefix < 256 = omega (arith, hp) in
      let last : Text = decimal d ++ 47 ∷ decimal prefix in
      let end : All (λ x. x ≢ 46) last =
        All-append _ (decimal d) (47 ∷ decimal prefix) (plain 46 d (omega arith) hd)
          ((λ e. omega (arith, e)), plain 46 prefix (omega arith) small) in
      rw
        (
          split-word 46 (decimal a) _ (plain 46 a (omega arith) ha),
          split-word 46 (decimal b) _ (plain 46 b (omega arith) hb),
          split-word 46 (decimal c) _ (plain 46 c (omega arith) hc),
          split-last 46 last end,
          split-word 47 (decimal d) (decimal prefix) (plain 47 d (omega arith) hd),
          split-last 47 (decimal prefix) (plain 47 prefix (omega arith) small),
          value a ha,
          value b hb,
          value c hc,
          value d hd,
          value prefix small,
        )
        refl
