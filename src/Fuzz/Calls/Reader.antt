-- ===== src/Fuzz/Calls/Reader.antt =====
-- A reader of the calls of Fuzz/Calls: which command a call stands for, by its words.
use kernel_fuzzing.Base.{
  ℕ, ◌+◌, ◌-◌, ◌*◌, Bool, true, false, ◌&&◌, Option, none, some, List, [], ◌∷◌, ◌==◌, ltb,
  if◌then◌else◌, ◌>>=◌,
}
use kernel_fuzzing.Base.Codes.{codes}
use kernel_fuzzing.Uart.Decimal.{read}
use kernel_fuzzing.Fuzz.{
  Text, take_bytes, Command, nsim_new, nsim_del, ip_add, ip_del, link_set, set_mtu, change_mac,
}
use kernel_fuzzing.Fuzz.Calls.{Call, write_sysfs, sh, quiet, new_device, del_device}

abbrev pub same : Text → Text → Bool
same [] [] = true
same [] (d ∷ t) = false
same (c ∷ s) [] = false
same (c ∷ s) (d ∷ t) = c == d && same s t

abbrev pub attach : ℕ → List Text → List Text
attach c [] = (c ∷ []) ∷ []
attach c (w ∷ ws) = (c ∷ w) ∷ ws

-- The parts between the separators.
unfoldable pub split : (sep : ℕ) → Text → List Text
split sep [] = [] ∷ []
split sep (c ∷ s) = let parts = split sep s in if c == sep then [] ∷ parts else attach c parts

unfoldable pub read_digit : ℕ → ℕ
read_digit c = if ltb c 58 then c - 48 else c - 87

abbrev pub read_byte : Text → Option ℕ
read_byte (h ∷ (l ∷ [])) = some (read_digit h * 16 + read_digit l)
read_byte _ = none

abbrev pub read_bytes : List Text → Option (List ℕ)
read_bytes [] = some []
read_bytes (w ∷ ws) = read_byte w >>= λ x. read_bytes ws >>= λ xs. some (x ∷ xs)

-- `a.b.c.d/prefix`, for a command on an address.
abbrev pub read_last : (ℕ → ℕ → Command) → List Text → Option Command
read_last command (d ∷ (prefix ∷ [])) = some (command (read d) (read prefix))
read_last command _ = none

abbrev pub read_address : (ℕ → ℕ → ℕ → ℕ → ℕ → Command) → List Text → Option Command
read_address command (a ∷ (b ∷ (c ∷ (d ∷ [])))) =
    read_last (command (read a) (read b) (read c)) (split 47 d)
read_address command _ = none

abbrev pub three : (w0 w1 w2 : Text) → (v0 v1 v2 : Text) → Bool
three w0 w1 w2 v0 v1 v2 = same w0 v0 && same w1 v1 && same w2 v2

abbrev pub read_words : List Text → Option Command
read_words (w0 ∷ (w1 ∷ (w2 ∷ (ifn ∷ (state ∷ (q ∷ [])))))) =
    if three w0 w1 w2 (codes "ip") (codes "link") (codes "set") && same q quiet
    then if same state (codes "up")
      then some (link_set ifn true)
      else if same state (codes "down")
      then some (link_set ifn false)
      else none
    else none
read_words (w0 ∷ (w1 ∷ (w2 ∷ (x ∷ (y ∷ (z ∷ (q ∷ []))))))) =
    if same q quiet
    then if three w0 w1 w2 (codes "ip") (codes "addr") (codes "add") && same y (codes "dev")
      then read_address (ip_add z) (split 46 x)
      else if three w0 w1 w2 (codes "ip") (codes "addr") (codes "del") && same y (codes "dev")
      then read_address (ip_del z) (split 46 x)
      else if three w0 w1 w2 (codes "ip") (codes "link") (codes "set") && same y (codes "mtu")
      then some (set_mtu x (read z))
      else none
    else none
read_words (w0 ∷ (w1 ∷ (w2 ∷ (w3 ∷ (ifn ∷ (w5 ∷ (mac ∷ (q ∷ [])))))))) =
    if three w0 w1 w2 (codes "ip") (codes "link") (codes "set")
      && (same w3 (codes "dev") && (same w5 (codes "address") && same q quiet))
    then (read_bytes (split 58 mac) >>= λ bytes. some (change_mac ifn bytes))
    else none
read_words _ = none

abbrev pub read_numbers : List Text → Option Command
read_numbers (id ∷ (ports ∷ [])) = some (nsim_new (read id) (read ports))
read_numbers _ = none

abbrev pub read_call : Call → Option Command
read_call (write_sysfs path b n) =
    if same path new_device
    then read_numbers (split 32 (take_bytes n b))
    else if same path del_device
    then some (nsim_del (read (take_bytes n b)))
    else none
read_call (sh s) = read_words (split 32 s)
