-- ===== src/Fuzz/Calls.antt =====
-- What a command of fuzzing/fuzz_nsim.c hands to the system: a write to a file of sysfs, or a line
-- for the shell, cut by the buffer that `snprintf` gets.
pub mod Reader
pub mod Split
pub mod Words
pub mod Whole
use kernel_fuzzing.Base.{
  ℕ, zero, suc, ◌+◌, ◌-◌, ◌/◌, ◌%◌, Bool, true, false, List, [], ◌∷◌, ◌++◌, ltb, if◌then◌else◌,
  length,
}
use kernel_fuzzing.Base.Codes.{codes}
use kernel_fuzzing.Uart.{uint2str}
use kernel_fuzzing.Fuzz.{
  Text, take_bytes, Command, nsim_new, nsim_del, ip_add, ip_del, link_set, set_mtu, change_mac,
}

-- `write_sysfs` writes the first `n` bytes of `b`.
pub data Call : Type 0 where
  write_sysfs : (path b : Text) (n : ℕ) → Call
  sh : Text → Call

-- The buffer gets one character less than its size; the result is the length of the whole text.
unfoldable pub snprintf : (size : ℕ) → Text → Text × ℕ
snprintf size s = (take_bytes (size - 1) s, length s)

-- `%d` of a number that is not negative, and `%u`.
unfoldable pub decimal : ℕ → Text
decimal n = uint2str [] n

unfoldable pub hex_digit : ℕ → ℕ
hex_digit d = if ltb d 10 then 48 + d else 87 + d

-- `%02x` of a byte.
unfoldable pub hex_byte : ℕ → Text
hex_byte b = hex_digit (b / 16 % 16) ∷ hex_digit (b % 16) ∷ []

-- `%u.%u.%u.%u/%u`
unfoldable pub address_text : (a b c d prefix : ℕ) → Text
address_text a b c d prefix =
    decimal a ++ 46 ∷ (decimal b ++ 46 ∷ (decimal c ++ 46 ∷ (decimal d ++ 47 ∷ decimal prefix)))

-- `%02x` for each byte, with `:` between them.
unfoldable pub mac_text : List ℕ → Text
mac_text [] = []
mac_text (x ∷ []) = hex_byte x
mac_text (x ∷ (y ∷ mac)) = hex_byte x ++ 58 ∷ mac_text (y ∷ mac)

abbrev pub quiet : Text
quiet = codes "2>/dev/null"

abbrev pub new_device : Text
new_device = codes "/sys/bus/netdevsim/new_device"

abbrev pub del_device : Text
del_device = codes "/sys/bus/netdevsim/del_device"

unfoldable pub nsim_new_call : (id ports : ℕ) → Call
nsim_new_call id ports =
    let (b, n) = snprintf 64 (decimal id ++ 32 ∷ decimal ports) in write_sysfs new_device b n

unfoldable pub nsim_del_call : (id : ℕ) → Call
nsim_del_call id = let (b, n) = snprintf 32 (decimal id) in write_sysfs del_device b n

unfoldable pub ip_add_call : (ifn : Text) (a b c d prefix : ℕ) → Call
ip_add_call ifn a b c d prefix = sh (
    (snprintf 256 (
      codes "ip addr add "
      ++ (address_text a b c d prefix ++ (codes " dev " ++ (ifn ++ 32 ∷ quiet))))).0)

unfoldable pub ip_del_call : (ifn : Text) (a b c d prefix : ℕ) → Call
ip_del_call ifn a b c d prefix = sh (
    (snprintf 256 (
      codes "ip addr del "
      ++ (address_text a b c d prefix ++ (codes " dev " ++ (ifn ++ 32 ∷ quiet))))).0)

unfoldable pub link_set_call : (ifn : Text) (up : Bool) → Call
link_set_call ifn up = sh (
    (snprintf 128 (
      codes "ip link set "
      ++ (ifn ++ 32 ∷ ((if up then codes "up" else codes "down") ++ 32 ∷ quiet)))).0)

unfoldable pub set_mtu_call : (ifn : Text) (mtu : ℕ) → Call
set_mtu_call ifn mtu = sh (
    (snprintf 128
      (codes "ip link set " ++ (ifn ++ (codes " mtu " ++ (decimal mtu ++ 32 ∷ quiet))))).0)

unfoldable pub change_mac_call : (ifn : Text) (mac : List ℕ) → Call
change_mac_call ifn mac = sh (
    (snprintf 256
      (codes "ip link set dev " ++ (ifn ++ (codes " address " ++ (mac_text mac ++ 32 ∷ quiet))))).0)

unfoldable pub call_of : Command → Call
call_of (nsim_new id ports) = nsim_new_call id ports
call_of (nsim_del id) = nsim_del_call id
call_of (ip_add ifn a b c d prefix) = ip_add_call ifn a b c d prefix
call_of (ip_del ifn a b c d prefix) = ip_del_call ifn a b c d prefix
call_of (link_set ifn up) = link_set_call ifn up
call_of (set_mtu ifn mtu) = set_mtu_call ifn mtu
call_of (change_mac ifn mac) = change_mac_call ifn mac
