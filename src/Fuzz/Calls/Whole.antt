-- ===== src/Fuzz/Calls/Whole.antt =====
-- The calls of fuzzing/fuzz_nsim.c carry their commands whole.
use kernel_fuzzing.Base.{
  ℕ, ◌%◌, ◌≤◌, ◌<◌, ◌≡◌, ◌≢◌, refl, ap, ap₂, ◌∙◌, Bool, true, false, some, List, [], ◌∷◌, ◌++◌,
  length, length-append, All, arith, map,
}
use kernel_fuzzing.Base.Codes.{codes}
use kernel_fuzzing.Fuzz.{
  Text, Command, nsim_new, nsim_del, ip_add, ip_del, link_set, set_mtu, change_mac, Trace,
  Interfaces, run, start,
}
use kernel_fuzzing.Fuzz.Names.{IsName, OnePieces}
use kernel_fuzzing.Fuzz.Sequence.{IsBytes}
use kernel_fuzzing.Fuzz.Commands.{IsGood, AllGood, run-start}
use kernel_fuzzing.Fuzz.Calls.{
  decimal, address_text, mac_text, quiet, nsim_new_call, nsim_del_call, ip_add_call, ip_del_call,
  link_set_call, set_mtu_call, change_mac_call, call_of,
}
use kernel_fuzzing.Fuzz.Calls.Reader.{split, read_call}
use kernel_fuzzing.Fuzz.Calls.Split.{split-word, split-last, take_bytes-whole, snprintf-whole}
use kernel_fuzzing.Fuzz.Calls.Words.{
  read-decimal, decimal_plain, length-decimal, read_bytes-mac_text, mac_text_plain, length-mac_text,
  address_text_plain, length-address_text, read_address-address_text,
}

nsim_new_call-read :
    (id ports : ℕ)
    → id < 32
    → ports ≤ 4
    → read_call (nsim_new_call id ports) ≡ some (nsim_new id ports)
unfolding nsim_new_call
nsim_new_call-read id ports h k =
    let s : Text = decimal id ++ 32 ∷ decimal ports in
    let short : length s < 64 = omega (
      arith,
      length-append {0},
      length-decimal id (omega arith),
      length-decimal ports (omega arith),
    ) in
    rw
      (
        snprintf-whole 64 s short,
        take_bytes-whole (length s) s (omega arith),
        split-word 32 (decimal id) (decimal ports)
            (decimal_plain 32 id (omega arith) (omega arith)),
        split-last 32 (decimal ports) (decimal_plain 32 ports (omega arith) (omega arith)),
        read-decimal id (omega arith),
        read-decimal ports (omega arith),
      )
      refl

nsim_del_call-read : (id : ℕ) → id < 32 → read_call (nsim_del_call id) ≡ some (nsim_del id)
unfolding nsim_del_call
nsim_del_call-read id h =
    let short = length-decimal id (omega arith) in
    rw
      (
        snprintf-whole 32 (decimal id) (omega (arith, short)),
        take_bytes-whole (length (decimal id)) (decimal id) (omega arith),
        read-decimal id (omega arith),
      )
      refl

-- The first words of each line.
add_words :
    (rest : Text)
    → split 32 (codes "ip addr add " ++ rest)
      ≡ codes "ip" ∷ codes "addr" ∷ codes "add" ∷ split 32 rest
unfolding split
add_words rest = refl

del_words :
    (rest : Text)
    → split 32 (codes "ip addr del " ++ rest)
      ≡ codes "ip" ∷ codes "addr" ∷ codes "del" ∷ split 32 rest
unfolding split
del_words rest = refl

link_words :
    (rest : Text)
    → split 32 (codes "ip link set " ++ rest)
      ≡ codes "ip" ∷ codes "link" ∷ codes "set" ∷ split 32 rest
unfolding split
link_words rest = refl

quiet_word : split 32 quiet ≡ quiet ∷ []
unfolding split
quiet_word = refl

module _ (ifn : Text) (name : IsName ifn) where
  -- The words of a line with an address.
  address_words :
      (s : Text)
      → All (λ c. c ≢ 32) s
      → split 32 (s ++ (codes " dev " ++ (ifn ++ 32 ∷ quiet))) ≡ s ∷ codes "dev" ∷ ifn ∷ quiet ∷ []
  unfolding split
  address_words s h =
      split-word 32 s _ h ∙ ap (λ t. s ∷ codes "dev" ∷ t) (split-word 32 ifn quiet name.2)

  ip_add_call-read :
      (a b c d prefix : ℕ)
      → IsGood 0 (ip_add ifn a b c d prefix)
      → read_call (ip_add_call ifn a b c d prefix) ≡ some (ip_add ifn a b c d prefix)
  unfolding ip_add_call
  ip_add_call-read a b c d prefix (n, ha, hb, hc, hd, hp, hq) =
      let s = address_text a b c d prefix in
      let short = length-address_text a b c d prefix ha hb hc hd hq in
      let plain = address_text_plain a b c d prefix ha hb hc hd hq in
      let rest : Text = s ++ (codes " dev " ++ (ifn ++ 32 ∷ quiet)) in
      rw
        (
          snprintf-whole 256 (codes "ip addr add " ++ rest)
              (omega (arith, length-append {0}, short, name.1)),
          add_words rest,
          address_words s plain,
        )
        (read_address-address_text a b c d prefix ha hb hc hd hq (ip_add ifn))

  ip_del_call-read :
      (a b c d prefix : ℕ)
      → IsGood 0 (ip_del ifn a b c d prefix)
      → read_call (ip_del_call ifn a b c d prefix) ≡ some (ip_del ifn a b c d prefix)
  unfolding ip_del_call
  ip_del_call-read a b c d prefix (n, ha, hb, hc, hd, hp, hq) =
      let s = address_text a b c d prefix in
      let short = length-address_text a b c d prefix ha hb hc hd hq in
      let plain = address_text_plain a b c d prefix ha hb hc hd hq in
      let rest : Text = s ++ (codes " dev " ++ (ifn ++ 32 ∷ quiet)) in
      rw
        (
          snprintf-whole 256 (codes "ip addr del " ++ rest)
              (omega (arith, length-append {0}, short, name.1)),
          del_words rest,
          address_words s plain,
        )
        (read_address-address_text a b c d prefix ha hb hc hd hq (ip_del ifn))

  link_set_call-read : (up : Bool) → read_call (link_set_call ifn up) ≡ some (link_set ifn up)
  unfolding link_set_call
  link_set_call-read true =
      let rest : Text = ifn ++ 32 ∷ (codes "up" ++ 32 ∷ quiet) in
      rw
        (
          snprintf-whole 128 (codes "ip link set " ++ rest)
              (omega (arith, length-append {0}, name.1)),
          link_words rest,
          split-word 32 ifn (codes "up" ++ 32 ∷ quiet) name.2,
          split-word 32 (codes "up") quiet (ground arith),
          quiet_word,
        )
        refl
  link_set_call-read false =
      let rest : Text = ifn ++ 32 ∷ (codes "down" ++ 32 ∷ quiet) in
      rw
        (
          snprintf-whole 128 (codes "ip link set " ++ rest)
              (omega (arith, length-append {0}, name.1)),
          link_words rest,
          split-word 32 ifn (codes "down" ++ 32 ∷ quiet) name.2,
          split-word 32 (codes "down") quiet (ground arith),
          quiet_word,
        )
        refl

  set_mtu_call-read :
      (mtu : ℕ) → mtu ≤ 4580 → read_call (set_mtu_call ifn mtu) ≡ some (set_mtu ifn mtu)
  unfolding set_mtu_call
  set_mtu_call-read mtu h =
      let value : Text = decimal mtu ++ 32 ∷ quiet in
      let rest : Text = ifn ++ (codes " mtu " ++ value) in
      rw
        (
          snprintf-whole 128 (codes "ip link set " ++ rest)
              (omega (arith, length-append {0}, name.1, length-decimal mtu (omega arith))),
          link_words rest,
          split-word 32 ifn (codes "mtu " ++ value) name.2,
          split-word 32 (codes "mtu") value (ground arith),
          split-word 32 (decimal mtu) quiet (decimal_plain 32 mtu (omega arith) (omega arith)),
          quiet_word,
          read-decimal mtu (omega arith),
        )
        refl

  change_mac_call-read :
      (x : ℕ) (mac : List ℕ)
      → length mac ≤ 5
      → IsBytes (x ∷ mac)
      → read_call (change_mac_call ifn (x ∷ mac)) ≡ some (change_mac ifn (x ∷ mac))
  unfolding change_mac_call
  change_mac_call-read x mac h bytes =
      let s = mac_text (x ∷ mac) in
      let value : Text = s ++ 32 ∷ quiet in
      let rest : Text = ifn ++ (codes " address " ++ value) in
      rw
        (
          snprintf-whole 256 (codes "ip link set dev " ++ rest)
              (omega (arith, length-append {0}, name.1, length-mac_text (x ∷ mac), h)),
          link_words (codes "dev " ++ rest),
          split-word 32 (codes "dev") rest (ground arith),
          split-word 32 ifn (codes "address " ++ value) name.2,
          split-word 32 (codes "address") value (ground arith),
          split-word 32 s quiet (mac_text_plain (x ∷ mac)),
          quiet_word,
          read_bytes-mac_text x mac bytes,
        )
        refl

mac_call-read :
    (ifn : Text) (mac : List ℕ)
    → IsName ifn
    → length mac ≡ 6
    → IsBytes mac
    → read_call (change_mac_call ifn mac) ≡ some (change_mac ifn mac)
mac_call-read ifn [] name six bytes = absurd (omega arith)
mac_call-read ifn (x ∷ mac) name six bytes = change_mac_call-read ifn name x mac (omega arith) bytes

call_of-read :
    (id : ℕ) (command : Command)
    → id < 32
    → IsGood id command
    → read_call (call_of command) ≡ some command
unfolding call_of
call_of-read id (nsim_new i ports) h good =
    nsim_new_call-read i ports (omega (arith, good.0)) good.2
call_of-read id (nsim_del i) h good = nsim_del_call-read i (omega (arith, good))
call_of-read id (ip_add ifn a b c d prefix) h good = ip_add_call-read ifn good.0 a b c d prefix good
call_of-read id (ip_del ifn a b c d prefix) h good = ip_del_call-read ifn good.0 a b c d prefix good
call_of-read id (link_set ifn up) h good = link_set_call-read ifn good up
call_of-read id (set_mtu ifn mtu) h good = set_mtu_call-read ifn good.0 mtu good.2
call_of-read id (change_mac ifn mac) h good = mac_call-read ifn mac good.0 good.1 good.3

map-read :
    (id : ℕ) (t : Trace) → id < 32 → AllGood id t → map read_call (map call_of t) ≡ map some t
map-read id [] h good = refl
map-read id (command ∷ t) h good =
    ap₂ (λ x xs. x ∷ xs) (call_of-read id command h good.0) (map-read id t h good.1)

-- For an input of bytes that is not empty, any interfaces whose paths have no space and however
-- the two threads take turns, the writes to sysfs and the shell lines of a run read back, word by
-- word, as its commands: no buffer cuts a text, and no operand runs into another.
pub run-start_calls :
    (interfaces : Interfaces) (first : ℕ) (rest : List ℕ) (turns : List Bool)
    → IsBytes rest
    → ((t : Trace) → OnePieces (interfaces t))
    → let t = (run interfaces (start (first ∷ rest)) turns).trace in
      map read_call (map call_of t) ≡ map some t
run-start_calls interfaces first rest turns bytes names =
    map-read (first % 32) _ (omega arith) (run-start interfaces first rest turns bytes names)
