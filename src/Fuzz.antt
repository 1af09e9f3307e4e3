-- ===== src/Fuzz.antt =====
-- The fuzzer of netdevsim, fuzzing/fuzz_nsim.c: how an input becomes a sequence of operations, and
-- which commands an operation gives. Commands stand for the writes to sysfs and the calls of `ip`;
-- their text is in Fuzz/Calls. What `glob` finds after the commands before is a parameter. Memory
-- that `malloc` asks for is there.
pub mod Sequence
pub mod Names
pub mod Commands
pub mod Order
pub mod Finish
pub mod Calls
use kernel_fuzzing.Base.{
  ℕ, zero, suc, ◌+◌, ◌-◌, ◌*◌, ◌%◌, ◌^◌, bit_and, Bool, true, false, Option, none, some, List, [],
  ◌∷◌, ◌++◌, ◌==◌, ltb, if◌then◌else◌, length, get_elem?, set,
}

-- A string is a list of characters without the NUL at its end.
abbrev pub Text : Type 0
Text = List ℕ

pub data Command : Type 0 where
  nsim_new : (id ports : ℕ) → Command
  nsim_del : (id : ℕ) → Command
  ip_add : (ifn : Text) (a b c d prefix : ℕ) → Command
  ip_del : (ifn : Text) (a b c d prefix : ℕ) → Command
  link_set : (ifn : Text) (up : Bool) → Command
  set_mtu : (ifn : Text) (mtu : ℕ) → Command
  change_mac : (ifn : Text) (mac : List ℕ) → Command

-- The commands so far, the last one first.
abbrev pub Trace : Type 0
Trace = List Command

-- The paths that match, in the order of `glob`.
abbrev pub Interfaces : Type 0
Interfaces = Trace → List Text

unfoldable pub take_bytes : (n : ℕ) → List ℕ → List ℕ
take_bytes zero xs = []
take_bytes (suc n) [] = []
take_bytes (suc n) (x ∷ xs) = x ∷ take_bytes n xs

-- `strrchr`: what stands behind the last slash.
unfoldable pub behind_slash : Text → Option Text
behind_slash [] = none
behind_slash (c ∷ s) = elim (behind_slash s) [
  | some name ↦ some name
  | none ↦ if c == 47 then some s else none
]

-- `snprintf(out, outsz, "%s", slash + 1)` with the 64 bytes of `ifn`; the empty name is no interface.
unfoldable pub first_nsim_if : List Text → Text
first_nsim_if [] = []
first_nsim_if (p ∷ paths) = elim (behind_slash p) [ none ↦ [] | some name ↦ take_bytes 63 name ]

abbrev pub op_create : ℕ
op_create = 0

abbrev pub op_addr_add : ℕ
op_addr_add = 1

abbrev pub op_addr_del : ℕ
op_addr_del = 2

abbrev pub op_link_up : ℕ
op_link_up = 3

abbrev pub op_link_down : ℕ
op_link_down = 4

abbrev pub op_del : ℕ
op_del = 5

abbrev pub op_double_del : ℕ
op_double_del = 6

abbrev pub op_chg_mtu : ℕ
op_chg_mtu = 7

abbrev pub op_chg_mac : ℕ
op_chg_mac = 8

-- `n > i ? p[i] : other`
unfoldable pub byte_or : List ℕ → (i other : ℕ) → ℕ
byte_or p i other = elim (get_elem? p i) [ some x ↦ x | none ↦ other ]

-- `n > 6 ? p[6] % 30 + 1 : 24`, and the number of ports and the MTU in the same way.
unfoldable pub prefix_of : List ℕ → ℕ
prefix_of p = elim (get_elem? p 6) [ some x ↦ x % 30 + 1 | none ↦ 24 ]

unfoldable pub ports_of : List ℕ → ℕ
ports_of p = 1 + elim (get_elem? p 2) [ some x ↦ x % 4 | none ↦ 0 ]

unfoldable pub mtu_of : List ℕ → ℕ
mtu_of p = 500 + elim (get_elem? p 2) [ some x ↦ x * 16 | none ↦ 1000 ]

-- `for (i; i < 5 && 3 + i < n; i++) mac[i + 1] = p[3 + i]`
unfoldable pub fill_mac : (left i : ℕ) → (p mac : List ℕ) → List ℕ
fill_mac zero i p mac = mac
fill_mac (suc left) i p mac = elim (get_elem? p (3 + i)) [
  | none ↦ mac
  | some x ↦ fill_mac left (i + 1) p (set mac (i + 1) x)
]

-- What a thread has left to do: a command, or a look at the first interface, and then the rest.
pub data Program : Type 0 where
  finished : Program
  issue : Command → Program → Program
  look : (Text → Program) → Program

-- A command on the first interface, if there is one.
unfoldable pub if_any : (Text → Command) → Program → Text → Program
if_any command rest [] = rest
if_any command rest (c ∷ name) = issue (command (c ∷ name)) rest

unfoldable pub on_first : (Text → Command) → Program → Program
on_first command rest = look (if_any command rest)

-- Without an interface a device is created first, and the look repeated.
unfoldable pub or_create : (id : ℕ) → (Text → Command) → Program → Text → Program
or_create id command rest [] = issue (nsim_new id 1) (on_first command rest)
or_create id command rest (c ∷ name) = issue (command (c ∷ name)) rest

-- The switch of `do_op`, before the rest of the thread.
unfoldable pub run_op : (op : ℕ) (p : List ℕ) (id : ℕ) → Program → Program
run_op op p id rest =
    if op == op_create
    then issue (nsim_new id (ports_of p)) rest
    else if op == op_addr_add
    then look (
        or_create id
          (λ ifn.
            ip_add ifn (byte_or p 2 192) (byte_or p 3 0) (byte_or p 4 2) (byte_or p 5 1)
              (prefix_of p))
          rest)
    else if op == op_addr_del
    then on_first
        (λ ifn.
          ip_del ifn (byte_or p 2 192) (byte_or p 3 0) (byte_or p 4 2) (byte_or p 5 1)
            (prefix_of p))
        rest
    else if op == op_link_up
    then on_first (λ ifn. link_set ifn true) rest
    else if op == op_link_down
    then on_first (λ ifn. link_set ifn false) rest
    else if op == op_del
    then issue (nsim_del id) rest
    else if op == op_double_del
    then issue (nsim_del id) (issue (nsim_del id) rest)
    else if op == op_chg_mtu
    then on_first (λ ifn. set_mtu ifn (mtu_of p)) rest
    else if op == op_chg_mac
    then on_first (λ ifn. change_mac ifn (fill_mac 5 0 p (2 ∷ 0 ∷ 0 ∷ 0 ∷ 0 ∷ 0 ∷ []))) rest
    else rest

unfoldable pub do_op : (p : List ℕ) (default_id : ℕ) → Program → Program
do_op [] default_id rest = rest
do_op (op ∷ p) default_id rest =
    run_op op (op ∷ p) (byte_or (op ∷ p) 1 (default_id % 2 ^ 8) % 32) rest

-- The loop of `runner`; the pauses between operations only change the turns of the threads.
unfoldable pub runner : List (List ℕ) → Program
runner [] = finished
runner (p ∷ seq) = do_op p 1 (runner seq)

-- The two threads, and the commands of both.
pub record Threads : Type 0 where
  pub first : Program
  pub second : Program
  pub trace : Trace

unfoldable pub advance : Interfaces → Program → Trace → Program × Trace
advance interfaces finished t = (finished, t)
advance interfaces (issue command rest) t = (rest, command ∷ t)
advance interfaces (look rest) t = (rest (first_nsim_if (interfaces t)), t)

unfoldable pub turn : Interfaces → Threads → Bool → Threads
turn interfaces s true =
    let (first, trace) = advance interfaces s.first s.trace in
    record { first = first; second = s.second; trace = trace }
turn interfaces s false =
    let (second, trace) = advance interfaces s.second s.trace in
    record { first = s.first; second = second; trace = trace }

-- The threads take turns in any order.
unfoldable pub run : Interfaces → Threads → List Bool → Threads
run interfaces s [] = s
run interfaces s (b ∷ turns) = run interfaces (turn interfaces s b) turns

unfoldable pub drop_bytes : (n : ℕ) → List ℕ → List ℕ
drop_bytes zero xs = xs
drop_bytes (suc n) [] = []
drop_bytes (suc n) (x ∷ xs) = drop_bytes n xs

-- The loop over the bytes left, which makes `count - idx` rounds at most.
unfoldable pub slices : (rounds id : ℕ) → List ℕ → List (List ℕ)
slices zero id rest = []
slices (suc rounds) id [] = []
slices (suc rounds) id (op ∷ rest) =
    (op ∷ id ∷ take_bytes 8 rest) ∷ slices rounds id (drop_bytes 8 rest)

-- `1 + data[0] % 24`; the sequence has room for three more.
unfoldable pub count_of : (first : ℕ) → ℕ
count_of first = (1 + first % 24) % 2 ^ 8

-- The sequence that `LLVMFuzzerTestOneInput` builds; without a byte it returns.
unfoldable pub sequence : List ℕ → List (List ℕ)
sequence [] = []
sequence (first ∷ rest) =
    let id = first % 32 in
    ((op_create ∷ id ∷ 1 ∷ []) ∷ slices (count_of first - 1) id rest)
    ++ ((op_del ∷ id ∷ []) ∷ (if bit_and first 1 == 1 then (op_double_del ∷ id ∷ []) ∷ [] else []))

-- Both threads get the same sequence.
unfoldable pub start : List ℕ → Threads
start input = record {
  first = runner (sequence input);
  second = runner (sequence input);
  trace = [];
}
