-- ===== src/Fuzz/Commands.antt =====
-- The commands that the operations of fuzzing/fuzz_nsim.c give, for any interfaces.
use kernel_fuzzing.Base.{
  Bool, true, false, ℕ, zero, suc, ◌+◌, ◌%◌, ◌≤◌, ◌<◌, ◌≡◌, refl, ◌⊎◌, some, List, [], ◌∷◌, ◌==◌,
  if◌then◌else◌, length, length-set, get_elem?, get_elem?-set_ne, ◌∙◌, set, arith, Option-cases,
  inl, inr,
}
use kernel_fuzzing.Fuzz.{
  Text, first_nsim_if, Command, nsim_new, nsim_del, ip_add, ip_del, link_set, set_mtu, change_mac,
  Trace, Interfaces, byte_or, prefix_of, ports_of, mtu_of, fill_mac, Program, finished, issue, look,
  if_any, on_first, or_create, run_op, do_op, runner, Threads, advance, turn, run, start, sequence,
}
use kernel_fuzzing.Fuzz.Names.{OnePieces, IsName, first_nsim_if-IsName}
use kernel_fuzzing.Fuzz.Sequence.{IsBytes, IsSlice, AllSlices, sequence-AllSlices}

-- A command in range: the device is that of the input, with 1 to 4 ports; an address of four
-- bytes with a prefix of 1 to 30 bits; an MTU of 500 to 4580; a MAC address that is six bytes, is
-- locally administered and of one interface.
abbrev pub IsGood : (id : ℕ) → Command → Type 0
IsGood id (nsim_new i ports) = (i ≡ id) × (1 ≤ ports) × (ports ≤ 4)
IsGood id (nsim_del i) = i ≡ id
IsGood id (ip_add ifn a b c d prefix) =
    IsName ifn × (a < 256) × (b < 256) × (c < 256) × (d < 256) × (1 ≤ prefix) × (prefix ≤ 30)
IsGood id (ip_del ifn a b c d prefix) =
    IsName ifn × (a < 256) × (b < 256) × (c < 256) × (d < 256) × (1 ≤ prefix) × (prefix ≤ 30)
IsGood id (link_set ifn up) = IsName ifn
IsGood id (set_mtu ifn mtu) = IsName ifn × (500 ≤ mtu) × (mtu ≤ 4580)
IsGood id (change_mac ifn mac) =
    IsName ifn × (length mac ≡ 6) × (get_elem? mac 0 ≡ some 2) × IsBytes mac

abbrev pub AllGood : (id : ℕ) → Trace → Type 0
AllGood id [] = Unit {0}
AllGood id (command ∷ t) = IsGood id command × AllGood id t

get_elem?-IsBytes : (p : List ℕ) (i x : ℕ) → IsBytes p → get_elem? p i ≡ some x → x < 256
get_elem?-IsBytes [] i x h e = ground arith
get_elem?-IsBytes (y ∷ p) zero x h e = ground (arith, h.0)
get_elem?-IsBytes (y ∷ p) (suc i) x h e = get_elem?-IsBytes p i x h.1 e

byte_or_bound : (p : List ℕ) (i other : ℕ) → IsBytes p → other < 256 → byte_or p i other < 256
unfolding byte_or
byte_or_bound p i other h small = elim (Option-cases (get_elem? p i)) [
  | inl missing ↦ rw (byte_or, missing) small
  | inr (x, e) ↦ rw (byte_or, e) (get_elem?-IsBytes p i x h e)
]

prefix_bounds : (p : List ℕ) → (1 ≤ prefix_of p) × (prefix_of p ≤ 30)
unfolding prefix_of
prefix_bounds p = elim (Option-cases (get_elem? p 6)) [
  | inl missing ↦ rw (prefix_of, missing) (omega arith, omega arith)
  | inr (x, e) ↦ rw (prefix_of, e) (omega arith, omega arith)
]

ports_bounds : (p : List ℕ) → (1 ≤ ports_of p) × (ports_of p ≤ 4)
unfolding ports_of
ports_bounds p = elim (Option-cases (get_elem? p 2)) [
  | inl missing ↦ rw (ports_of, missing) (omega arith, omega arith)
  | inr (x, e) ↦ rw (ports_of, e) (omega arith, omega arith)
]

mtu_bounds : (p : List ℕ) → IsBytes p → (500 ≤ mtu_of p) × (mtu_of p ≤ 4580)
unfolding mtu_of
mtu_bounds p h = elim (Option-cases (get_elem? p 2)) [
  | inl missing ↦ rw (mtu_of, missing) (omega arith, omega arith)
  | inr (x, e) ↦ rw (mtu_of, e) (omega arith, omega (arith, get_elem?-IsBytes p 2 x h e))
]

set-IsBytes : (xs : List ℕ) (i v : ℕ) → IsBytes xs → v < 256 → IsBytes (set xs i v)
set-IsBytes [] i v h k = tt
set-IsBytes (x ∷ xs) zero v h k = (k, h.1)
set-IsBytes (x ∷ xs) (suc i) v h k = (h.0, set-IsBytes xs i v h.1 k)

get_elem?-set_later : (xs : List ℕ) (i v : ℕ) → get_elem? (set xs (i + 1) v) 0 ≡ get_elem? xs 0
get_elem?-set_later xs i v = get_elem?-set_ne xs (i + 1) 0 v (λ e. omega arith)

-- Six bytes, the first one 2.
abbrev IsMac : List ℕ → Type 0
IsMac mac = (length mac ≡ 6) × (get_elem? mac 0 ≡ some 2) × IsBytes mac

fill_mac-IsMac :
    (left i : ℕ) (p mac : List ℕ) → IsBytes p → IsMac mac → IsMac (fill_mac left i p mac)
unfolding fill_mac
fill_mac-IsMac zero i p mac h good = good
fill_mac-IsMac (suc left) i p mac h good = elim (Option-cases (get_elem? p (3 + i))) [
  | inl missing ↦ rw (fill_mac, missing) good
  | inr (x, e) ↦
      rw (fill_mac, e)
        (fill_mac-IsMac left (i + 1) p (set mac (i + 1) x) h (
          length-set mac (i + 1) x ∙ good.0,
          get_elem?-set_later mac i x ∙ good.1,
          set-IsBytes mac (i + 1) x good.2 (get_elem?-IsBytes p (3 + i) x h e),
        ))
]

fill_mac-start : (p : List ℕ) → IsBytes p → IsMac (fill_mac 5 0 p (2 ∷ 0 ∷ 0 ∷ 0 ∷ 0 ∷ 0 ∷ []))
fill_mac-start p bytes =
    fill_mac-IsMac 5 0 p (2 ∷ 0 ∷ 0 ∷ 0 ∷ 0 ∷ 0 ∷ []) bytes (refl, refl, ground arith)

-- The bytes of an address with the length of its prefix.
address_bounds :
    (p : List ℕ)
    → IsBytes p
    → (byte_or p 2 192 < 256)
      × (byte_or p 3 0 < 256)
      × (byte_or p 4 2 < 256)
      × (byte_or p 5 1 < 256)
      × (1 ≤ prefix_of p)
      × (prefix_of p ≤ 30)
address_bounds p h = (
  byte_or_bound p 2 192 h (omega arith),
  byte_or_bound p 3 0 h (omega arith),
  byte_or_bound p 4 2 h (omega arith),
  byte_or_bound p 5 1 h (omega arith),
  (prefix_bounds p).0,
  (prefix_bounds p).1,
)

-- Every command that is left is in range.
abbrev pub GoodProgram : (id : ℕ) → Program → Type 0
GoodProgram id finished = Unit {0}
GoodProgram id (issue command rest) = IsGood id command × GoodProgram id rest
GoodProgram id (look rest) = (name : Text) → (name ≡ []) ⊎ IsName name → GoodProgram id (rest name)

module _ (id : ℕ) where
  if-GoodProgram :
      (b : Bool) (p q : Program)
      → GoodProgram id p
      → GoodProgram id q
      → GoodProgram id (if b then p else q)
  if-GoodProgram true p q h k = h
  if-GoodProgram false p q h k = k

  if_any-GoodProgram :
      (command : Text → Command) (rest : Program)
      → ((ifn : Text) → IsName ifn → IsGood id (command ifn))
      → GoodProgram id rest
      → (name : Text) → (name ≡ []) ⊎ IsName name
      → GoodProgram id (if_any command rest name)
  unfolding if_any
  if_any-GoodProgram command rest good h [] n = h
  if_any-GoodProgram command rest good h (c ∷ name) (inl e) = absurd (ground (arith, e))
  if_any-GoodProgram command rest good h (c ∷ name) (inr n) = (good (c ∷ name) n, h)

  on_first-GoodProgram :
      (command : Text → Command) (rest : Program)
      → ((ifn : Text) → IsName ifn → IsGood id (command ifn))
      → GoodProgram id rest
      → GoodProgram id (on_first command rest)
  unfolding on_first
  on_first-GoodProgram command rest good h = if_any-GoodProgram command rest good h

  or_create-GoodProgram :
      (command : Text → Command) (rest : Program)
      → ((ifn : Text) → IsName ifn → IsGood id (command ifn))
      → GoodProgram id rest
      → (name : Text) → (name ≡ []) ⊎ IsName name
      → GoodProgram id (or_create id command rest name)
  unfolding or_create
  or_create-GoodProgram command rest good h [] n =
      ((refl, omega arith, omega arith), on_first-GoodProgram command rest good h)
  or_create-GoodProgram command rest good h (c ∷ name) (inl e) = absurd (ground (arith, e))
  or_create-GoodProgram command rest good h (c ∷ name) (inr n) = (good (c ∷ name) n, h)

  -- Every operation, whatever its code.
  run_op-GoodProgram :
      (op : ℕ) (p : List ℕ) (rest : Program)
      → IsBytes p
      → GoodProgram id rest
      → GoodProgram id (run_op op p id rest)
  unfolding run_op
  run_op-GoodProgram op p rest bytes h =
      let either = λ (b : Bool) (x y : Program) (h : GoodProgram id x) (k : GoodProgram id y).
        if-GoodProgram b x y h k in
      let a = address_bounds p bytes in
      let m = mtu_bounds p bytes in
      let f = fill_mac-start p bytes in
      either (op == 0) _ _ ((refl, (ports_bounds p).0, (ports_bounds p).1), h)
        (either (op == 1) _ _
          (or_create-GoodProgram _ rest (λ ifn n. (n, a.0, a.1, a.2, a.3, a.4, a.5)) h)
          (either (op == 2) _ _
            (on_first-GoodProgram _ rest (λ ifn n. (n, a.0, a.1, a.2, a.3, a.4, a.5)) h)
            (either (op == 3) _ _ (on_first-GoodProgram _ rest (λ ifn n. n) h) (
              either (op == 4) _ _ (on_first-GoodProgram _ rest (λ ifn n. n) h) (
                either (op == 5) _ _ (refl, h)
                  (either (op == 6) _ _ (refl, (refl, h))
                    (either (op == 7) _ _ (on_first-GoodProgram _ rest (λ ifn n. (n, m.0, m.1)) h) (
                      either (op == 8) _ _
                        (on_first-GoodProgram _ rest (λ ifn n. (n, f.0, f.1, f.2)) h) h))))))))

  do_op-GoodProgram :
      (p : List ℕ) (default_id : ℕ) (rest : Program)
      → id < 32
      → IsSlice id p
      → GoodProgram id rest
      → GoodProgram id (do_op p default_id rest)
  unfolding do_op byte_or
  do_op-GoodProgram [] default_id rest small slice h = absurd slice
  do_op-GoodProgram (op ∷ []) default_id rest small slice h = absurd slice
  do_op-GoodProgram (op ∷ (i ∷ p)) default_id rest small slice h =
      let same : i % 32 ≡ id = omega (arith, slice.0) in
      let byte : i < 256 = omega (arith, slice.0) in
      rw same (run_op-GoodProgram op (op ∷ (i ∷ p)) rest (slice.1, (byte, slice.2)) h)

  runner-GoodProgram :
      (seq : List (List ℕ)) → id < 32 → AllSlices id seq → GoodProgram id (runner seq)
  unfolding runner
  runner-GoodProgram [] small slices = tt
  runner-GoodProgram (p ∷ seq) small slices =
      do_op-GoodProgram p 1 (runner seq) small slices.0 (runner-GoodProgram seq small slices.1)

  advance-AllGood :
      (interfaces : Interfaces) (p : Program) (t : Trace)
      → ((t : Trace) → OnePieces (interfaces t))
      → GoodProgram id p
      → AllGood id t
      → GoodProgram id (advance interfaces p t).0 × AllGood id (advance interfaces p t).1
  unfolding advance
  advance-AllGood interfaces finished t names h k = (tt, k)
  advance-AllGood interfaces (issue command rest) t names h k = (h.1, (h.0, k))
  advance-AllGood interfaces (look rest) t names h k =
      (h (first_nsim_if (interfaces t)) (first_nsim_if-IsName (interfaces t) (names t)), k)

  run-AllGood :
      (interfaces : Interfaces) (s : Threads) (turns : List Bool)
      → ((t : Trace) → OnePieces (interfaces t))
      → GoodProgram id s.first
      → GoodProgram id s.second
      → AllGood id s.trace
      → AllGood id (run interfaces s turns).trace
  unfolding run turn
  run-AllGood interfaces s [] names p q t = t
  run-AllGood interfaces s (true ∷ turns) names p q t =
      let a = advance-AllGood interfaces s.first s.trace names p t in
      run-AllGood interfaces (turn interfaces s true) turns names a.0 q a.1
  run-AllGood interfaces s (false ∷ turns) names p q t =
      let a = advance-AllGood interfaces s.second s.trace names q t in
      run-AllGood interfaces (turn interfaces s false) turns names p a.0 a.1

-- For an input of bytes that is not empty, any interfaces whose paths have no space and however
-- the two threads take turns, every command is on the device of the input, or on an interface whose
-- name is one word of 1 to 63 characters without a slash, and in range: 1 to 4 ports, addresses of
-- four bytes with a prefix of 1 to 30 bits, an MTU of 500 to 4580, a MAC address of six bytes that
-- starts with 2.
pub run-start :
    (interfaces : Interfaces) (first : ℕ) (rest : List ℕ) (turns : List Bool)
    → IsBytes rest
    → ((t : Trace) → OnePieces (interfaces t))
    → AllGood (first % 32) (run interfaces (start (first ∷ rest)) turns).trace
unfolding start
run-start interfaces first rest turns h names =
    let seq = sequence (first ∷ rest) in
    let good =
      runner-GoodProgram (first % 32) seq (omega arith) (sequence-AllSlices first rest h).0 in
    run-AllGood (first % 32) interfaces (start (first ∷ rest)) turns names good good tt
