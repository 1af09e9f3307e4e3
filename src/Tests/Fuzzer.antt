-- ===== src/Tests/Fuzzer.antt =====
-- The fuzzer of netdevsim on an input of eleven bytes, with one interface once a device is there.
use kernel_fuzzing.Base.{
  ℕ, zero, suc, ◌≤◌, ◌≡◌, refl, Bool, true, false, map, some, List, [], ◌∷◌, arith,
}
use kernel_fuzzing.Base.Codes.{codes}
use kernel_fuzzing.Fuzz.{
  Trace, behind_slash, first_nsim_if, nsim_new, nsim_del, set_mtu, Interfaces, finished, runner,
  sequence, count_of, slices, take_bytes, drop_bytes, do_op, run_op, if_any, on_first, byte_or,
  ports_of, mtu_of, advance, turn, run, start,
}
use kernel_fuzzing.Fuzz.Names.{OnePieces}
use kernel_fuzzing.Fuzz.Calls.{call_of}
use kernel_fuzzing.Fuzz.Calls.Reader.{read_call}
use kernel_fuzzing.Fuzz.Calls.Whole.{run-start_calls}
use kernel_fuzzing.Fuzz.Commands.{AllGood, run-start}
use kernel_fuzzing.Fuzz.Order.{Begins, Ends}
use kernel_fuzzing.Fuzz.Finish.{first_turns, second_turns, run-start_order}

abbrev one_interface : Interfaces
one_interface [] = []
one_interface (command ∷ t) = codes "/sys/devices/netdevsim5/net/eth0" ∷ []

one_interface_words : (t : Trace) → OnePieces (one_interface t)
one_interface_words [] = tt
one_interface_words (command ∷ t) = (ground arith, tt)

-- The first byte is 37: id 5, 14 operations at most, and a double deletion.
abbrev input : List ℕ
input = 7 ∷ 200 ∷ 3 ∷ 4 ∷ 5 ∷ 6 ∷ 7 ∷ 8 ∷ 9 ∷ 3 ∷ []

-- One turn each, again and again.
abbrev alternate : ℕ → List Bool
alternate zero = []
alternate (suc n) = true ∷ false ∷ alternate n

-- Both threads create the device before either of them looks for an interface.
run_of_input :
    (run one_interface (start (37 ∷ 7 ∷ 100 ∷ [])) (alternate 6)).trace
    ≡ nsim_del 5
      ∷ nsim_del 5
      ∷ nsim_del 5
      ∷ nsim_del 5
      ∷ nsim_del 5
      ∷ nsim_del 5
      ∷ set_mtu (codes "eth0") 2100
      ∷ set_mtu (codes "eth0") 2100
      ∷ nsim_new 5 2
      ∷ nsim_new 5 2
      ∷ []
unfolding run start turn first_nsim_if behind_slash advance runner sequence slices take_bytes
    drop_bytes count_of do_op run_op if_any on_first byte_or ports_of mtu_of
run_of_input = refl

run-start_example : AllGood 5 (run one_interface (start (37 ∷ input)) (alternate 7)).trace
run-start_example =
    run-start one_interface 37 input (alternate 7) (ground arith) one_interface_words

enough_turns : (104 ≤ first_turns (alternate 104)) × (104 ≤ second_turns (alternate 104))
enough_turns = (omega arith, omega arith)

run-start_order_example :
    let s = run one_interface (start (37 ∷ input)) (alternate 104) in
    (s.first ≡ finished) × (s.second ≡ finished) × Begins 5 s.trace × Ends 5 s.trace
run-start_order_example =
    run-start_order one_interface 37 input (alternate 104) (ground arith) enough_turns.0
      enough_turns.1

run-start_calls_example :
    let t = (run one_interface (start (37 ∷ input)) (alternate 7)).trace in
    map read_call (map call_of t) ≡ map some t
run-start_calls_example =
    run-start_calls one_interface 37 input (alternate 7) (ground arith) one_interface_words
