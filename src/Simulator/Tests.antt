-- ===== src/Simulator/Tests.antt =====
-- A simulation in which an event adds others.
use open_weaver.Base.{ℕ, zero, suc, ◌+◌, ◌≡◌, refl, none, some, List, [], ◌∷◌, ◌++◌, arith}
use open_weaver.Simulator.{
  Event, Simulator, Call, add_call, remove_call, run, queue_add, add_event, new_simulator,
  make_calls,
}
use open_weaver.Simulator.Indexes.{Consistent, make_calls-Consistent, new_simulator-Agrees, find_id}
use open_weaver.Simulator.Order.{Ascending, Spares, run-Ascending}

-- The payload is how many more events follow, each two ticks later; the world lists the payloads.
abbrev act : Event ℕ → List ℕ → List (Call ℕ) × List ℕ
act e w =
    (elim e.payload [ zero ↦ [] | suc n ↦ add_call (e.tick + 2) n ∷ [] ], w ++ (e.payload ∷ []))

act-Spares : (e : Event ℕ) (w : List ℕ) → Spares e.id (act e w).0
act-Spares e w = go e.id e.tick e.payload
  where
    go :
        (id tick payload : ℕ)
        → Spares id (elim payload as (λ _. List (Call ℕ)) [
          | zero ↦ []
          | suc n ↦ add_call (tick + 2) n ∷ []
        ])
    go id tick zero = tt
    go id tick (suc n) = tt

abbrev queue : Simulator ℕ
queue =
    queue_add (record { id = 1; tick = 4; payload = 0 })
      (queue_add (record { id = 0; tick = 3; payload = 2 })
        (record { id_seq = 2; by_id = []; by_tick = [] }))

run_test : (run act 10 queue []).0 ≡ 3 ∷ 4 ∷ 5 ∷ 7 ∷ []
unfolding run queue_add
run_test = refl

world_test : (run act 10 queue []).1.1 ≡ 2 ∷ 0 ∷ 1 ∷ 0 ∷ []
unfolding run queue_add
world_test = refl

early_test : add_event 2 0 queue ≡ none
unfolding add_event queue_add
early_test = refl

run-Ascending_example : Ascending 0 (run act 10 queue []).0
unfolding queue_add
run-Ascending_example = run-Ascending act act-Spares 10 0 queue [] (omega arith, (omega arith, tt))

-- An event is added, another one behind it, and the first is removed.
abbrev calls : List (Call ℕ)
calls = add_call 3 7 ∷ add_call 4 8 ∷ remove_call (record { id = 0; tick = 3; payload = 7 }) ∷ []

make_calls-Consistent_example : Consistent (make_calls calls new_simulator)
unfolding new_simulator add_event find_id
make_calls-Consistent_example =
    make_calls-Consistent calls new_simulator new_simulator-Agrees (refl, tt)

make_calls_test : make_calls calls new_simulator ≡ (
    let e : Event ℕ = record { id = 1; tick = 4; payload = 8 } in
    some (record { id_seq = 2; by_id = (1, e) ∷ []; by_tick = e ∷ [] }))
unfolding new_simulator make_calls
make_calls_test = refl
