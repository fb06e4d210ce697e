-- ===== src/Simulator.antt =====
-- simulator/include/marlin/simulator/core and simulator/src/core/Simulator.cpp: the queue of events, indexed
-- by id and by tick, and the loop that runs them. A pointer to an event is the event, which its id
-- tells from others; an event's `run` is a function of the world that it acts on, which returns the
-- calls that it makes of the simulator.
pub mod Order
pub mod Indexes
mod Tests
use open_weaver.Base.{
  ℕ, zero, suc, ◌+◌, ◌-◌, ◌*◌, ◌/◌, ◌%◌, ◌^◌, ◌≤◌, ◌<◌, min, max, ◌≡◌, refl, sym, ap, subst, ◌∙◌,
  ◌≢◌, ◌↔◌, ◌⊎◌, inl, inr, Bool, true, false, not, ◌&&◌, ◌||◌, Option, none, some, List, [], ◌∷◌,
  ◌++◌, map, arith, ltb, leb, ◌==◌, if◌then◌else◌, ltb→lt, lt→ltb, leb→le, ==_iff, ==_refl,
  Bool-cases, Option-cases, add64, sub64, length, take, drop, length-append, length-take,
  length-drop, take-append-drop, All, take_all, take-append_length, drop-append_length,
}
use open_weaver.Dict.{Dict, lookup, assign, erase}

pub record Event (P : Type 0) : Type 0 where
  pub id : ℕ
  pub tick : ℕ
  pub payload : P

pub record Simulator (P : Type 0) : Type 0 where
  -- Event::id_seq
  pub id_seq : ℕ
  -- The MapIndex by id and the MultimapIndex by tick.
  pub by_id : Dict (Event P)
  pub by_tick : List (Event P)

-- What the event that runs calls.
pub data Call (P : Type 0) : Type 0 where
  -- `new` of an event, and add_event.
  add_call : (tick : ℕ) → P → Call P
  -- remove_event of an event of the queue.
  remove_call : Event P → Call P

abbrev pub null : {A : Type 0} → List A → Bool
null [] = true
null (_ ∷ _) = false

module _ {P : Type 0} where
  unfoldable pub new_simulator : Simulator P
  new_simulator = record { id_seq = 0; by_id = []; by_tick = [] }

  -- `insert` of a btree_multimap: behind the entries with the same key.
  unfoldable pub insert_tick : Event P → List (Event P) → List (Event P)
  insert_tick e [] = e ∷ []
  insert_tick e (x ∷ xs) = if ltb e.tick x.tick then e ∷ x ∷ xs else x ∷ insert_tick e xs

  -- `remove` of MultimapIndex: the first entry with the tick that is the event.
  unfoldable pub remove_tick : Event P → List (Event P) → List (Event P)
  remove_tick e [] = []
  remove_tick e (x ∷ xs) = if (x.tick == e.tick) && (x.id == e.id) then xs else x ∷ remove_tick e xs

  -- `add` of EventQueue.
  unfoldable pub queue_add : Event P → Simulator P → Simulator P
  unfolding assign insert_tick
  queue_add e s = record s { by_id = assign e.id e s.by_id; by_tick = insert_tick e s.by_tick }

  -- remove_event of EventQueue and of Simulator.
  unfoldable pub remove_event : Event P → Simulator P → Simulator P
  unfolding erase remove_tick
  remove_event e s = record s { by_id = erase e.id s.by_id; by_tick = remove_tick e s.by_tick }

  unfoldable pub is_empty : Simulator P → Bool
  is_empty s = null s.by_id && null s.by_tick

  -- The tick of the event that is next.
  abbrev pub next_tick : List (Event P) → ℕ
  next_tick [] = 0
  next_tick (first ∷ _) = first.tick

  unfoldable pub current_tick : Simulator P → ℕ
  unfolding is_empty
  current_tick s = if is_empty s then 0 else next_tick s.by_tick

  -- The constructor of Event and add_event of Simulator; none is its `throw`, which ends the program.
  unfoldable pub add_event : (tick : ℕ) → P → Simulator P → Option (Simulator P)
  unfolding queue_add is_empty
  add_event tick payload s =
      let e : Event P = record { id = s.id_seq; tick = tick; payload = payload } in
      if not (is_empty s) && ltb tick (next_tick s.by_tick)
      then none
      else some (queue_add e (record s { id_seq = s.id_seq + 1 }))

  -- The calls of an event, in turn.
  unfoldable pub make_calls : List (Call P) → Simulator P → Option (Simulator P)
  unfolding add_event remove_event
  make_calls [] s = some s
  make_calls (add_call tick payload ∷ calls) s = elim (add_event tick payload s) [
    | none ↦ none
    | some s' ↦ make_calls calls s'
  ]
  make_calls (remove_call e ∷ calls) s = make_calls calls (remove_event e s)

  module _ {W : Type 0} (act : Event P → W → List (Call P) × W) where
    -- One round of the loop of `run`; the event stays first in the queue while it runs.
    unfoldable pub run_one : Event P → Simulator P → W → Option (Simulator P) × W
    unfolding make_calls remove_event
    run_one e s w =
        let (calls, w') = act e w in
        (elim (make_calls calls s) [ none ↦ none | some s' ↦ some (remove_event e s') ], w')

    -- The ticks of the events that ran, and what is left unless the program ended.
    abbrev pub Trace : Type 0
    Trace = List ℕ × (Option (Simulator P) × W)

    unfoldable pub run_rest : (Simulator P → W → Trace) → ℕ → Option (Simulator P) → W → Trace
    run_rest next tick none w = (tick ∷ [], (none, w))
    run_rest next tick (some s) w = let rest = next s w in (tick ∷ rest.0, rest.1)

    -- A round of the loop, with the events in the order of the queue.
    unfoldable pub run_round : (Simulator P → W → Trace) → List (Event P) → Simulator P → W → Trace
    unfolding run_one run_rest
    run_round next [] s w = ([], (some s, w))
    run_round next (first ∷ _) s w = let r = run_one first s w in run_rest next first.tick r.0 r.1

    -- `run` for at most `n` rounds; the loop itself has no bound.
    unfoldable pub run : ℕ → Simulator P → W → Trace
    unfolding run_round
    run zero s w = ([], (some s, w))
    run (suc n) s w = run_round (run n) s.by_tick s w
