-- ===== src/Simulator/Order.antt =====
-- The order in which the events of a simulation run.
use open_weaver.Base.{
  ℕ, zero, suc, ◌≤◌, ◌≡◌, refl, sym, subst, ◌∙◌, ◌≢◌, ◌⊎◌, inl, inr, false, ◌&&◌, Option, none,
  some, List, [], ◌∷◌, arith, ltb, ◌==◌, ltb→lt, Bool-cases,
}
use open_weaver.Dict.{Dict}
use open_weaver.Simulator.{
  Event, Simulator, Call, add_call, remove_call, remove_tick, make_calls, add_event, run,
  insert_tick, run_one, remove_event, queue_add, run_round, run_rest, is_empty, Trace, next_tick,
  null,
}

abbrev pub Ascending : ℕ → List ℕ → Type 0
Ascending lo [] = Unit
Ascending lo (t ∷ ts) = (lo ≤ t) × Ascending t ts

module _ {P : Type 0} where
  -- In the order of the ticks, from `lo` on.
  abbrev pub AtLeast : ℕ → List (Event P) → Type 0
  AtLeast lo [] = Unit
  AtLeast lo (x ∷ xs) = (lo ≤ x.tick) × AtLeast x.tick xs

  abbrev pub Has : ℕ → List (Event P) → Type 0
  Has id [] = ⊥
  Has id (x ∷ xs) = (x.id ≡ id) ⊎ Has id xs

  -- An event does not remove itself while it runs.
  abbrev pub Spares : ℕ → List (Call P) → Type 0
  Spares id [] = Unit
  Spares id (add_call tick payload ∷ calls) = Spares id calls
  Spares id (remove_call e ∷ calls) = (e.id ≢ id) × Spares id calls

  lower : (lo hi : ℕ) (xs : List (Event P)) → lo ≤ hi → AtLeast hi xs → AtLeast lo xs
  lower lo hi [] le h = tt
  lower lo hi (x ∷ xs) le h = (omega (arith, h.0), h.1)

  insert_tick-AtLeast :
      (lo : ℕ) (e : Event P) (xs : List (Event P))
      → lo ≤ e.tick
      → AtLeast lo xs
      → AtLeast lo (insert_tick e xs)
  unfolding insert_tick
  insert_tick-AtLeast lo e [] le h = (le, tt)
  insert_tick-AtLeast lo e (x ∷ xs) le h = elim (Bool-cases (ltb e.tick x.tick)) [
    | inl before ↦ rw before (le, ((let q = ltb→lt _ _ before in omega arith), h.1))
    | inr behind ↦ rw behind (h.0, insert_tick-AtLeast x.tick e xs (ground (arith, behind)) h.1)
  ]

  insert_tick-Has :
      (id : ℕ) (e : Event P) (xs : List (Event P)) → Has id xs → Has id (insert_tick e xs)
  unfolding insert_tick
  insert_tick-Has id e [] h = absurd h
  insert_tick-Has id e (x ∷ xs) h = elim (Bool-cases (ltb e.tick x.tick)) [
    | inl before ↦ rw before (inr h)
    | inr behind ↦
        rw behind (elim h [ inl here ↦ inl here | inr there ↦ inr (insert_tick-Has id e xs there) ])
  ]

  remove_tick-AtLeast :
      (lo : ℕ) (e : Event P) (xs : List (Event P)) → AtLeast lo xs → AtLeast lo (remove_tick e xs)
  unfolding remove_tick
  remove_tick-AtLeast lo e [] h = tt
  remove_tick-AtLeast lo e (x ∷ xs) h = elim (Bool-cases ((x.tick == e.tick) && (x.id == e.id))) [
    | inl same ↦ rw same (lower lo x.tick xs h.0 h.1)
    | inr other ↦ rw other (h.0, remove_tick-AtLeast x.tick e xs h.1)
  ]

  remove_tick-Has :
      (id : ℕ) (e : Event P) (xs : List (Event P))
      → e.id ≢ id
      → Has id xs
      → Has id (remove_tick e xs)
  unfolding remove_tick
  remove_tick-Has id e [] ne h = absurd h
  remove_tick-Has id e (x ∷ xs) ne h = elim (Bool-cases ((x.tick == e.tick) && (x.id == e.id))) [
    | inl same ↦ rw same (elim h [
      | inl here ↦ absurd (ne (let q : x.id ≡ e.id = ground (arith, same) in sym q ∙ here))
      | inr there ↦ there
    ])
    | inr other ↦
        rw other
          (elim h [ inl here ↦ inl here | inr there ↦ inr (remove_tick-Has id e xs ne there) ])
  ]

  -- The queue after the calls of an event, if the program did not end.
  abbrev pub Left : ℕ → Option (Simulator P) → Type 0
  Left lo none = Unit
  Left lo (some s) = AtLeast lo s.by_tick

  -- What calls leave of the queue while the event `id` runs.
  abbrev Kept : ℕ → ℕ → Option (Simulator P) → Type 0
  Kept lo id none = Unit
  Kept lo id (some s) = AtLeast lo s.by_tick × Has id s.by_tick

  -- The new event stands behind those of its tick.
  added-Kept :
      (lo id : ℕ) (e : Event P) (xs : List (Event P))
      → ltb e.tick (next_tick xs) ≡ false
      → AtLeast lo xs
      → Has id xs
      → AtLeast lo (insert_tick e xs) × Has id (insert_tick e xs)
  added-Kept lo id e [] late h k = absurd k
  added-Kept lo id e (x ∷ xs) late h k =
      let le : lo ≤ e.tick = ground (arith, late, h.0) in
      (insert_tick-AtLeast lo e (x ∷ xs) le h, insert_tick-Has id e (x ∷ xs) k)

  full : (id : ℕ) (s : Simulator P) → Has id s.by_tick → is_empty s ≡ false
  unfolding is_empty
  full id s k = go s.by_id s.by_tick k
    where
      go : (m : Dict (Event P)) (xs : List (Event P)) → Has id xs → (null m && null xs) ≡ false
      go m [] k = absurd k
      go [] (x ∷ xs) k = refl
      go (x ∷ m) (y ∷ xs) k = refl

  add_event-Kept :
      (lo id tick : ℕ) (payload : P) (s : Simulator P)
      → AtLeast lo s.by_tick
      → Has id s.by_tick
      → Kept lo id (add_event tick payload s)
  unfolding add_event queue_add
  add_event-Kept lo id tick payload s h k =
      let e : Event P = record { id = s.id_seq; tick = tick; payload = payload } in
      elim (Bool-cases (ltb tick (next_tick s.by_tick))) [
        | inl early ↦ rw (full id s k, early) tt
        | inr late ↦ rw (full id s k, late) (added-Kept lo id e s.by_tick late h k)
      ]

  bind-Kept :
      (lo id : ℕ) (o : Option (Simulator P)) (f : Simulator P → Option (Simulator P))
      → Kept lo id o
      → ((s : Simulator P) → AtLeast lo s.by_tick → Has id s.by_tick → Kept lo id (f s))
      → Kept lo id (elim o [ none ↦ none | some s ↦ f s ])
  bind-Kept lo id none f k next = tt
  bind-Kept lo id (some s) f k next = next s k.0 k.1

  make_calls-Kept :
      (lo id : ℕ) (calls : List (Call P)) (s : Simulator P)
      → Spares id calls
      → AtLeast lo s.by_tick
      → Has id s.by_tick
      → Kept lo id (make_calls calls s)
  unfolding make_calls remove_event
  make_calls-Kept lo id [] s spares h k = (h, k)
  make_calls-Kept lo id (add_call tick payload ∷ calls) s spares h k =
      bind-Kept lo id (add_event tick payload s) (make_calls calls)
        (add_event-Kept lo id tick payload s h k)
        (λ s' h' k'. make_calls-Kept lo id calls s' spares h' k')
  make_calls-Kept lo id (remove_call e ∷ calls) s spares h k =
      make_calls-Kept lo id calls (remove_event e s) spares.1 (remove_tick-AtLeast lo e s.by_tick h)
        (remove_tick-Has id e s.by_tick spares.0 k)

  remove-Left :
      (lo id : ℕ) (e : Event P) (o : Option (Simulator P))
      → Kept lo id o
      → Left lo (elim o [ none ↦ none | some s ↦ some (remove_event e s) ])
  unfolding remove_event
  remove-Left lo id e none k = tt
  remove-Left lo id e (some s) k = remove_tick-AtLeast lo e s.by_tick k.0

  module _ {W : Type 0} (act : Event P → W → List (Call P) × W)
      (spares : (e : Event P) (w : W) → Spares e.id (act e w).0) where
    run_one-Left :
        (lo : ℕ) (e : Event P) (s : Simulator P) (w : W)
        → AtLeast lo s.by_tick
        → Has e.id s.by_tick
        → Left lo (run_one act e s w).0
    unfolding run_one
    run_one-Left lo e s w h k =
        remove-Left lo e.id e (make_calls (act e w).0 s)
          (make_calls-Kept lo e.id (act e w).0 s (spares e w) h k)

    -- What the rest of the loop does from any queue.
    abbrev Ascends : (Simulator P → W → Trace act) → Type 0
    Ascends next =
        (lo : ℕ) (s : Simulator P) (w : W) → AtLeast lo s.by_tick → Ascending lo (next s w).0

    rest-Ascending :
        (next : Simulator P → W → Trace act) (lo tick : ℕ) (o : Option (Simulator P)) (w : W)
        → Ascends next
        → lo ≤ tick
        → Left tick o
        → Ascending lo (run_rest act next tick o w).0
    unfolding run_rest
    rest-Ascending next lo tick none w ascends le h = (le, tt)
    rest-Ascending next lo tick (some s) w ascends le h = (le, ascends tick s w h)

    round-Ascending :
        (next : Simulator P → W → Trace act) (lo : ℕ) (xs : List (Event P)) (s : Simulator P)
        (w : W)
        → Ascends next
        → s.by_tick ≡ xs
        → AtLeast lo xs
        → Ascending lo (run_round act next xs s w).0
    unfolding run_round
    round-Ascending next lo [] s w ascends e h = tt
    round-Ascending next lo (x ∷ xs) s w ascends e h =
        let at : AtLeast x.tick s.by_tick = subst (AtLeast x.tick) (sym e) (omega arith, h.1) in
        let has : Has x.id s.by_tick = subst (Has x.id) (sym e) (inl refl) in
        let r = run_one act x s w in
        rest-Ascending next lo x.tick r.0 r.1 ascends h.0 (run_one-Left x.tick x s w at has)

    -- From a queue in the order of its ticks, the events run in the order of their ticks, whatever
    -- events they add and remove and after however many rounds of the loop, as long as no event
    -- removes itself while it runs: time never moves back.
    pub run-Ascending :
        (n lo : ℕ) (s : Simulator P) (w : W) → AtLeast lo s.by_tick → Ascending lo (run act n s w).0
    unfolding run
    run-Ascending zero lo s w h = tt
    run-Ascending (suc n) lo s w h =
        round-Ascending (run act n) lo s.by_tick s w (λ lo s w h. run-Ascending n lo s w h) refl h
