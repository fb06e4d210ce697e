-- ===== src/Simulator/Indexes.antt =====
-- The two indexes of the event queue.
use open_weaver.Base.{
  ℕ, ◌+◌, ◌≤◌, ◌≡◌, refl, sym, ap, subst, ◌∙◌, inl, inr, false, not, ◌&&◌, Option, none, some, List,
  [], ◌∷◌, arith, ltb, ◌==◌, if◌then◌else◌, ==_refl, Bool-cases,
}
use open_weaver.Dict.{Dict, lookup, lookup-assign, lookup-erase}
use open_weaver.Simulator.{
  Event, Simulator, Call, add_call, remove_call, insert_tick, remove_tick, add_event, is_empty,
  queue_add, remove_event, null, next_tick, new_simulator, make_calls,
}

module _ {P : Type 0} where
  -- The event with an id, in the order of the queue.
  unfoldable pub find_id : ℕ → List (Event P) → Option (Event P)
  find_id k [] = none
  find_id k (x ∷ xs) = if x.id == k then some x else find_id k xs

  abbrev pub Distinct : List (Event P) → Type 0
  Distinct [] = Unit
  Distinct (x ∷ xs) = (find_id x.id xs ≡ none) × Distinct xs

  -- Both indexes hold the same events, with ids of their own that were given out.
  pub record Agrees (s : Simulator P) : Type 0 where
    pub same : (k : ℕ) → lookup k s.by_id ≡ find_id k s.by_tick
    pub given : (k : ℕ) → s.id_seq ≤ k → find_id k s.by_tick ≡ none
    pub distinct : Distinct s.by_tick

  find_id-insert_tick :
      (k : ℕ) (e : Event P) (xs : List (Event P))
      → find_id e.id xs ≡ none
      → find_id k (insert_tick e xs) ≡ (if e.id == k then some e else find_id k xs)
  unfolding find_id insert_tick
  find_id-insert_tick k e [] h = refl
  find_id-insert_tick k e (x ∷ xs) h = ground (arith, find_id-insert_tick k e xs)

  insert_tick-Distinct :
      (e : Event P) (xs : List (Event P))
      → find_id e.id xs ≡ none
      → Distinct xs
      → Distinct (insert_tick e xs)
  unfolding find_id insert_tick
  insert_tick-Distinct e [] h d = (refl, tt)
  insert_tick-Distinct e (x ∷ xs) h d =
      ground (arith, d.0, d.1, insert_tick-Distinct e xs, find_id-insert_tick x.id e xs)

  -- The event `e` itself is in the queue.
  find_id-remove_tick :
      (k : ℕ) (e : Event P) (xs : List (Event P))
      → find_id e.id xs ≡ some e
      → Distinct xs
      → find_id k (remove_tick e xs) ≡ (if e.id == k then none else find_id k xs)
  unfolding find_id remove_tick
  find_id-remove_tick k e [] h d = cc
  find_id-remove_tick k e (x ∷ xs) h d = elim (Bool-cases (x.id == e.id)) [
    | inl here ↦
        let found : some x ≡ some e = rw here at h in
        let tick : x.tick ≡ e.tick =
          ap (λ (o : Option (Event P)). elim o [ none ↦ x.tick | some y ↦ y.tick ]) found in
        ground (arith, here, tick, d.0)
    | inr there ↦
        let later : find_id e.id xs ≡ some e = rw there at h in
        ground (arith, there, find_id-remove_tick k e xs later d.1)
  ]

  find_id-remove_none :
      (k : ℕ) (e : Event P) (xs : List (Event P))
      → find_id k xs ≡ none
      → find_id k (remove_tick e xs) ≡ none
  unfolding find_id remove_tick
  find_id-remove_none k e [] h = refl
  find_id-remove_none k e (x ∷ xs) h = ground (arith, find_id-remove_none k e xs)

  remove_tick-Distinct :
      (e : Event P) (xs : List (Event P)) → Distinct xs → Distinct (remove_tick e xs)
  unfolding remove_tick
  remove_tick-Distinct e [] d = tt
  remove_tick-Distinct e (x ∷ xs) d =
      ground (arith, d.0, d.1, remove_tick-Distinct e xs d.1, find_id-remove_none x.id e xs d.0)

  queue_add-Agrees :
      (tick : ℕ) (payload : P) (s : Simulator P)
      → Agrees s
      → Agrees (
          queue_add
            (record { id = s.id_seq; tick = tick; payload = payload })
            (record s { id_seq = s.id_seq + 1 }))
  unfolding queue_add
  queue_add-Agrees tick payload s a =
      let e : Event P = record { id = s.id_seq; tick = tick; payload = payload } in
      let fresh : find_id e.id s.by_tick ≡ none = a.given s.id_seq (omega arith) in
      record {
        same = λ k.
            lookup-assign e.id k e s.by_id
            ∙ ap (λ (o : Option (Event P)). if e.id == k then some e else o) (a.same k)
            ∙ sym (find_id-insert_tick k e s.by_tick fresh);
        given = λ k h.
            find_id-insert_tick k e s.by_tick fresh
            ∙ (let other : (e.id == k) ≡ false = ground (arith, h) in
                rw other (a.given k (omega (arith, h))));
        distinct = insert_tick-Distinct e s.by_tick fresh a.distinct;
      }

  remove_event-Agrees :
      (e : Event P) (s : Simulator P)
      → find_id e.id s.by_tick ≡ some e
      → Agrees s
      → Agrees (remove_event e s)
  unfolding remove_event
  remove_event-Agrees e s h a = record {
    same = λ k.
        lookup-erase e.id k s.by_id
        ∙ ap (λ (o : Option (Event P)). if e.id == k then none else o) (a.same k)
        ∙ sym (find_id-remove_tick k e s.by_tick h a.distinct);
    given = λ k l. find_id-remove_none k e s.by_tick (a.given k l);
    distinct = remove_tick-Distinct e s.by_tick a.distinct;
  }

  -- A call removes only an event that is in the queue then.
  abbrev pub Queued : List (Call P) → Simulator P → Type 0
  Queued [] s = Unit
  Queued (add_call tick payload ∷ calls) s = elim (add_event tick payload s) as (λ _. Type 0) [
    | none ↦ Unit
    | some s' ↦ Queued calls s'
  ]
  Queued (remove_call e ∷ calls) s =
      (find_id e.id s.by_tick ≡ some e) × Queued calls (remove_event e s)

  lookup-first : (j : ℕ) (e : Event P) (m : Dict (Event P)) → lookup j ((j, e) ∷ m) ≡ some e
  unfolding lookup
  lookup-first j e m = rw (==_refl j) refl

  -- The queue is told to be empty exactly when there is no event that could be next.
  is_empty-null : (s : Simulator P) → Agrees s → is_empty s ≡ null s.by_tick
  unfolding is_empty find_id
  is_empty-null s a = go s.by_id s.by_tick a.same
    where
      go :
          (m : Dict (Event P)) (xs : List (Event P))
          → ((k : ℕ) → lookup k m ≡ find_id k xs)
          → (null m && null xs) ≡ null xs
      go [] xs h = refl
      go (x ∷ m) (y ∷ xs) h = refl
      go ((j, e) ∷ m) [] h =
          let first : lookup j ((j, e) ∷ m) ≡ some e = lookup-first j e m in
          absurd (let q : some e ≡ none = sym first ∙ h j in cc)

  -- What calls leave, if the program did not end: both indexes hold the same events, and the queue is
  -- told to be empty exactly when no event could be next.
  abbrev pub Consistent : Option (Simulator P) → Type 0
  Consistent none = Unit
  Consistent (some s) = Agrees s × (is_empty s ≡ null s.by_tick)

  continue :
      (o : Option (Simulator P)) (calls : List (Call P))
      → ((s : Simulator P) → o ≡ some s → Agrees s)
      → ((s : Simulator P) → Agrees s → Queued calls s → Consistent (make_calls calls s))
      → elim o as (λ _. Type 0) [ none ↦ Unit | some s ↦ Queued calls s ]
      → Consistent (elim o [ none ↦ none | some s ↦ make_calls calls s ])
  continue none calls agrees next queued = tt
  continue (some s) calls agrees next queued = next s (agrees s refl) queued

  add_event-Agrees :
      (tick : ℕ) (payload : P) (s s' : Simulator P)
      → Agrees s
      → add_event tick payload s ≡ some s'
      → Agrees s'
  unfolding add_event
  add_event-Agrees tick payload s s' a e =
      let q = queue_add-Agrees tick payload s a in
      let added =
        queue_add (record { id = s.id_seq; tick = tick; payload = payload })
          (record s { id_seq = s.id_seq + 1 }) in
      elim (Bool-cases (not (is_empty s) && ltb tick (next_tick s.by_tick))) [
        | inl early ↦ absurd (let x : none ≡ some s' = rw early at e in cc)
        | inr late ↦
            let x : some added ≡ some s' = rw late at e in
            subst Agrees (ap (λ (o : Option (Simulator P)). elim o [ none ↦ added | some y ↦ y ]) x)
              q
      ]

  -- Both indexes hold the same events, each under an id of its own, after any calls that add events
  -- and remove events of the queue, if they held the same before; and the queue is told to be empty
  -- exactly when no event could be next.
  pub make_calls-Consistent :
      (calls : List (Call P)) (s : Simulator P)
      → Agrees s
      → Queued calls s
      → Consistent (make_calls calls s)
  unfolding make_calls
  make_calls-Consistent [] s a q = (a, is_empty-null s a)
  make_calls-Consistent (add_call tick payload ∷ calls) s a q =
      continue (add_event tick payload s) calls (λ s' e. add_event-Agrees tick payload s s' a e)
        (λ s' a' q'. make_calls-Consistent calls s' a' q') q
  make_calls-Consistent (remove_call e ∷ calls) s a q =
      make_calls-Consistent calls (remove_event e s) (remove_event-Agrees e s q.0 a) q.1

  pub new_simulator-Agrees : Agrees new_simulator
  unfolding new_simulator find_id lookup
  new_simulator-Agrees = record { same = λ k. refl; given = λ k h. refl; distinct = tt }
