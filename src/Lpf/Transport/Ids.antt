-- ===== src/Lpf/Transport/Ids.antt =====
-- The stream ids that messages are cut through on.
use open_weaver.Base.{
  ℕ, ◌+◌, ◌≤◌, ◌<◌, ◌≡◌, refl, sym, ap, subst, ◌∙◌, ◌≢◌, ◌⊎◌, inl, inr, true, false, ◌&&◌, List, [],
  ◌∷◌, ◌++◌, arith, ltb, leb, ◌==◌, if◌then◌else◌, Bool-cases, length,
}
use open_weaver.Lpf.Transport.{
  LpfTransport, BaseTransport, cut_through_send_end, send_framed, member, cut_through_send_start,
  insert, remove, cut_through_send, cut_through_send_bytes, cut_through_send_flush,
  cut_through_send_skip, on_flush_conf, length_frame, start_on, new_lpf,
}

unfoldable pub count : ℕ → List ℕ → ℕ
count k [] = 0
count k (x ∷ xs) = (if k == x then 1 else 0) + count k xs

count-append : (k : ℕ) (xs ys : List ℕ) → count k (xs ++ ys) ≡ count k xs + count k ys
unfolding count
count-append k [] ys = omega arith
count-append k (x ∷ xs) ys = omega (arith, count-append k xs ys)

count_cons : (k x : ℕ) (xs : List ℕ) → count k (x ∷ xs) ≡ (if k == x then 1 else 0) + count k xs
unfolding count
count_cons k x xs = refl

pub List-cases : (xs : List ℕ) → (xs ≡ []) ⊎ ((y : ℕ) × (ys : List ℕ) × (xs ≡ y ∷ ys))
List-cases [] = inl refl
List-cases (y ∷ ys) = inr (y, ys, refl)

member-count : (x : ℕ) (xs : List ℕ) → count x xs ≡ 0 → member x xs ≡ false
unfolding count member
member-count x [] h = refl
member-count x (y ∷ xs) h = ground (arith, member-count x xs)

member-insert : (x : ℕ) (xs : List ℕ) → member x (insert x xs) ≡ true
unfolding insert member
member-insert x xs = ground arith

pub ==-false : (x : ℕ) → x ≢ 0 → (x == 0) ≡ false
==-false x h = ground arith

count-insert :
    (k x : ℕ) (xs : List ℕ)
    → count x xs ≡ 0
    → count k (insert x xs) ≡ (if k == x then 1 else 0) + count k xs
unfolding count insert
count-insert k x xs h = rw (member-count x xs h) refl

member-remove :
    (k x : ℕ) (xs : List ℕ)
    → member x xs ≡ true
    → count k (remove x xs) + (if k == x then 1 else 0) ≡ count k xs
unfolding count member remove
member-remove k x [] h = cc
member-remove k x (y ∷ xs) h = ground (arith, member-remove k x xs)

-- Every id from 10 to 19 is in one of the two places, once, and no other id is in any.
abbrev pub Balanced : {T : Type 0} → LpfTransport T → Type 0
Balanced t =
    (k : ℕ)
    → count k t.cut_through_reserve_ids + count k t.cut_through_used_ids
      ≡ (if leb 10 k && ltb k 20 then 1 else 0)

pub new_lpf-Balanced : {T : Type 0} (u : T) → Balanced (new_lpf u)
unfolding new_lpf count
new_lpf-Balanced u k = ground arith

pub data SendOp : Type 0 where
  send_op cut_through_send_op : List ℕ → SendOp
  start_op : (length : ℕ) → SendOp
  bytes_op : (id : ℕ) → List ℕ → SendOp
  end_op flush_op skip_op flush_conf_op : (id : ℕ) → SendOp

module _ {T : Type 0} (base : BaseTransport T) where
  unfoldable pub apply_send : SendOp → LpfTransport T → LpfTransport T
  apply_send (send_op m) t = (send_framed base m t).1
  apply_send (cut_through_send_op m) t = (cut_through_send base m t).1
  apply_send (start_op n) t = (cut_through_send_start base n t).1
  apply_send (bytes_op id bytes) t = (cut_through_send_bytes base id bytes t).1
  apply_send (end_op id) t = cut_through_send_end base id t
  apply_send (flush_op id) t = cut_through_send_flush base id t
  apply_send (skip_op id) t = cut_through_send_skip base id t
  apply_send (flush_conf_op id) t = on_flush_conf base id t

  unfoldable pub run_send : List SendOp → LpfTransport T → LpfTransport T
  run_send [] t = t
  run_send (op ∷ ops) t = run_send ops (apply_send op t)

  pub start_none :
      (n : ℕ) (t : LpfTransport T)
      → t.cut_through_reserve_ids ≡ []
      → cut_through_send_start base n t ≡ (0, t)
  unfolding cut_through_send_start start_on
  start_none n t e = ap (λ l. start_on base l n t) e

  pub start_some :
      (n : ℕ) (t : LpfTransport T) (id : ℕ) (ids : List ℕ)
      → t.cut_through_reserve_ids ≡ id ∷ ids
      → cut_through_send_start base n t ≡ start_on base (id ∷ ids) n t
  unfolding cut_through_send_start
  start_some n t id ids e = ap (λ l. start_on base l n t) e

  first_free :
      (t : LpfTransport T) (id : ℕ) (ids : List ℕ)
      → Balanced t
      → t.cut_through_reserve_ids ≡ id ∷ ids
      → (10 ≤ id) × (id < 20) × (count id t.cut_through_used_ids ≡ 0)
  unfolding count
  first_free t id ids h e =
      let c : count id t.cut_through_reserve_ids ≡ 1 + count id ids =
        ap (count id) e ∙ ground arith in
      ground (arith, h id, c)

  start-Balanced :
      (n : ℕ) (t : LpfTransport T) → Balanced t → Balanced (cut_through_send_start base n t).1
  unfolding start_on
  start-Balanced n t h = elim (List-cases t.cut_through_reserve_ids) [
    | inl e ↦ rw (start_none n t e) h
    | inr (id, ids, e) ↦
        rw (start_some n t id ids e) (started-Balanced n id ids t e (first_free t id ids h e).2 h)
  ]
    where
      started-Balanced :
          (n id : ℕ) (ids : List ℕ) (t : LpfTransport T)
          → t.cut_through_reserve_ids ≡ id ∷ ids
          → count id t.cut_through_used_ids ≡ 0
          → Balanced t
          → Balanced (start_on base (id ∷ ids) n t).1
      started-Balanced n id ids t e z h k =
          let c : count k t.cut_through_reserve_ids ≡ (if k == id then 1 else 0) + count k ids =
            ap (count k) e ∙ count_cons k id ids in
          omega (arith, h k, c, count-insert k id t.cut_through_used_ids z)

  end-Balanced :
      (id : ℕ) (t : LpfTransport T) → Balanced t → Balanced (cut_through_send_end base id t)
  unfolding cut_through_send_end count
  end-Balanced id t h k = elim (Bool-cases (member id t.cut_through_used_ids)) [
    | inl e ↦ rw e (
        omega (
          arith,
          h k,
          count-append k t.cut_through_reserve_ids (id ∷ []),
          member-remove k id t.cut_through_used_ids e,
        ))
    | inr e ↦ rw e (h k)
  ]

  cut_through_send-Balanced :
      (m : List ℕ) (t : LpfTransport T) → Balanced t → Balanced (cut_through_send base m t).1
  unfolding cut_through_send send_framed cut_through_send_bytes
  cut_through_send-Balanced m t h =
      let s = cut_through_send_start base (length m) t in
      let b = start-Balanced (length m) t h in
      elim (Bool-cases (s.0 == 0)) [
        | inl e ↦ rw e b
        | inr e ↦ elim (Bool-cases ((base.send m s.0 s.1.transport).0 == 0)) [
          | inl f ↦ rw (e, f) (end-Balanced s.0 (cut_through_send_bytes base s.0 m s.1).1 b)
          | inr f ↦ rw (e, f) b
        ]
      ]

  -- From any state in which every id from 10 to 19 is either free or in use, and once, the operations of
  -- the sender lead to such a state again, in any order, whatever ids they name and whatever the
  -- transport below answers.
  pub run_send-Balanced :
      (ops : List SendOp) (t : LpfTransport T) → Balanced t → Balanced (run_send ops t)
  unfolding run_send apply_send send_framed cut_through_send_bytes cut_through_send_flush
      cut_through_send_skip on_flush_conf
  run_send-Balanced [] t h = h
  run_send-Balanced (send_op m ∷ ops) t h = run_send-Balanced ops (send_framed base m t).1 h
  run_send-Balanced (cut_through_send_op m ∷ ops) t h =
      run_send-Balanced ops (cut_through_send base m t).1 (cut_through_send-Balanced m t h)
  run_send-Balanced (start_op n ∷ ops) t h =
      run_send-Balanced ops (cut_through_send_start base n t).1 (start-Balanced n t h)
  run_send-Balanced (bytes_op id bytes ∷ ops) t h =
      run_send-Balanced ops (cut_through_send_bytes base id bytes t).1 h
  run_send-Balanced (end_op id ∷ ops) t h =
      run_send-Balanced ops (cut_through_send_end base id t) (end-Balanced id t h)
  run_send-Balanced (flush_op id ∷ ops) t h =
      run_send-Balanced ops (cut_through_send_flush base id t) h
  run_send-Balanced (skip_op id ∷ ops) t h =
      run_send-Balanced ops (cut_through_send_skip base id t) h
  run_send-Balanced (flush_conf_op id ∷ ops) t h =
      run_send-Balanced ops (on_flush_conf base id t) (end-Balanced id t h)

  started_fresh :
      (n id : ℕ) (ids : List ℕ) (t : LpfTransport T)
      → (start_on base (id ∷ ids) n t).0 ≢ 0
      → ((start_on base (id ∷ ids) n t).0 ≡ id)
        × (member id (start_on base (id ∷ ids) n t).1.cut_through_used_ids ≡ true)
  unfolding start_on
  started_fresh n id ids t z =
      elim (Bool-cases ((base.send (length_frame n) id t.transport).0 == 0)) [
        | inl e ↦ rw e (refl, member-insert id t.cut_through_used_ids)
        | inr e ↦ absurd (z (rw e refl))
      ]

  -- In such a state a start that returns an id returns one of the ten, which was not in use and is
  -- now.
  pub cut_through_send_start-fresh :
      (n : ℕ) (t : LpfTransport T)
      → Balanced t
      → (cut_through_send_start base n t).0 ≢ 0
      → let r = cut_through_send_start base n t in
        (10 ≤ r.0)
        × (r.0 < 20)
        × (member r.0 t.cut_through_used_ids ≡ false)
        × (member r.0 r.1.cut_through_used_ids ≡ true)
  cut_through_send_start-fresh n t h = elim (List-cases t.cut_through_reserve_ids) [
    | inl e ↦ λ z. absurd (z (ap (λ (r : ℕ × LpfTransport T). r.0) (start_none n t e)))
    | inr (id, ids, e) ↦
        let f = first_free t id ids h e in
        subst
          (λ (r : ℕ × LpfTransport T).
            r.0 ≢ 0
            → (10 ≤ r.0)
              × (r.0 < 20)
              × (member r.0 t.cut_through_used_ids ≡ false)
              × (member r.0 r.1.cut_through_used_ids ≡ true))
          (sym (start_some n t id ids e))
          (λ z.
            let s = started_fresh n id ids t z in
            let l : 10 ≤ (start_on base (id ∷ ids) n t).0 = omega (arith, s.0, f.0) in
            let u : (start_on base (id ∷ ids) n t).0 < 20 = omega (arith, s.0, f.1) in
            (
              l,
              u,
              ap (λ k. member k t.cut_through_used_ids) s.0
                  ∙ member-count id t.cut_through_used_ids f.2,
              ap (λ k. member k (start_on base (id ∷ ids) n t).1.cut_through_used_ids) s.0 ∙ s.1,
            ))
  ]
