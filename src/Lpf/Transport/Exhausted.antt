-- ===== src/Lpf/Transport/Exhausted.antt =====
-- What starts that fail do to the ids of the streams.
use open_weaver.Base.{
  ℕ, suc, ◌+◌, ◌≤◌, ◌≡◌, refl, sym, ap, ◌∙◌, ◌≢◌, inl, inr, false, List, [], ◌∷◌, map, arith, ◌==◌,
  length, drop, drop-drop, drop_all,
}
use open_weaver.Lpf.Transport.{
  LpfTransport, BaseTransport, cut_through_send_start, length_frame, start_on, new_lpf, reserve_ids,
}
use open_weaver.Lpf.Transport.Ids.{
  List-cases, run_send, ==-false, start_none, apply_send, start_op, start_some,
}

module _ {T : Type 0} (base : BaseTransport T) where
  -- Each start takes the first free id, whether or not its bytes are sent.
  start-reserve :
      (n : ℕ) (t : LpfTransport T)
      → (cut_through_send_start base n t).1.cut_through_reserve_ids
        ≡ drop 1 t.cut_through_reserve_ids
  unfolding start_on
  start-reserve n t = elim (List-cases t.cut_through_reserve_ids) [
    | inl e ↦
        ap (λ (r : ℕ × LpfTransport T). r.1.cut_through_reserve_ids) (start_none base n t e)
        ∙ e
        ∙ sym (ap (drop 1) e)
    | inr (id, ids, e) ↦
        ap (λ (r : ℕ × LpfTransport T). r.1.cut_through_reserve_ids) (start_some base n t id ids e)
        ∙ sym (ap (drop 1) e)
  ]

  starts-reserve :
      (lengths : List ℕ) (t : LpfTransport T)
      → (run_send base (map start_op lengths) t).cut_through_reserve_ids
        ≡ drop (length lengths) t.cut_through_reserve_ids
  unfolding run_send apply_send
  starts-reserve [] t = refl
  starts-reserve (n ∷ lengths) t =
      starts-reserve lengths (cut_through_send_start base n t).1
      ∙ ap (drop (length lengths)) (start-reserve n t)
      ∙ drop-drop (length lengths) 1 t.cut_through_reserve_ids
      ∙ ap (λ k. drop k t.cut_through_reserve_ids)
          (let e : 1 + length lengths ≡ suc (length lengths) = omega arith in e)

  failed_start :
      (ids : List ℕ) (n : ℕ) (t : LpfTransport T)
      → ((bytes : List ℕ) (id : ℕ) (u : T) → (base.send bytes id u).0 ≢ 0)
      → (start_on base ids n t).0 ≡ 0
  unfolding start_on
  failed_start [] n t h = refl
  failed_start (id ∷ ids) n t h =
      let e : ((base.send (length_frame n) id t.transport).0 == 0) ≡ false =
        ==-false (base.send (length_frame n) id t.transport).0
          (h (length_frame n) id t.transport) in
      rw e refl

-- While the transport below refuses to send, every start returns 0, yet each keeps the id that it
-- took: after ten such starts on a new transport no start returns an id any more, whatever the
-- transport below then does.
pub exhausted :
    {T : Type 0} (base : BaseTransport T) (lengths : List ℕ) (u : T)
    → ((bytes : List ℕ) (id : ℕ) (u : T) → (base.send bytes id u).0 ≢ 0)
    → 10 ≤ length lengths
    → ((n : ℕ) (t : LpfTransport T) → (cut_through_send_start base n t).0 ≡ 0)
      × ((later : BaseTransport T) (n : ℕ)
          → let t = run_send base (map start_op lengths) (new_lpf u) in
            cut_through_send_start later n t ≡ (0, t))
unfolding new_lpf cut_through_send_start
exhausted base lengths u h ten = (
  λ n t. failed_start base t.cut_through_reserve_ids n t h,
  λ later n.
      start_none later n (run_send base (map start_op lengths) (new_lpf u))
        (starts-reserve base lengths (new_lpf u) ∙ drop_all (length lengths) reserve_ids ten),
)
