-- ===== src/Stream/EndToEnd.antt =====
-- From the queue of one transport to the application of another, over a network that loses, repeats and
-- reorders datagrams.
use open_weaver.Base.{ℕ, ◌≡◌, refl, sym, subst, ◌⊎◌, inl, inr, Bool, true, List, [], ◌∷◌}
use open_weaver.Stream.Types.{Transport, Env, Effect, Message, sends, data_msg, established}
use open_weaver.Stream.Wire.{encode}
use open_weaver.Stream.Wire.RoundTrip.{InWidth, decode-encode}
use open_weaver.Stream.Step.{did_recv, handle}
use open_weaver.Stream.Send.Sound.{IsSound, AllSound}
use open_weaver.Stream.Send.Holding.{Sender}
use open_weaver.Stream.Receive.{did_recv_data}
use open_weaver.Stream.Receive.Slice.{AllCarry}
use open_weaver.Stream.Receive.InOrder.{Continues, found, did_recv_data-Continues}

-- A message was sent.
abbrev pub WasSent : Message → List Effect → Type 0
WasSent m [] = ⊥
WasSent m (sends m' ∷ out) = (m ≡ m') ⊎ WasSent m out
WasSent m (_ ∷ out) = WasSent m out

WasSent-IsSound :
    (f : ℕ → ℕ → ℕ) (m : Message) (out : List Effect) → AllSound f out → WasSent m out → IsSound f m
WasSent-IsSound f m [] a w = absurd w
WasSent-IsSound f m (sends m' ∷ out) a (inl same) = subst (λ x. IsSound f x) (sym same) a.0
WasSent-IsSound f m (sends m' ∷ out) a (inr earlier) = WasSent-IsSound f m out a.1 earlier
WasSent-IsSound f m (_ ∷ out) a w = WasSent-IsSound f m out a w

did_recv-data :
    (e : Env) (fin : Bool) (src dst n id offset len : ℕ) (payload : List ℕ) (t : Transport)
    → InWidth (data_msg fin src dst n id offset len payload)
    → did_recv e (encode (data_msg fin src dst n id offset len payload)) t
      ≡ did_recv_data e fin dst src n id offset len payload t
unfolding did_recv handle
did_recv-data e fin src dst n id offset len payload t w =
    rw (decode-encode (data_msg fin src dst n id offset len payload) w, did_recv) refl

module _ (f : ℕ → ℕ → ℕ) (e : Env)
    (accepts : (id o : ℕ) (bytes : List ℕ) → e.accepts id o bytes ≡ true) where
  -- What one side queued is what the other side's application gets: let `f` give the bytes of each stream,
  -- as the queues and the DATA messages of a sender `a` hold them (`Sender`, which `on_pacing_timer`
  -- keeps), and let `b` be an established transport with the connection ids of the message, whose
  -- delegate accepts all and which holds of stream `id` only packets of these bytes. Whichever DATA
  -- message that `a` sent on the stream arrives at `b` as a datagram, however late and however often, the
  -- delegate gets the bytes of the stream from where it was read up to, up to some place, and the stream
  -- is read up to there and still holds only packets of these bytes, or is gone.
  pub did_recv-WasSent :
      (fin : Bool) (src dst n id offset len : ℕ) (payload : List ℕ) (a b : Transport)
      → Sender f a
      → WasSent (data_msg fin src dst n id offset len payload) a.out
      → InWidth (data_msg fin src dst n id offset len payload)
      → b.conn_state ≡ established
      → b.dst_conn_id ≡ src
      → b.src_conn_id ≡ dst
      → AllCarry (f id) (found (f id) e id (accepts id) b).recv_packets
      → Continues
          (f id)
          e
          id
          (accepts id)
          (found (f id) e id (accepts id) b).read_offset
          b
          (did_recv e (encode (data_msg fin src dst n id offset len payload)) b)
  did_recv-WasSent fin src dst n id offset len payload a b sender sent w est from to c =
      let m =
        WasSent-IsSound f (data_msg fin src dst n id offset len payload) a.out sender.sound sent in
      let arrives = did_recv-data e fin src dst n id offset len payload b w in
      let h =
        did_recv_data-Continues (f id) e id (accepts id) fin n offset len payload m.trailer b est c
          m.text m.tail m.fits in
      let goal =
        Continues (f id) e id (accepts id) (found (f id) e id (accepts id) b).read_offset b in
      subst goal (sym arrives) (
        subst (λ i. goal (did_recv_data e fin i src n id offset len payload b)) to
          (subst (λ i. goal (did_recv_data e fin b.src_conn_id i n id offset len payload b)) from
            h))
