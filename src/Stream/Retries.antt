-- ===== src/Stream/Retries.antt =====
-- What happens to a connection whose peer does not answer, and to a CLOSE that arrives.
use open_weaver.Base.{
  ℕ, suc, ◌+◌, ◌≡◌, refl, Bool, true, false, Option, List, [], ◌∷◌, arith, length,
}
use open_weaver.Bytes.{le}
use open_weaver.Stream.Types.{
  Transport, Env, Effect, sends, closes, dial_msg, close_msg, closeconf_msg, listen, closing,
  stopped, reset, dial_sent,
}
use open_weaver.Stream.Handshake.{start_dial, send_dial, on_dial_timer, reset_and_close}
use open_weaver.Stream.Close.{close, send_close, on_close_timer}
use open_weaver.Stream.Wire.{encode, decode, parse}
use open_weaver.Stream.Step.{did_recv, fire, fire_state, state_timer}

-- The state timer fires again and again, and nothing else happens.
pub fire_all : List Env → Transport → Transport
fire_all [] t = t
fire_all (e ∷ es) t = fire_all es (fire e state_timer t)

abbrev pub dials_sent : List Effect → ℕ
dials_sent [] = 0
dials_sent (sends (dial_msg src dst payload) ∷ out) = suc (dials_sent out)
dials_sent (_ ∷ out) = dials_sent out

abbrev pub closes_sent : List Effect → ℕ
closes_sent [] = 0
closes_sent (sends (close_msg src dst reason) ∷ out) = suc (closes_sent out)
closes_sent (_ ∷ out) = closes_sent out

-- How often the base transport was closed.
abbrev pub closings : List Effect → ℕ
closings [] = 0
closings (closes reason ∷ out) = suc (closings out)
closings (_ ∷ out) = closings out

-- The last thing that was done is to close the base transport.
abbrev pub has_closed : List Effect → Bool
has_closed (closes reason ∷ out) = true
has_closed _ = false

-- A dial that is not answered sends seven DIALs in all. After six time-outs the transport is in DialSent
-- and has not closed the base transport once since the dial; at the seventh it is back in the state Listen
-- with its timer stopped, and closes the base transport, once, as the last thing it does.
pub dial_gives_up :
    (e : Env) (remote : Option (List ℕ)) (t : Transport) (es : List Env) (last : Env)
    → length es ≡ 6
    → let u = fire_all es (start_dial e remote (record t { conn_state = listen })) in
      let v = fire last state_timer u in
      (u.conn_state ≡ dial_sent)
      × (closings u.out ≡ closings t.out)
      × (v.conn_state ≡ listen)
      × (v.state_timer ≡ stopped)
      × (dials_sent v.out ≡ dials_sent t.out + 7)
      × (closings v.out ≡ closings t.out + 1)
      × (has_closed v.out ≡ true)
unfolding fire_all fire fire_state start_dial send_dial on_dial_timer reset_and_close reset
dial_gives_up e remote t (e1 ∷ e2 ∷ e3 ∷ e4 ∷ e5 ∷ e6 ∷ []) last h =
    (refl, refl, refl, refl, omega arith, omega arith, refl)
dial_gives_up e remote t es last h = absurd (omega arith)

-- A close that is not answered sends four CLOSEs in all. After three time-outs the transport is in Closing
-- and has not closed the base transport once since the call; at the fourth it is back in the state Listen
-- with its timer stopped, and closes the base transport, once, as the last thing it does.
pub close_gives_up :
    (reason : ℕ) (t : Transport) (es : List Env) (last : Env)
    → length es ≡ 3
    → let u = fire_all es (close reason t) in
      let v = fire last state_timer u in
      (u.conn_state ≡ closing)
      × (closings u.out ≡ closings t.out)
      × (v.conn_state ≡ listen)
      × (v.state_timer ≡ stopped)
      × (closes_sent v.out ≡ closes_sent t.out + 4)
      × (closings v.out ≡ closings t.out + 1)
      × (has_closed v.out ≡ true)
unfolding fire_all fire fire_state close send_close on_close_timer reset_and_close reset
close_gives_up reason t (e1 ∷ e2 ∷ e3 ∷ []) last h =
    (refl, refl, refl, refl, omega arith, omega arith, refl)
close_gives_up reason t es last h = absurd (omega arith)

-- A CLOSE and a CLOSECONF that arrive as datagrams change nothing in a transport, whatever its state
-- and whatever they carry: the switch of `did_recv` has no case for them.
pub did_recv-close :
    (e : Env) (src dst reason : ℕ) (t : Transport)
    → (did_recv e (encode (close_msg src dst reason)) t ≡ t)
      × (did_recv e (encode (closeconf_msg src dst)) t ≡ t)
unfolding did_recv encode decode parse le
did_recv-close e src dst reason t = (refl, refl)
