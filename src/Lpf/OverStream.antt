-- ===== src/Lpf/OverStream.antt =====
-- lpf's storing buffer as the delegate of a stream: the DATA messages of one stream that arrive, in any
-- order and repeated, and the pieces that `did_recv` of LpfTransport.hpp is called with.
mod Tests
use mathlib.Core.List.{append_assoc, append-nil}
use open_weaver.Base.{
  ℕ, zero, suc, ◌+◌, ◌-◌, ◌*◌, ◌/◌, ◌%◌, ◌^◌, ◌≤◌, ◌<◌, min, max, ◌≡◌, refl, sym, ap, subst, ◌∙◌,
  ◌≢◌, ◌↔◌, ◌⊎◌, inl, inr, Bool, true, false, not, ◌&&◌, ◌||◌, Option, none, some, List, [], ◌∷◌,
  ◌++◌, map, arith, ltb, leb, ◌==◌, if◌then◌else◌, ltb→lt, lt→ltb, leb→le, ==_iff, ==_refl,
  Bool-cases, Option-cases, add64, sub64, length, take, drop, length-append, length-take,
  length-drop, take-append-drop, All, take_all, take-append_length, drop-append_length,
}
use open_weaver.Bytes.{concat, concat-append}
use open_weaver.Dict.{lookup}
use open_weaver.Stream.Types.{
  Transport, Env, Effect, Message, delivers, data_msg, established, RecvStream, new_recv_stream,
}
use open_weaver.Stream.Wire.{encode}
use open_weaver.Stream.Wire.RoundTrip.{InWidth}
use open_weaver.Stream.Step.{did_recv}
use open_weaver.Stream.Send.Holding.{Sender}
use open_weaver.Stream.Receive.Slice.{AllCarry, slice, delivered, slice-append, length-slice}
use open_weaver.Stream.Receive.InOrder.{Continues, found}
use open_weaver.Stream.EndToEnd.{WasSent, did_recv-WasSent}
use open_weaver.Lpf.Resume.{Received, ok, view}
use open_weaver.Lpf.Resume.Pieces.{receive_all}
use open_weaver.Lpf.Store.{StoreThenForwardBuffer, store_recv, new_store}
use open_weaver.Lpf.Transport.{frame}
use open_weaver.Lpf.Transport.Frames.{Fits, deliver_all, receive_all-frames}

-- The pieces that a stream gave to its delegate, the oldest first.
unfoldable pub pieces : ℕ → List Effect → List (List ℕ)
pieces id [] = []
pieces id (delivers bytes j ∷ out) = pieces id out ++ (if j == id then bytes ∷ [] else [])
pieces id (_ ∷ out) = pieces id out

concat-pieces : (id : ℕ) (out : List Effect) → concat (pieces id out) ≡ delivered id out
unfolding concat pieces delivered
concat-pieces id [] = refl
concat-pieces id (delivers bytes j ∷ out) = elim (Bool-cases (j == id)) [
  | inl e ↦ rw e (
      concat-append (pieces id out) (bytes ∷ [])
      ∙ ap (λ l. l ++ (bytes ++ [])) (concat-pieces id out)
      ∙ ap (λ l. delivered id out ++ l) (append-nil bytes))
  | inr e ↦ rw e (concat-append (pieces id out) [] ∙ ap (λ l. l ++ []) (concat-pieces id out))
]
concat-pieces id (_ ∷ out) = concat-pieces id out

-- The stream that the transport keeps under the id, or a new one.
abbrev pub stream_of : ℕ → Transport → RecvStream
stream_of id t = elim (lookup id t.recv_streams) as (λ _. RecvStream) [
  | none ↦ new_recv_stream
  | some s ↦ s
]

module _ (f : ℕ → ℕ → ℕ) (id : ℕ) (a : Transport) where
  -- `c` is reached from `b` by DATA messages that `a` sent on the stream, as long as the stream is not
  -- gone, under a clock and a delegate that may change but accepts all.
  pub data Arrivals (b : Transport) : Transport → Type 0 where
    start : Arrivals b b
    arrive :
        (c : Transport)
        → Arrivals b c
        → (e : Env) (accepts : (id o : ℕ) (bytes : List ℕ) → e.accepts id o bytes ≡ true)
        → (fin : Bool) (src dst n offset len : ℕ) (payload : List ℕ)
        → WasSent (data_msg fin src dst n id offset len payload) a.out
        → InWidth (data_msg fin src dst n id offset len payload)
        → c.conn_state ≡ established
        → c.dst_conn_id ≡ src
        → c.src_conn_id ≡ dst
        → (delivered id c.out ≡ []) ⊎ (lookup id c.recv_streams ≢ none)
        → Arrivals b (did_recv e (encode (data_msg fin src dst n id offset len payload)) c)

  -- The first `got` bytes of the stream were given to the delegate.
  pub record Reads (c : Transport) : Type 0 where
    pub got : ℕ
    pub order : delivered id c.out ≡ slice (f id) 0 got
    pub rest :
        (lookup id c.recv_streams ≡ none)
        ⊎ (((stream_of id c).read_offset ≡ got) × AllCarry (f id) (stream_of id c).recv_packets)

  -- The stream was not read from yet.
  pub record Unread (b : Transport) : Type 0 where
    pub nothing : delivered id b.out ≡ []
    pub at_start : (stream_of id b).read_offset ≡ 0
    pub carries : AllCarry (f id) (stream_of id b).recv_packets

  stream_of-some :
      (c : Transport) (s : RecvStream) → lookup id c.recv_streams ≡ some s → stream_of id c ≡ s
  stream_of-some c s e =
      ap (λ o. elim o as (λ _. RecvStream) [ none ↦ new_recv_stream | some s ↦ s ]) e

  stream_of-none :
      (c : Transport) → lookup id c.recv_streams ≡ none → stream_of id c ≡ new_recv_stream
  stream_of-none c e =
      ap (λ o. elim o as (λ _. RecvStream) [ none ↦ new_recv_stream | some s ↦ s ]) e

  slice-empty : (n : ℕ) → slice (f id) 0 n ≡ [] → n ≡ 0
  slice-empty n e = omega (arith, length-slice (f id) 0 n, ap length e)

  alive_place :
      (c : Transport) (h : Reads c)
      → (delivered id c.out ≡ []) ⊎ (lookup id c.recv_streams ≢ none)
      → ((stream_of id c).read_offset ≡ h.got) × AllCarry (f id) (stream_of id c).recv_packets
  alive_place c h alive = go h.rest alive
    where
      go :
          (lookup id c.recv_streams ≡ none)
            ⊎ (((stream_of id c).read_offset ≡ h.got)
                × AllCarry (f id) (stream_of id c).recv_packets)
          → (delivered id c.out ≡ []) ⊎ (lookup id c.recv_streams ≢ none)
          → ((stream_of id c).read_offset ≡ h.got) × AllCarry (f id) (stream_of id c).recv_packets
      go (inr r) alive = r
      go (inl gone) (inr there) = absurd (there gone)
      go (inl gone) (inl empty) =
          let z : h.got ≡ 0 = slice-empty h.got (sym h.order ∙ empty) in
          rw (z, stream_of-none c gone) (refl, tt)

  arrive-Reads :
      (c : Transport) (e : Env)
      (accepts : (id o : ℕ) (bytes : List ℕ) → e.accepts id o bytes ≡ true) (h : Reads c)
      (u : Transport)
      → (stream_of id c).read_offset ≡ h.got
      → Continues (f id) e id (accepts id) (stream_of id c).read_offset c u
      → Reads u
  arrive-Reads c e accepts h u at k = record {
    got = h.got + k.got;
    order =
        k.order
        ∙ ap (λ l. l ++ slice (f id) (stream_of id c).read_offset k.got) h.order
        ∙ ap (λ o. slice (f id) 0 h.got ++ slice (f id) o k.got)
            (at ∙ (let z : h.got ≡ 0 + h.got = omega arith in z))
        ∙ slice-append (f id) 0 h.got k.got;
    rest = go k.rest;
  }
    where
      go :
          (lookup id u.recv_streams ≡ none)
            ⊎ ((s : RecvStream) × (lookup id u.recv_streams ≡ some s)
                × (s.read_offset ≡ (stream_of id c).read_offset + k.got)
                × AllCarry (f id) s.recv_packets)
          → (lookup id u.recv_streams ≡ none)
            ⊎ (((stream_of id u).read_offset ≡ h.got + k.got)
                × AllCarry (f id) (stream_of id u).recv_packets)
      go (inl gone) = inl gone
      go (inr (s, there, place, carries)) =
          inr (rw (stream_of-some u s there) (place ∙ ap (λ o. o + k.got) at, carries))

  arrivals-Reads : (b c : Transport) → Sender f a → Unread b → Arrivals b c → Reads c
  unfolding slice
  arrivals-Reads b c sender fresh start = record {
    got = 0;
    order = fresh.nothing;
    rest = inr (fresh.at_start, fresh.carries);
  }
  arrivals-Reads b c sender fresh
        (arrive c' before e accepts fin src dst n offset len payload sent w est from to alive) =
      let h = arrivals-Reads b c' sender fresh before in
      let now = alive_place c' h alive in
      arrive-Reads c' e accepts h
        (did_recv e (encode (data_msg fin src dst n id offset len payload)) c') now.0
        (did_recv-WasSent f e accepts fin src dst n id offset len payload a c' sender sent w est
          from to now.1)

  -- Messages of 1 to 5000000 bytes, framed one behind the other, are the first bytes of a stream of a
  -- sender `a`. DATA messages that it sent on the stream arrive at a transport that has read nothing
  -- of the stream, in any order, late and repeated, as long as the stream is not gone. When as many
  -- bytes as the frames have were given to the delegate, a storing buffer that gets them piece by
  -- piece has passed on just these messages, in order.
  pub arrivals-frames :
      {D : Type 0} (deliver : ℕ → List ℕ → D → Bool × D) (ms : List (List ℕ)) (d : D)
      (b c : Transport)
      → Sender f a
      → Unread b
      → Arrivals b c
      → All Fits ms
      → ((m : List ℕ) (d : D) → (deliver id m d).0 ≡ true)
      → slice (f id) 0 (length (concat (map frame ms))) ≡ concat (map frame ms)
      → length (delivered id c.out) ≡ length (concat (map frame ms))
      → view (receive_all (store_recv deliver) (pieces id c.out) (new_store id) d)
        ≡ (ok, some (new_store id), deliver_all deliver id ms d)
  arrivals-frames deliver ms d b c sender fresh arrivals fits accepts frames whole =
      let h = arrivals-Reads b c sender fresh arrivals in
      let n : h.got ≡ length (concat (map frame ms)) =
        sym (length-slice (f id) 0 h.got) ∙ sym (ap length h.order) ∙ whole in
      receive_all-frames deliver id ms (pieces id c.out) d fits accepts
        (concat-pieces id c.out ∙ h.order ∙ ap (slice (f id) 0) n ∙ frames)
