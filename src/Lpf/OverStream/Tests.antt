-- ===== src/Lpf/OverStream/Tests.antt =====
-- A framed message of two bytes on the stream 5, in two DATA messages that arrive in the wrong order.
use open_weaver.Base.{
  ℕ, ◌≡◌, refl, inl, inr, Bool, true, false, some, List, [], ◌∷◌, ◌++◌, arith, ltb, ◌==◌,
  if◌then◌else◌,
}
use open_weaver.Bytes.{concat}
use open_weaver.Dict.{lookup, assign, try_emplace}
use open_weaver.Stream.Types.{Transport, Message, init, established, data_msg, sends}
use open_weaver.Stream.Wire.{encode, decode}
use open_weaver.Stream.Step.{did_recv, handle}
use open_weaver.Stream.Send.Holding.{Sender}
use open_weaver.Stream.Receive.Slice.{slice, delivered}
use open_weaver.Stream.Tests.{env, keys_of, fill}
use open_weaver.Lpf.Resume.{ok, view}
use open_weaver.Lpf.Resume.Pieces.{receive_all}
use open_weaver.Lpf.Transport.{frame}
use open_weaver.Lpf.Transport.Frames.{deliver_all}
use open_weaver.Lpf.OverStream.{
  Arrivals, Unread, pieces, arrivals-frames, arrive, store_recv, new_store, start,
}
use open_weaver.Lpf.Store.{store_recv, new_store}
use open_weaver.Stream.Receive.{
  did_recv_data, recv_on_stream, note_fin, queue_packet, note_packet, check_finish, deliver_now,
  drain, check_read,
}

-- The frame is seven zeros, 2, 7 and 8.
abbrev text : ℕ → ℕ → ℕ
text id o = if ltb o 7 then 0 else if o == 7 then 2 else if o == 8 then 7 else 8

abbrev first_part : Message
first_part = data_msg false 12 11 0 5 0 4 (fill 4 0 ++ fill 28 0)

abbrev second_part : Message
second_part = data_msg false 12 11 1 5 4 6 ((0 ∷ 0 ∷ 0 ∷ 2 ∷ 7 ∷ 8 ∷ []) ++ fill 28 0)

abbrev has_sent : Transport
has_sent = record (init (record (keys_of 10) { nonce = fill 12 7 })) {
  conn_state = established;
  src_conn_id = 12;
  dst_conn_id = 11;
  out = sends second_part ∷ sends first_part ∷ [];
}

has_sent-Sender : Sender text has_sent
unfolding lookup slice
has_sent-Sender = record {
  sound = (
    record { trailer = fill 28 0; text = refl; tail = refl; fits = omega arith },
    (record { trailer = fill 28 0; text = refl; tail = refl; fits = omega arith }, tt),
  );
  nonce = refl;
  queues = λ id s h. absurd (ground arith);
}

abbrev receiver : Transport
receiver = record (init (keys_of 20)) {
  conn_state = established;
  src_conn_id = 11;
  dst_conn_id = 12;
}

receiver-Unread : Unread text 5 has_sent receiver
unfolding lookup delivered
receiver-Unread = record { nothing = refl; at_start = refl; carries = tt }

abbrev after_second : Transport
after_second = did_recv env (encode second_part) receiver

abbrev after_both : Transport
after_both = did_recv env (encode first_part) after_second

second_arrives : Arrivals text 5 has_sent receiver after_second
unfolding delivered
second_arrives =
    arrive receiver start env (λ id o b. refl) false 12 11 1 4 6
      ((0 ∷ 0 ∷ 0 ∷ 2 ∷ 7 ∷ 8 ∷ []) ++ fill 28 0) (inl refl)
      (omega arith, omega arith, omega arith, omega arith, omega arith, omega arith) refl refl refl
      (inl refl)

both_arrive : Arrivals text 5 has_sent receiver after_both
unfolding delivered did_recv encode decode handle did_recv_data recv_on_stream lookup note_fin
    queue_packet note_packet
both_arrive =
    arrive after_second second_arrives env (λ id o b. refl) false 12 11 0 0 4
      (fill 4 0 ++ fill 28 0) (inr (inl refl))
      (omega arith, omega arith, omega arith, omega arith, omega arith, omega arith) refl refl refl
      (inl refl)

abbrev record_message : ℕ → List ℕ → List (List ℕ) → Bool × List (List ℕ)
record_message id m d = (true, d ++ (m ∷ []))

arrivals-frames_example :
    view (receive_all (store_recv record_message) (pieces 5 after_both.out) (new_store 5) [])
    ≡ (ok, some (new_store 5), (7 ∷ 8 ∷ []) ∷ [])
unfolding deliver_all frame concat slice delivered did_recv encode decode handle did_recv_data
    recv_on_stream lookup note_fin queue_packet note_packet assign try_emplace check_finish
    deliver_now drain check_read
arrivals-frames_example =
    arrivals-frames text 5 has_sent record_message ((7 ∷ 8 ∷ []) ∷ []) [] receiver after_both
      has_sent-Sender receiver-Unread both_arrive (omega arith) (λ m d. refl) refl refl
