-- ===== src/Stream/Send/Tests.antt =====
-- Sending and receiving at concrete values.
use open_weaver.Base.{ℕ, refl, inl, false, [], ◌∷◌, ◌++◌, arith}
use open_weaver.Dict.{lookup, assign}
use open_weaver.Stream.Types.{
  Transport, DataItem, Message, new_send_stream, init, established, data_msg, sends,
}
use open_weaver.Stream.Wire.{encode}
use open_weaver.Stream.Step.{did_recv}
use open_weaver.Stream.Send.{send_fragments, on_pacing_timer}
use open_weaver.Stream.Send.Sound.{Holds, AllSound, send_fragments-AllSound}
use open_weaver.Stream.Send.Holding.{Sender, put-queues}
use open_weaver.Stream.Send.Sender.{on_pacing_timer-Sender}
use open_weaver.Stream.Receive.Slice.{slice}
use open_weaver.Stream.Receive.InOrder.{Continues}
use open_weaver.Stream.EndToEnd.{did_recv-WasSent}
use open_weaver.Stream.Tests.{env, keys_of, fill}

-- Every byte of every stream is 1.
abbrev ones : ℕ → ℕ → ℕ
ones id o = 1

abbrev three_ones : DataItem
three_ones = record { bytes = fill 3 1; sent_offset = 0; stream_offset = 0 }

three_ones-Holds : Holds (ones 5) three_ones
unfolding slice
three_ones-Holds = record { text = refl; fits = omega arith }

abbrev with_nonce : Transport
with_nonce = record (init (record (keys_of 10) { nonce = fill 12 7 })) {
  conn_state = established;
  src_conn_id = 12;
  dst_conn_id = 11;
}

send_fragments-AllSound_example :
    AllSound ones (send_fragments 4 env 5 0 0 new_send_stream three_ones with_nonce).transport.out
send_fragments-AllSound_example =
    send_fragments-AllSound ones env 5 refl 4 0 new_send_stream three_ones with_nonce refl
      three_ones-Holds (omega arith) tt

with_nonce-Sender : Sender ones with_nonce
unfolding lookup
with_nonce-Sender = record { sound = tt; nonce = refl; queues = λ id s h. absurd (ground arith) }

-- Three bytes are queued on stream 5.
abbrev queued_up : Transport
queued_up = record with_nonce {
  send_streams =
      (5, record new_send_stream { data_queue = three_ones ∷ []; queue_offset = 3 }) ∷ [];
  send_queue = 5 ∷ [];
}

queued_up-Sender : Sender ones queued_up
unfolding lookup assign
queued_up-Sender = record {
  sound = tt;
  nonce = refl;
  queues =
      put-queues ones 5 (record new_send_stream { data_queue = three_ones ∷ []; queue_offset = 3 })
        [] (three_ones-Holds, omega arith, tt) with_nonce-Sender.queues;
}

on_pacing_timer-Sender_example : Sender ones (on_pacing_timer env queued_up)
on_pacing_timer-Sender_example = on_pacing_timer-Sender ones env refl queued_up tt queued_up-Sender

-- A message with the three bytes, and a transport that has sent it.
abbrev message : Message
message = data_msg false 12 11 0 5 0 3 (fill 3 1 ++ fill 28 0)

abbrev has_sent : Transport
has_sent = record with_nonce { out = sends message ∷ [] }

has_sent-Sender : Sender ones has_sent
unfolding lookup slice
has_sent-Sender = record {
  sound = (record { trailer = fill 28 0; text = refl; tail = refl; fits = omega arith }, tt);
  nonce = refl;
  queues = λ id s h. absurd (ground arith);
}

abbrev receiver : Transport
receiver = record (init (keys_of 20)) {
  conn_state = established;
  src_conn_id = 11;
  dst_conn_id = 12;
}

did_recv-WasSent_example :
    Continues (ones 5) env 5 (λ o b. refl) 0 receiver (did_recv env (encode message) receiver)
unfolding lookup
did_recv-WasSent_example =
    did_recv-WasSent ones env (λ id o b. refl) false 12 11 0 5 0 3 (fill 3 1 ++ fill 28 0) has_sent
      receiver has_sent-Sender (inl refl)
      (omega arith, omega arith, omega arith, omega arith, omega arith, omega arith) refl refl refl
      tt
