-- ===== src/Stream/Flight/Tests.antt =====
-- The accounts at concrete values.
use open_weaver.Base.{
  ◌+◌, ◌%◌, ◌^◌, ◌≡◌, refl, ◌≢◌, ◌⊎◌, false, none, [], ◌∷◌, arith, if◌then◌else◌, true,
}
use open_weaver.Dict.{lookup, total}
use open_weaver.Stream.Types.{
  Transport, DataItem, SendStream, new_send_stream, init, established, send,
}
use open_weaver.Stream.Tests.{env, keys_of}
use open_weaver.Stream.Send.{on_pacing_timer, resolve, find_item}
use open_weaver.Stream.Ack.{
  on_tlp_timer, did_recv_ack, ack_all_ranges, ack_range, ack_packets, ack_packet, ack_stream,
  loses_place, merge_outstanding, drop_acked, hand_back, grow_window, between, overruns,
  note_largest,
}
use open_weaver.Stream.Flight.{packet_length, Accounted, Accounts}
use open_weaver.Stream.Flight.Sending.{on_pacing_timer-Accounts}
use open_weaver.Stream.Flight.Losses.{on_tlp_timer-Accounts}
use open_weaver.Stream.Skip.{flush_stream}
use open_weaver.Stream.Flight.Flush.{flush_stream-shortfall, stream_length}
use open_weaver.Stream.Ack.Exact.{ack_walk-lookup}
use open_weaver.AckRanges.Seen.{seen}
use open_weaver.Stream.Flight.Acks.{did_recv_ack-Accounts, ack_walk}

-- Stream 5 has sent three bytes, and behind them stand an empty buffer that is next and one byte more.
abbrev emptied : SendStream
emptied = record new_send_stream {
  data_queue =
      record { bytes = 1 ∷ 1 ∷ 1 ∷ []; sent_offset = 3; stream_offset = 0 }
      ∷ record { bytes = []; sent_offset = 0; stream_offset = 3 }
      ∷ record { bytes = 1 ∷ []; sent_offset = 0; stream_offset = 3 }
      ∷ [];
  queue_offset = 4;
  sent_offset = 3;
  next_item = 1;
}

loses_place_test : loses_place emptied (ack_stream 0 3 emptied) ≡ true
unfolding loses_place ack_stream merge_outstanding drop_acked
loses_place_test = refl

keeps_place_test : loses_place emptied (ack_stream 0 2 emptied) ≡ false
unfolding loses_place ack_stream merge_outstanding drop_acked
keeps_place_test = refl

-- Stream 5 has three bytes queued.
abbrev three_bytes : DataItem
three_bytes = record { bytes = 7 ∷ 8 ∷ 9 ∷ []; sent_offset = 0; stream_offset = 0 }

abbrev queued_stream : SendStream
queued_stream = record new_send_stream {
  state = send;
  data_queue = three_bytes ∷ [];
  queue_offset = 3;
}

abbrev ready_to_send : Transport
ready_to_send = record (init (keys_of 10)) {
  conn_state = established;
  src_conn_id = 11;
  dst_conn_id = 12;
  send_streams = (5, queued_stream) ∷ [];
  send_queue = 5 ∷ [];
  send_queue_ids = 5 ∷ [];
}

-- The same when they are in flight, in packet 0.
abbrev in_flight : Transport
in_flight = record ready_to_send {
  send_streams =
      (
        5,
        record queued_stream {
          sent_offset = 3;
          next_item = 1;
          bytes_in_flight = 3;
          data_queue = record three_bytes { sent_offset = 3 } ∷ [];
        },
      )
      ∷ [];
  send_queue = [];
  send_queue_ids = [];
  last_sent_packet = 0;
  sent_packets =
      (0, record { sent_time = 4900; stream = 5; data_item = 0; offset = 0; length = 3 }) ∷ [];
  bytes_in_flight = 3;
}

ready_to_send-Accounted : Accounted 0 ready_to_send
unfolding total
ready_to_send-Accounted = record {
  number = refl;
  bound = omega arith;
  lost_fit = tt;
  kept = λ z. record { below = tt; sorted = tt; fit = tt; balance = refl };
}

in_flight-Accounted : Accounted 1 in_flight
unfolding total
in_flight-Accounted = record {
  number = refl;
  bound = omega arith;
  lost_fit = tt;
  kept = λ z. record {
    below = (omega arith, tt);
    sorted = (tt, tt);
    fit = (omega arith, tt);
    balance = refl;
  };
}

on_pacing_timer-Accounts_example : Accounts 0 ready_to_send (on_pacing_timer env ready_to_send)
on_pacing_timer-Accounts_example =
    on_pacing_timer-Accounts env 0 ready_to_send ready_to_send-Accounted

on_tlp_timer-Accounts_example :
    Accounts 1 in_flight (on_tlp_timer env in_flight) ⊎ Accounted 0 (on_tlp_timer env in_flight)
on_tlp_timer-Accounts_example =
    on_tlp_timer-Accounts env 1 in_flight (omega arith) in_flight-Accounted

walks : (ack_walk env 0 (1 ∷ []) in_flight).1 ≡ false
unfolding lookup note_largest ack_all_ranges ack_range overruns between ack_packets resolve
    find_item ack_packet ack_stream merge_outstanding drop_acked hand_back grow_window
walks = refl

did_recv_ack-Accounts_example : Accounts 1 in_flight (did_recv_ack env 11 12 0 (1 ∷ []) in_flight)
did_recv_ack-Accounts_example =
    did_recv_ack-Accounts env 11 12 0 (1 ∷ []) 1 in_flight (omega arith) in_flight-Accounted walks

ack_walk-lookup_example :
    lookup 0 (ack_walk env 0 (1 ∷ []) in_flight).0.sent_packets
    ≡ (if seen false (0 + 1) (1 ∷ []) 0 then none else lookup 0 in_flight.sent_packets)
ack_walk-lookup_example =
    ack_walk-lookup env 0 (1 ∷ []) 0 in_flight (omega arith) (omega arith, omega arith, tt) walks

-- The packet of stream 5 is lost.
abbrev one_lost : Transport
one_lost = record in_flight {
  lost_packets = in_flight.sent_packets;
  sent_packets = [];
  bytes_in_flight = 0;
}

one_lost-Accounted : Accounted 1 one_lost
unfolding total
one_lost-Accounted = record {
  number = refl;
  bound = omega arith;
  lost_fit = (omega arith, tt);
  kept = λ z. record { below = tt; sorted = tt; fit = tt; balance = refl };
}

flush_stream-shortfall_example :
    let u = flush_stream 5 one_lost in
    ((u.bytes_in_flight + stream_length 5 one_lost.lost_packets) % 2 ^ 64
      ≡ total packet_length u.sent_packets % 2 ^ 64)
    × (stream_length 5 one_lost.lost_packets ≡ 0
        → u.bytes_in_flight ≡ total packet_length u.sent_packets % 2 ^ 64)
    × (stream_length 5 one_lost.lost_packets % 2 ^ 64 ≢ 0
        → u.bytes_in_flight ≢ total packet_length u.sent_packets % 2 ^ 64)
flush_stream-shortfall_example =
    flush_stream-shortfall 5 1 one_lost (omega arith) one_lost-Accounted
