-- ===== src/Stream/Send/Queueing.antt =====
-- Queueing bytes puts them at the end of their stream, and keeps what the queues hold.
use open_weaver.Base.{
  ℕ, ◌≡◌, ◌==◌, add64, length, true, if◌then◌else◌, [], ◌∷◌, ◌++◌, Option, none, some, List, ltb,
  sub64,
}
use open_weaver.Dict.{Dict, lookup}
use open_weaver.Stream.Types.{Transport, SendStream, established, new_send_stream}
use open_weaver.Stream.Send.{
  SendResult, max_queued, has_id, queued, queue_overflow, not_established,
}

abbrev pub stream_of : Option SendStream → SendStream
stream_of o = elim o as (λ _. SendStream) [ none ↦ new_send_stream | some s ↦ s ]

-- The stream that `send` finds.
abbrev pub send_stream : ℕ → Transport → SendStream
send_stream id t = stream_of (lookup id t.send_streams)

-- The result of `send`, by the state and by how much of the stream is queued and not acknowledged.
abbrev pub result_of : ℕ → Transport → SendResult
result_of id t =
    let s = send_stream id t in
    elim t.conn_state as (λ _. SendResult) [
      | established ↦
          if ltb max_queued (sub64 s.queue_offset s.acked_offset) then queue_overflow else queued
      | _ ↦ not_established
    ]

-- From `t` to `u` the buffer joins the queue of a stream, at the stream's end, the stream is one of those
-- that have data to send, the pacing timer runs, and the other streams are as they were.
pub record Appended (id : ℕ) (bytes : List ℕ) (t u : Transport) : Type 0 where
  pub queue :
      (send_stream id u).data_queue
      ≡ (send_stream id t).data_queue
        ++ (record {
          bytes = bytes;
          sent_offset = 0;
          stream_offset = (send_stream id t).queue_offset;
        }
            ∷ [])
  pub ends : (send_stream id u).queue_offset ≡ add64 (send_stream id t).queue_offset (length bytes)
  pub next : (send_stream id u).next_item ≡ (send_stream id t).next_item
  pub others :
      (j : ℕ)
      → lookup j u.send_streams
        ≡ (if id == j then some (send_stream id u) else lookup j t.send_streams)
  pub to_send :
      u.send_queue
      ≡ (if has_id id t.send_queue_ids then t.send_queue else t.send_queue ++ (id ∷ []))
  pub known : has_id id u.send_queue_ids ≡ true
  pub paced : u.is_pacing_timer_active ≡ true

-- From `t` to `u` no stream's queue changes.
pub record Unqueued (id : ℕ) (t u : Transport) : Type 0 where
  pub queue : (send_stream id u).data_queue ≡ (send_stream id t).data_queue
  pub ends : (send_stream id u).queue_offset ≡ (send_stream id t).queue_offset
  pub next : (send_stream id u).next_item ≡ (send_stream id t).next_item
  pub others :
      (j : ℕ)
      → lookup j u.send_streams
        ≡ (if id == j then some (send_stream id u) else lookup j t.send_streams)
  pub to_send : u.send_queue ≡ t.send_queue

-- What `send` does to the queues, by its result.
abbrev pub Outcome : ℕ → List ℕ → Transport → Transport × SendResult → Type 0
Outcome id bytes t (u, queued) = Appended id bytes t u
Outcome id bytes t (u, queue_overflow) = Unqueued id t u
Outcome id bytes t (u, not_established) = u ≡ t
