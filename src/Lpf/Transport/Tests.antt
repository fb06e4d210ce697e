-- ===== src/Lpf/Transport/Tests.antt =====
-- A transport below and an application that record what they are passed, and messages between them.
use open_weaver.Base.{
  ℕ, ◌≤◌, ◌<◌, ◌≡◌, refl, ◌≢◌, Bool, true, false, some, List, [], ◌∷◌, ◌++◌, map, arith,
}
use open_weaver.Bytes.{concat}
use open_weaver.Lpf.Resume.{ok, too_big, reads_past, and_then, view}
use open_weaver.Lpf.Resume.Pieces.{receive_all}
use open_weaver.Lpf.Store.{StoreThenForwardBuffer, store_recv, new_store}
use open_weaver.Lpf.CutThrough.{cut_recv, new_cut_through}
use open_weaver.Lpf.CutThrough.Stores.{assembling, accepting, cut_received, cut_recv-store_recv}
use open_weaver.Lpf.Transport.{
  LpfTransport, BaseTransport, Delegate, frame, new_lpf, cut_through_send_start, lpf_recv, member,
  on_flush_conf, cut_through_send,
}
use open_weaver.Lpf.Transport.Ids.{
  Balanced, SendOp, run_send-Balanced, cut_through_send_start-fresh, start_op, run_send, apply_send,
  bytes_op, cut_through_send_op, end_op, flush_conf_op, new_lpf-Balanced,
}
use open_weaver.Lpf.Transport.Exhausted.{exhausted}
use open_weaver.Lpf.Transport.Memory.{AllBounded, lpf_recv-AllBounded}
use open_weaver.Lpf.Transport.Frames.{deliver_all, receive_all-frames}
use open_weaver.Lpf.Store.Resumes.{store_recv-append}

-- What was sent, by stream.
abbrev Sent : Type 0
Sent = List (ℕ × List ℕ)

abbrev network : BaseTransport Sent
network = record {
  send = λ bytes id t. (0, t ++ ((id, bytes) ∷ []));
  close = λ reason t. t;
  flush_stream = λ id t. t;
  skip_stream = λ id t. t;
  is_internal = λ t. true;
}

-- A transport whose buffers are full.
abbrev full : BaseTransport Sent
full = record network { send = λ bytes id t. (1, t) }

abbrev record_message : ℕ → List ℕ → List (List ℕ) → Bool × List (List ℕ)
record_message id m d = (true, d ++ (m ∷ []))

abbrev messages : List (List ℕ)
messages = (1 ∷ 2 ∷ 3 ∷ []) ∷ (9 ∷ []) ∷ []

-- The frames of the messages, cut in the second length.
abbrev pieces : List (List ℕ)
pieces =
    (0 ∷ 0 ∷ 0 ∷ 0 ∷ 0 ∷ 0 ∷ 0 ∷ 3 ∷ 1 ∷ 2 ∷ 3 ∷ 0 ∷ 0 ∷ [])
    ∷ (0 ∷ 0 ∷ 0 ∷ 0 ∷ 0 ∷ 1 ∷ [])
    ∷ (9 ∷ [])
    ∷ []

receive_all-frames_example :
    view (receive_all (store_recv record_message) pieces (new_store 3) [])
    ≡ (ok, some (new_store 3), messages)
unfolding deliver_all frame concat
receive_all-frames_example =
    receive_all-frames record_message 3 messages pieces [] (omega arith) (λ m d. refl) same
  where
    same : concat pieces ≡ concat (map frame messages)
    same = refl

store_recv-append_example :
    view (store_recv record_message (new_store 3) ((0 ∷ 0 ∷ 0 ∷ []) ++ (0 ∷ 0 ∷ [])) [])
    ≡ view (
        and_then
          (store_recv record_message (new_store 3) (0 ∷ 0 ∷ 0 ∷ []) [])
          (λ s d. store_recv record_message s (0 ∷ 0 ∷ []) d))
store_recv-append_example =
    store_recv-append record_message (new_store 3) (0 ∷ 0 ∷ 0 ∷ []) (0 ∷ 0 ∷ []) [] (omega arith)

-- The peer's delegate gets a whole message from what is cut through.
abbrev keep : ℕ → List ℕ → List (List ℕ) → List (List ℕ)
keep id m d = d ++ (m ∷ [])

cut_recv-store_recv_example :
    cut_recv (assembling keep) (new_cut_through 12) (frame (7 ∷ 8 ∷ [])) ([], [])
    ≡ cut_received keep (store_recv (accepting keep) (new_store 12) (frame (7 ∷ 8 ∷ [])) [])
cut_recv-store_recv_example = cut_recv-store_recv keep (new_store 12) (frame (7 ∷ 8 ∷ [])) []

cut_recv_test :
    (cut_recv (assembling keep) (new_cut_through 12) (frame (7 ∷ 8 ∷ [])) ([], [])).delegate
    ≡ ([], (7 ∷ 8 ∷ []) ∷ [])
unfolding cut_recv frame
cut_recv_test = refl

-- The frame of an empty message alone delivers nothing; the next byte does.
empty_waits_test : (store_recv record_message (new_store 3) (frame []) []).delegate ≡ []
unfolding store_recv frame
empty_waits_test = refl

empty_later_test :
    (store_recv record_message (new_store 3) (frame [] ++ (0 ∷ [])) []).delegate ≡ [] ∷ []
unfolding store_recv frame
empty_later_test = refl

-- A length above 5000000.
too_big_test :
    (store_recv record_message (new_store 3) (0 ∷ 0 ∷ 0 ∷ 0 ∷ 255 ∷ 0 ∷ 0 ∷ 0 ∷ []) []).res
    ≡ too_big
unfolding store_recv
too_big_test = refl

abbrev refuse : ℕ → List ℕ → List ℕ → Bool × List ℕ
refuse id m d = (false, d)

-- A message of ten bytes comes in, the last one by itself, and is refused.
abbrev after_refusal : StoreThenForwardBuffer
after_refusal =
    let first = 0 ∷ 0 ∷ 0 ∷ 0 ∷ 0 ∷ 0 ∷ 0 ∷ 10 ∷ 1 ∷ 1 ∷ 1 ∷ 1 ∷ 1 ∷ 1 ∷ 1 ∷ 1 ∷ 1 ∷ [] in
    let r = store_recv refuse (new_store 3) first [] in
    (store_recv refuse r.buffer (1 ∷ []) []).buffer

reads_past_test : (store_recv refuse after_refusal (0 ∷ []) []).res ≡ reads_past
unfolding store_recv
reads_past_test = refl

abbrev send_ops : List SendOp
send_ops =
    start_op 5
    ∷ bytes_op 10 (1 ∷ [])
    ∷ cut_through_send_op (2 ∷ [])
    ∷ end_op 10
    ∷ end_op 10
    ∷ flush_conf_op 17
    ∷ []

run_send_test :
    (run_send network send_ops (new_lpf [])).cut_through_reserve_ids
    ≡ 12 ∷ 13 ∷ 14 ∷ 15 ∷ 16 ∷ 17 ∷ 18 ∷ 19 ∷ 11 ∷ 10 ∷ []
unfolding run_send apply_send new_lpf on_flush_conf cut_through_send
run_send_test = refl

run_send-Balanced_example : Balanced (run_send network send_ops (new_lpf []))
run_send-Balanced_example =
    run_send-Balanced network send_ops (new_lpf []) (new_lpf-Balanced {T = Sent} [])

cut_through_send_start-fresh_example :
    let r = cut_through_send_start network 5 (new_lpf []) in
    (10 ≤ r.0) × (r.0 < 20) × (member r.0 [] ≡ false) × (member r.0 r.1.cut_through_used_ids ≡ true)
unfolding new_lpf cut_through_send_start
cut_through_send_start-fresh_example =
    cut_through_send_start-fresh network 5 (new_lpf []) (new_lpf-Balanced {T = Sent} [])
      (first (new_lpf []) refl)
  where
    first :
        (t : LpfTransport Sent)
        → (cut_through_send_start network 5 t).0 ≡ 10
        → (cut_through_send_start network 5 t).0 ≢ 0
    first t e = λ z. absurd (omega (arith, e, z))

exhausted_example :
    ((n : ℕ) (t : LpfTransport Sent) → (cut_through_send_start full n t).0 ≡ 0)
    × ((later : BaseTransport Sent) (n : ℕ)
        → let t =
            run_send full
              (map start_op (1 ∷ 2 ∷ 3 ∷ 4 ∷ 5 ∷ 6 ∷ 7 ∷ 8 ∷ 9 ∷ 10 ∷ []))
              (new_lpf []) in
          cut_through_send_start later n t ≡ (0, t))
exhausted_example =
    exhausted full (1 ∷ 2 ∷ 3 ∷ 4 ∷ 5 ∷ 6 ∷ 7 ∷ 8 ∷ 9 ∷ 10 ∷ []) [] refused_send (omega arith)
  where
    refused_send : (bytes : List ℕ) (id : ℕ) (u : Sent) → (full.send bytes id u).0 ≢ 0
    refused_send bytes id u = λ e. absurd (omega (arith, e))

abbrev application : Delegate (List (List ℕ))
application = record {
  did_dial = λ d. d;
  did_recv = λ m d. (0, d ++ (m ∷ []));
  did_send = λ m d. d;
  did_close = λ reason d. d;
  cut_through_recv_start = λ id n d. d;
  cut_through_recv_bytes = λ id m d. (0, d);
  cut_through_recv_end = λ id d. d;
  cut_through_recv_flush = λ id d. d;
  cut_through_recv_skip = λ id d. d;
}

lpf_recv_test :
    (lpf_recv network application true (frame (4 ∷ 5 ∷ [])) 3 (new_lpf []) []).1 ≡ (4 ∷ 5 ∷ []) ∷ []
unfolding lpf_recv new_lpf frame
lpf_recv_test = refl

lpf_recv-AllBounded_example :
    let r = (lpf_recv network application true (frame (4 ∷ 5 ∷ [])) 3 (new_lpf []) []).0 in
    (r.0 ≢ 2) × AllBounded r.1
unfolding new_lpf
lpf_recv-AllBounded_example =
    lpf_recv-AllBounded network application (λ m d. refl) (λ i m d. refl) true (frame (4 ∷ 5 ∷ []))
      3 (new_lpf []) [] (tt, tt)
