-- ===== src/Stream/Tests.antt =====
-- Runs of the transport, and its theorems at concrete values.
use open_weaver.Base.{
  ℕ, zero, suc, ◌+◌, ◌-◌, ◌*◌, ◌/◌, ◌≡◌, refl, ap, true, false, Option, none, some, List, [], ◌∷◌,
  ◌++◌, arith, ltb, length, take, length-append, take-append_length,
}
use open_weaver.Dict.{lookup}
use open_weaver.Stream.Types.{
  DataItem, new_send_stream, Transport, Env, Keys, Sodium, Floats, ack_msg, init, established,
  listen, dial_sent, closing, stopped, close_msg, closeconf_msg, new_recv_stream, RecvStream,
}
use open_weaver.Stream.Handshake.{start_dial}
use open_weaver.Stream.Close.{close}
use open_weaver.Stream.Wire.{encode, decode}
use open_weaver.Stream.Wire.RoundTrip.{decode-encode}
use open_weaver.Stream.Step.{did_recv, step, app_closes, fire, state_timer}
use open_weaver.Stream.Conn.Machine.{Follows, closing_call, step-Follows}
use open_weaver.Stream.Meets.{SealLaws, ExchangeLaws, handshake, confirmed, joined, count_dials}
use open_weaver.Stream.Retries.{
  fire_all, dials_sent, closes_sent, closings, has_closed, dial_gives_up, close_gives_up,
  did_recv-close,
}
use open_weaver.Stream.Receive.{did_recv_data}
use open_weaver.Stream.Receive.Slice.{slice, AllCarry, delivered}
use open_weaver.Stream.Receive.Again.{did_recv_data-duplicate}
use open_weaver.Stream.Send.{send_fragments}
use open_weaver.Stream.Send.Fragments.{Covers, send_fragments-whole}
use open_weaver.Stream.Receive.Progress.{Reads, did_recv_data-forward}
use open_weaver.Stream.Receive.InOrder.{Continues, did_recv_data-Continues}

abbrev pub fill : ℕ → ℕ → List ℕ
fill zero x = []
fill (suc n) x = x ∷ fill n x

-- A seal that only appends 48 bytes, and session keys that do not depend on the keys.
abbrev plain_open : List ℕ → List ℕ → List ℕ → Option (List ℕ)
plain_open text pk sk = some (take (length text - 48) text)

abbrev plain_sodium : Sodium
plain_sodium = record {
  box_seal = λ m pk. m ++ fill 48 0;
  box_seal_open = plain_open;
  server_session_keys = λ pk sk other. some (1 ∷ [], 2 ∷ []);
  client_session_keys = λ pk sk other. some (2 ∷ [], 1 ∷ []);
}

abbrev floats : Floats
floats = record {
  scale_fast = λ w. w * 6 / 10;
  scale_slow = λ w. w * 3 / 4;
  cubic_k = λ w. 0;
  below_window = λ b w. ltb (b * 10) (w * 8);
}

abbrev env_with_id : ℕ → Env
env_with_id id = record {
  now = 5000;
  random_id = id;
  random_nonce = fill 12 7;
  unset_tag = fill 16 0;
  accepts = λ id offset bytes. true;
  sodium = plain_sodium;
  floats = floats;
}

abbrev pub env : Env
env = env_with_id 11

abbrev pub keys_of : ℕ → Keys
keys_of x = record {
  static_sk = fill 32 x;
  static_pk = fill 32 (x + 1);
  remote_static_pk = [];
  ephemeral_sk = fill 32 (x + 2);
  ephemeral_pk = fill 32 (x + 3);
  remote_ephemeral_pk = [];
  rx = [];
  tx = [];
  nonce = [];
}

plain_seal : (pk sk : List ℕ) → SealLaws plain_sodium pk sk
plain_seal pk sk = record {
  opens = λ m.
      ap some
        (take-append_length m (fill 48 0) _ (let n = length-append m (fill 48 0) in omega arith));
  grows = λ m. length-append m (fill 48 0);
}

plain_exchange : (pk sk pk' sk' : List ℕ) → ExchangeLaws plain_sodium pk sk pk' sk'
plain_exchange pk sk pk' sk' = record {
  rx = 1 ∷ [];
  tx = 2 ∷ [];
  rx' = 1 ∷ [];
  tx' = 2 ∷ [];
  server = refl;
  client = refl;
  server' = refl;
  client' = refl;
}

abbrev head_is : List ℕ → ℕ
head_is [] = 0
head_is (x ∷ xs) = x

handshake_example :
    let a = confirmed env (env_with_id 12) (keys_of 10) (keys_of 20) in
    let b = joined env (env_with_id 12) (keys_of 10) (keys_of 20) in
    (a.conn_state ≡ established)
    × (b.conn_state ≡ established)
    × (a.dst_conn_id ≡ b.src_conn_id)
    × (b.dst_conn_id ≡ a.src_conn_id)
    × (a.keys.rx ≡ b.keys.tx)
    × (a.keys.tx ≡ b.keys.rx)
    × (b.keys.remote_static_pk ≡ (keys_of 10).static_pk)
    × (count_dials a.out ≡ 1)
    × (count_dials b.out ≡ 0)
handshake_example =
    handshake env (env_with_id 12) (keys_of 10) (keys_of 20) (plain_seal _ _) (plain_seal _ _)
      (plain_exchange _ _ _ _) refl refl refl
      (λ p. absurd (let q : 13 ≡ 23 = ap head_is p in omega arith)) (omega arith) (omega arith)

decode-encode_example :
    decode (encode (ack_msg 3 4 9 (2 ∷ 3 ∷ 2 ∷ []))) ≡ some (ack_msg 4 3 9 (2 ∷ 3 ∷ 2 ∷ []))
decode-encode_example = decode-encode (ack_msg 3 4 9 (2 ∷ 3 ∷ 2 ∷ [])) (
  omega arith,
  omega arith,
  omega arith,
  omega arith,
  (omega arith, (omega arith, (omega arith, tt))),
)

-- Stream 5 holds the bytes 3 and 4, which came early.
abbrev early : RecvStream
early = record new_recv_stream {
  recv_packets = (3, record { recv_time = 4000; offset = 3; length = 2; packet = 3 ∷ 4 ∷ [] }) ∷ [];
}

abbrev connected : Transport
connected = record (init (keys_of 10)) {
  conn_state = established;
  src_conn_id = 11;
  dst_conn_id = 12;
  recv_streams = (5, early) ∷ [];
}

abbrev first_bytes : List ℕ
first_bytes = 0 ∷ 1 ∷ 2 ∷ []

early-AllCarry : AllCarry (λ o. o) early.recv_packets
unfolding slice
early-AllCarry = (record { bytes = refl; fits = omega arith }, tt)

did_recv_data-Continues_example :
    Continues
      (λ o. o)
      env
      5
      (λ o b. refl)
      0
      connected
      (did_recv_data env false 11 12 77 5 0 3 (first_bytes ++ fill 28 0) connected)
unfolding slice lookup
did_recv_data-Continues_example =
    did_recv_data-Continues (λ o. o) env 5 (λ o b. refl) false 77 0 3 (first_bytes ++ fill 28 0)
      (fill 28 0) connected refl early-AllCarry refl refl (omega arith)

step-Follows_example :
    Follows closing_call established (step env (app_closes 1) connected).conn_state
step-Follows_example = step-Follows env (app_closes 1) connected

dial_gives_up_example :
    let u =
      fire_all
        (env ∷ env ∷ env ∷ env ∷ env ∷ env ∷ [])
        (start_dial env none (record connected { conn_state = listen })) in
    let v = fire env state_timer u in
    (u.conn_state ≡ dial_sent)
    × (closings u.out ≡ 0)
    × (v.conn_state ≡ listen)
    × (v.state_timer ≡ stopped)
    × (dials_sent v.out ≡ 0 + 7)
    × (closings v.out ≡ 0 + 1)
    × (has_closed v.out ≡ true)
dial_gives_up_example =
    dial_gives_up env none connected (env ∷ env ∷ env ∷ env ∷ env ∷ env ∷ []) env refl

close_gives_up_example :
    let u = fire_all (env ∷ env ∷ env ∷ []) (close 3 connected) in
    let v = fire env state_timer u in
    (u.conn_state ≡ closing)
    × (closings u.out ≡ 0)
    × (v.conn_state ≡ listen)
    × (v.state_timer ≡ stopped)
    × (closes_sent v.out ≡ 0 + 4)
    × (closings v.out ≡ 0 + 1)
    × (has_closed v.out ≡ true)
close_gives_up_example = close_gives_up 3 connected (env ∷ env ∷ env ∷ []) env refl

did_recv-close_example :
    (did_recv env (encode (close_msg 12 11 1)) connected ≡ connected)
    × (did_recv env (encode (closeconf_msg 12 11)) connected ≡ connected)
did_recv-close_example = did_recv-close env 12 11 1 connected

abbrev fresh_stream : Transport
fresh_stream = record connected { recv_streams = [] }

did_recv_data-duplicate_example :
    let again =
      λ (u : Transport). did_recv_data env true 11 12 77 5 0 3 (first_bytes ++ fill 28 0) u in
    delivered 5 (again (again fresh_stream)).out
    ≡ delivered 5 fresh_stream.out ++ (first_bytes ++ first_bytes)
unfolding lookup
did_recv_data-duplicate_example =
    did_recv_data-duplicate env 5 (λ o b. refl) 77 first_bytes (fill 28 0) fresh_stream refl
      (omega arith) (omega arith) refl refl

abbrev ten_bytes : DataItem
ten_bytes = record { bytes = fill 10 1; sent_offset = 4; stream_offset = 20 }

send_fragments-whole_example :
    Covers 5 4 ten_bytes connected (send_fragments 11 env 5 0 4 new_send_stream ten_bytes connected)
send_fragments-whole_example =
    send_fragments-whole env 5 0 new_send_stream ten_bytes connected (omega arith) (omega arith)

did_recv_data-forward_example :
    Reads
      (λ o. o)
      5
      0
      (0 + 3)
      connected
      (did_recv_data env false 11 12 77 5 0 3 (first_bytes ++ fill 28 0) connected)
unfolding slice lookup
did_recv_data-forward_example =
    did_recv_data-forward (λ o. o) env 5 (λ o b. refl) false 77 0 3 (first_bytes ++ fill 28 0)
      (fill 28 0) connected refl early-AllCarry refl refl (omega arith) refl (omega arith)
      (omega arith)
