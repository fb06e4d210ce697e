-- ===== src/Stream/Meets.antt =====
-- Two fresh transports that dial and answer each other.
use open_weaver.Base.{
  ℕ, suc, ◌+◌, ◌^◌, ◌<◌, ◌≡◌, refl, ◌∙◌, ◌≢◌, inl, inr, Bool, true, false, not, Option, none, some,
  List, [], ◌∷◌, ◌++◌, arith, ◌==◌, if◌then◌else◌, ==_iff, ==_refl, Bool-cases, length, take, drop,
  length-append, take_all, take-append_length, drop-append_length,
}
use mathlib.Core.Path.{ap₂}
use open_weaver.Stream.Types.{
  Transport, Env, Keys, Sodium, Effect, sends, did_dial, Message, dial_msg, dialconf_msg, conf_msg,
  init, established, dial_sent, dial_rcvd, stopped,
}
use open_weaver.Stream.Handshake.{
  start_dial, send_dial, did_recv_dial, accept_dial, send_dialconf, derive_keys, did_recv_dialconf,
  accept_dialconf, send_conf, notify_dialled, did_recv_conf, bytes_gt,
}
use open_weaver.Stream.Wire.{encode}
use open_weaver.Stream.Wire.RoundTrip.{swapped, InWidth, decode-encode}
use open_weaver.Stream.Step.{handle, did_recv}

-- The message that was sent last.
pub newest : List Effect → Option Message
newest [] = none
newest (sends m ∷ out) = some m
newest (_ ∷ out) = newest out

-- How often the delegate was told of a dialled connection.
pub count_dials : List Effect → ℕ
count_dials [] = 0
count_dials (did_dial ∷ out) = suc (count_dials out)
count_dials (_ ∷ out) = count_dials out

-- The datagram that one side sent last reaches the other side.
pub link : Env → Transport → Transport → Transport
link e from to = elim (newest from.out) [ none ↦ to | some m ↦ did_recv e (encode m) to ]

did_recv-encode :
    (e : Env) (m : Message) (t : Transport)
    → InWidth m
    → did_recv e (encode m) t ≡ handle e (swapped m) t
unfolding did_recv
did_recv-encode e m t h = rw (decode-encode m h, did_recv)

-- A seal opens with the key pair for which it was made, and is 48 bytes longer than the text.
pub record SealLaws (sodium : Sodium) (pk sk : List ℕ) : Type 0 where
  pub opens : (m : List ℕ) → sodium.box_seal_open (sodium.box_seal m pk) pk sk ≡ some m
  pub grows : (m : List ℕ) → length (sodium.box_seal m pk) ≡ length m + 48

-- Of two ephemeral key pairs either can play the server: the session keys of the two sides are each
-- other's, exchanged.
pub record ExchangeLaws (sodium : Sodium) (pk sk pk' sk' : List ℕ) : Type 0 where
  pub rx : List ℕ
  pub tx : List ℕ
  pub rx' : List ℕ
  pub tx' : List ℕ
  pub server : sodium.server_session_keys pk sk pk' ≡ some (rx, tx)
  pub client : sodium.client_session_keys pk' sk' pk ≡ some (tx, rx)
  pub server' : sodium.server_session_keys pk' sk' pk ≡ some (rx', tx')
  pub client' : sodium.client_session_keys pk sk pk' ≡ some (tx', rx')

-- Exactly one of two different keys of one length is the greater.
bytes_gt-flip :
    (xs ys : List ℕ) → length xs ≡ length ys → xs ≢ ys → bytes_gt ys xs ≡ not (bytes_gt xs ys)
bytes_gt-flip [] [] h ne = absurd (ne refl)
bytes_gt-flip [] (y ∷ ys) h ne = absurd (omega arith)
bytes_gt-flip (x ∷ xs) [] h ne = absurd (omega arith)
bytes_gt-flip (x ∷ xs) (y ∷ ys) h ne = elim (Bool-cases (x == y)) [
  | inl e ↦
      ground (
        arith,
        bytes_gt-flip xs ys (omega arith) (λ p. ne (ap₂ (λ a l. a ∷ l) ((==_iff x y).0 e) p)),
      )
  | inr e ↦ ground arith
]

derive_server :
    (e : Env) (k : Keys) (rx tx : List ℕ)
    → bytes_gt k.ephemeral_pk k.remote_ephemeral_pk ≡ true
    → e.sodium.server_session_keys k.ephemeral_pk k.ephemeral_sk k.remote_ephemeral_pk
      ≡ some (rx, tx)
    → derive_keys e k ≡ some (record k { rx = rx; tx = tx; nonce = e.random_nonce })
unfolding derive_keys
derive_server e k rx tx g h = rw (g, derive_keys) (rw (h, derive_keys))

derive_client :
    (e : Env) (k : Keys) (rx tx : List ℕ)
    → bytes_gt k.ephemeral_pk k.remote_ephemeral_pk ≡ false
    → e.sodium.client_session_keys k.ephemeral_pk k.ephemeral_sk k.remote_ephemeral_pk
      ≡ some (rx, tx)
    → derive_keys e k ≡ some (record k { rx = rx; tx = tx; nonce = e.random_nonce })
unfolding derive_keys
derive_client e k rx tx g h = rw (g, derive_keys) (rw (h, derive_keys))

did_recv_dial-opened :
    (e : Env) (dst : ℕ) (payload pt : List ℕ) (k : Keys)
    → length payload ≡ 112
    → e.sodium.box_seal_open payload k.static_pk k.static_sk ≡ some pt
    → did_recv_dial e 0 dst payload (init k) ≡ accept_dial e dst pt (init k)
unfolding did_recv_dial
did_recv_dial-opened e dst payload pt k h o =
    rw (h) (rw (take_all 112 payload (omega arith)) (rw (o)))

did_recv_dialconf-opened :
    (e : Env) (dst : ℕ) (payload pt : List ℕ) (t : Transport)
    → length payload ≡ 80
    → e.sodium.box_seal_open payload t.keys.static_pk t.keys.static_sk ≡ some pt
    → did_recv_dialconf e t.src_conn_id dst payload (record t { conn_state = dial_sent })
      ≡ accept_dialconf e dst pt (record t { conn_state = dial_sent })
unfolding did_recv_dialconf
did_recv_dialconf-opened e dst payload pt t h o =
    rw (h) (rw (take_all 80 payload (omega arith), ==_refl t.src_conn_id) (rw (o)))

accept_dial-derived :
    (e : Env) (dst : ℕ) (pt : List ℕ) (t : Transport) (k : Keys)
    → derive_keys e (record t.keys {
      remote_static_pk = take 32 pt;
      remote_ephemeral_pk = take 32 (drop 32 pt);
    })
      ≡ some k
    → accept_dial e dst pt t
      ≡ record (send_dialconf e
          (record t { keys = k; dst_conn_id = dst; src_conn_id = e.random_id })) {
            conn_state = dial_rcvd;
          }
unfolding accept_dial send_dialconf
accept_dial-derived e dst pt t k h = rw (h, accept_dial)

accept_dialconf-derived :
    (e : Env) (dst : ℕ) (pt : List ℕ) (t : Transport) (k : Keys)
    → derive_keys e (record t.keys { remote_ephemeral_pk = pt }) ≡ some k
    → accept_dialconf e dst pt t
      ≡ notify_dialled
          (record (send_conf (record t {
            keys = k;
            state_timer = stopped;
            state_timer_interval = 0;
            dst_conn_id = dst;
          })) { conn_state = established })
unfolding accept_dialconf send_conf notify_dialled
accept_dialconf-derived e dst pt t k h = rw (h, accept_dialconf)

module _ (ea eb : Env) (ka kb : Keys) where
  abbrev pub both : Env
  both = record eb { sodium = ea.sodium }

  abbrev pub dialling : Transport
  dialling = start_dial ea (some kb.static_pk) (init ka)

  abbrev pub answered : Transport
  answered = link both dialling (init kb)

  abbrev pub confirmed : Transport
  confirmed = link ea answered dialling

  abbrev pub joined : Transport
  joined = link both confirmed answered

  module _ (sb : SealLaws ea.sodium kb.static_pk kb.static_sk)
      (sa : SealLaws ea.sodium ka.static_pk ka.static_sk)
      (kx : ExchangeLaws ea.sodium ka.ephemeral_pk ka.ephemeral_sk kb.ephemeral_pk kb.ephemeral_sk)
      (la : length ka.static_pk ≡ 32) (le : length ka.ephemeral_pk ≡ 32)
      (lf : length kb.ephemeral_pk ≡ 32) (ne : ka.ephemeral_pk ≢ kb.ephemeral_pk)
      (wa : ea.random_id < 2 ^ 32) (wb : eb.random_id < 2 ^ 32) where
    abbrev a_greater : Bool
    a_greater = bytes_gt ka.ephemeral_pk kb.ephemeral_pk

    -- What the dialling side receives and sends with.
    abbrev a_rx : List ℕ
    a_rx = if a_greater then kx.rx else kx.tx'

    abbrev a_tx : List ℕ
    a_tx = if a_greater then kx.tx else kx.rx'

    -- The keys of the two sides after the exchange.
    abbrev a_keys : Keys
    a_keys = record ka {
      remote_static_pk = kb.static_pk;
      remote_ephemeral_pk = kb.ephemeral_pk;
      rx = a_rx;
      tx = a_tx;
      nonce = ea.random_nonce;
    }

    abbrev b_keys : Keys
    b_keys = record kb {
      remote_static_pk = ka.static_pk;
      remote_ephemeral_pk = ka.ephemeral_pk;
      rx = a_tx;
      tx = a_rx;
      nonce = eb.random_nonce;
    }

    a_derives :
        derive_keys ea
          (record ka { remote_static_pk = kb.static_pk; remote_ephemeral_pk = kb.ephemeral_pk })
        ≡ some a_keys
    a_derives = elim (Bool-cases a_greater) [
      | inl y ↦ rw y (derive_server ea _ kx.rx kx.tx y kx.server)
      | inr n ↦ rw n (derive_client ea _ kx.tx' kx.rx' n kx.client')
    ]

    b_derives :
        derive_keys both
          (record kb { remote_static_pk = ka.static_pk; remote_ephemeral_pk = ka.ephemeral_pk })
        ≡ some b_keys
    b_derives = elim (Bool-cases a_greater) [
      | inl y ↦ rw y (
          derive_client both _ kx.tx kx.rx
            (rw (bytes_gt-flip ka.ephemeral_pk kb.ephemeral_pk (omega arith) ne, y)) kx.client)
      | inr n ↦ rw n (
          derive_server both _ kx.rx' kx.tx'
            (rw (bytes_gt-flip ka.ephemeral_pk kb.ephemeral_pk (omega arith) ne, n)) kx.server')
    ]

    -- The text and the seal of the DIAL.
    abbrev text : List ℕ
    text = ka.static_pk ++ ka.ephemeral_pk

    abbrev seal : List ℕ
    seal = ea.sodium.box_seal text kb.static_pk

    length-text : length text ≡ 64
    length-text = omega (arith, length-append ka.static_pk ka.ephemeral_pk)

    abbrev b_answered : Transport
    b_answered = record (init kb) {
      keys = b_keys;
      dst_conn_id = ea.random_id;
      src_conn_id = eb.random_id;
      conn_state = dial_rcvd;
      out =
          sends (
            dialconf_msg eb.random_id ea.random_id
              (ea.sodium.box_seal kb.ephemeral_pk ka.static_pk))
          ∷ [];
    }

    pt_fields : (take 32 text ≡ ka.static_pk) × (take 32 (drop 32 text) ≡ ka.ephemeral_pk)
    pt_fields = (
      take-append_length ka.static_pk ka.ephemeral_pk 32 la,
      rw (drop-append_length ka.static_pk ka.ephemeral_pk 32 la)
          (take_all 32 ka.ephemeral_pk (omega arith)),
    )

    accept_dial_lem : accept_dial both ea.random_id text (init kb) ≡ b_answered
    unfolding send_dialconf
    accept_dial_lem =
        accept_dial-derived both ea.random_id text (init kb) b_keys
          (rw (pt_fields.0, pt_fields.1) b_derives)

    answered_lem : answered ≡ b_answered
    unfolding link newest start_dial send_dial handle did_recv_dial
    answered_lem =
        did_recv-encode both (dial_msg ea.random_id 0 seal) (init kb) (omega arith)
        ∙ did_recv_dial-opened both ea.random_id seal text kb
            (omega (arith, sb.grows text, length-text)) (sb.opens text)
        ∙ accept_dial_lem

    abbrev a_confirmed : Transport
    a_confirmed = record (init ka) {
      keys = a_keys;
      dialled = true;
      src_conn_id = ea.random_id;
      dst_conn_id = eb.random_id;
      conn_state = established;
      out =
          did_dial
          ∷ sends (conf_msg ea.random_id eb.random_id)
          ∷ sends (dial_msg ea.random_id 0 seal)
          ∷ [];
    }

    confirmed_lem : confirmed ≡ a_confirmed
    unfolding link newest start_dial send_dial handle did_recv_dialconf send_conf notify_dialled
    confirmed_lem = rw answered_lem (
        did_recv-encode ea
          (dialconf_msg eb.random_id ea.random_id (ea.sodium.box_seal kb.ephemeral_pk ka.static_pk))
          dialling (omega arith)
        ∙ did_recv_dialconf-opened ea eb.random_id (ea.sodium.box_seal kb.ephemeral_pk ka.static_pk)
            kb.ephemeral_pk dialling (omega (arith, sa.grows kb.ephemeral_pk))
            (sa.opens kb.ephemeral_pk)
        ∙ accept_dialconf-derived ea eb.random_id kb.ephemeral_pk dialling a_keys a_derives)

    joined_lem : joined ≡ record b_answered { conn_state = established }
    unfolding link newest handle did_recv_conf notify_dialled
    joined_lem =
        rw (confirmed_lem, answered_lem)
          (did_recv-encode both (conf_msg ea.random_id eb.random_id) b_answered (omega arith)
            ∙ ground (arith))

    -- A fresh transport dials a fresh transport with the other's static key, and the three datagrams
    -- DIAL, DIALCONF and CONF arrive as bytes. With libsodium's laws for the keys at hand, keys of 32
    -- bytes, different ephemeral keys and connection ids below 2 ^ 32, both sides are established,
    -- each has the other's connection id as its destination, each receives with the key with which
    -- the other sends, the dialled side knows the static key of the one that dials, and the delegate
    -- is told once, on the side that dialled.
    pub handshake :
        (confirmed.conn_state ≡ established)
        × (joined.conn_state ≡ established)
        × (confirmed.dst_conn_id ≡ joined.src_conn_id)
        × (joined.dst_conn_id ≡ confirmed.src_conn_id)
        × (confirmed.keys.rx ≡ joined.keys.tx)
        × (confirmed.keys.tx ≡ joined.keys.rx)
        × (joined.keys.remote_static_pk ≡ ka.static_pk)
        × (count_dials confirmed.out ≡ 1)
        × (count_dials joined.out ≡ 0)
    unfolding count_dials
    handshake =
        rw (joined_lem, confirmed_lem) (refl, refl, refl, refl, refl, refl, refl, refl, refl)
