-- ===== src/Lpf/Transport/Memory.antt =====
-- What a peer can make the buffers of a transport hold.
use open_weaver.Base.{
  ℕ, ◌+◌, ◌-◌, ◌*◌, ◌≤◌, ◌<◌, ◌≡◌, ◌≢◌, true, false, sub64, take, inl, inr, Bool, ◌&&◌, Option,
  none, some, List, [], ◌∷◌, ◌++◌, arith, ltb, leb, ◌==◌, Bool-cases, length, length-append, All,
  true, sub64,
}
use open_weaver.Dict.{Dict, lookup, assign}
use open_weaver.Lpf.Resume.{Result, Step, ok, too_big, refused, reads_past}
use open_weaver.Lpf.Resume.Pieces.{StepKeeps, resume-keeps, IsWithin}
use open_weaver.Lpf.Store.{
  StoreThenForwardBuffer, max_message, store_recv, new_store, store_step, store_length,
  store_message,
}
use open_weaver.Lpf.Transport.{
  LpfTransport, BaseTransport, Delegate, lpf_recv, recv_cut_through, recv_stored, CutThroughBuffer,
  did_recv_stf_message, recv_result, cut_through_delegate,
}
use open_weaver.Lpf.CutThrough.{
  CutThroughBuffer, new_cut_through, cut_recv, CutThroughDelegate, cut_step, cut_length,
  cut_message,
}

-- An array that is allocated has at most 5000000 bytes, and no more are written than it has; without one,
-- less than the 8 bytes of a length have come.
abbrev pub Bounded : StoreThenForwardBuffer → Type 0
Bounded s = elim s.buf [
  | none ↦ s.size < 8
  | some m ↦ (length m ≡ s.size) × (s.size ≤ s.length) × (s.length ≤ max_message)
]

-- A message that is cut through has at most 5000000 bytes and has not come in beyond its end; between two
-- messages, less than the 8 bytes of a length have come.
abbrev pub Within : CutThroughBuffer → Type 0
Within s = elim s.cut_through [
  | false ↦ s.size < 8
  | true ↦ (s.size ≤ s.length) × (s.length ≤ max_message)
]

module _ {D : Type 0} (deliver : ℕ → List ℕ → D → Bool × D)
    (accepts : (id : ℕ) (m : List ℕ) (d : D) → (deliver id m d).0 ≡ true) where
  abbrev stepping : StoreThenForwardBuffer → List ℕ → D → Step StoreThenForwardBuffer D
  stepping = store_step deliver

  step-Bounded :
      (buf : Option (List ℕ)) (l z i : ℕ) (a : List ℕ) (d : D)
      → let s : StoreThenForwardBuffer = record { buf = buf; length = l; size = z; id = i } in
        Bounded s → StepKeeps stepping Bounded (stepping s a d)
  unfolding store_step store_length store_message
  step-Bounded none l z i a d h =
      let n : sub64 8 z ≡ 8 - z = omega (arith, h) in rw n (ground arith)
  step-Bounded (some m) l z i a d h =
      ground (arith, length-append m a, accepts i (m ++ take (l - z) a) d)

  store_recv-Bounded :
      (s : StoreThenForwardBuffer) (a : List ℕ) (d : D)
      → Bounded s
      → let r = store_recv deliver s a d in Bounded r.buffer × IsWithin r.res
  unfolding store_recv
  store_recv-Bounded s a d h =
      resume-keeps stepping Bounded (λ s a d h. step-Bounded s.buf s.length s.size s.id a d h)
        (2 * length a + 2) s a d h

module _ {D : Type 0} (e : CutThroughDelegate D)
    (accepts : (id : ℕ) (m : List ℕ) (d : D) → (e.cut_through_recv_bytes id m d).0 ≡ true) where
  cut_step-Within :
      (cut : Bool) (l z i : ℕ) (a : List ℕ) (d : D)
      → let s : CutThroughBuffer = record { cut_through = cut; length = l; size = z; id = i } in
        Within s → StepKeeps (cut_step e) Within (cut_step e s a d)
  unfolding cut_step cut_length cut_message
  cut_step-Within false l z i a d h =
      let n : sub64 8 z ≡ 8 - z = omega (arith, h) in rw n (ground arith)
  cut_step-Within true l z i a d h = ground (arith, accepts i a d, accepts i (take (l - z) a) d)

  cut_recv-Within :
      (s : CutThroughBuffer) (a : List ℕ) (d : D)
      → Within s
      → let r = cut_recv e s a d in Within r.buffer × IsWithin r.res
  unfolding cut_recv
  cut_recv-Within s a d h =
      resume-keeps (cut_step e) Within
        (λ s a d h. cut_step-Within s.cut_through s.length s.size s.id a d h) (2 * length a + 2) s a
        d h

-- What every buffer of a map fulfils.
abbrev pub AllOf : {B : Type 0} → (B → Type 0) → Dict B → Type 0
AllOf {B} P m = All (λ (e : ℕ × B). P e.1) m

assign-AllOf :
    {B : Type 0} (P : B → Type 0) (k : ℕ) (s : B) (m : Dict B)
    → P s
    → AllOf P m
    → AllOf P (assign k s m)
unfolding assign
assign-AllOf P k s [] h all = (h, tt)
assign-AllOf P k s (e ∷ m) h all = ground (arith, assign-AllOf P k s m h all.1)

-- The buffer that is found, or the one made for a stream that has none.
lookup-AllOf :
    {B : Type 0} (P : B → Type 0) (new : B) (k : ℕ) (m : Dict B)
    → P new
    → AllOf P m
    → P (elim (lookup k m) [ none ↦ new | some b ↦ b ])
unfolding lookup
lookup-AllOf P new k [] p all = p
lookup-AllOf P new k ((j, s) ∷ m) p all = elim (Bool-cases (j == k)) [
  | inl e ↦ rw e all.0
  | inr e ↦ rw e (lookup-AllOf P new k m p all.1)
]

-- All buffers of a transport.
abbrev pub AllBounded : {T : Type 0} → LpfTransport T → Type 0
AllBounded t = AllOf Bounded t.stf_buffers × AllOf Within t.cut_through_buffers

module _ {T D : Type 0} (base : BaseTransport T) (app : Delegate D)
    (accepts : (m : List ℕ) (d : D) → (app.did_recv m d).0 ≡ 0)
    (accepts_cut : (id : ℕ) (m : List ℕ) (d : D) → (app.cut_through_recv_bytes id m d).0 ≡ 0) where
  -- The result is one of the source's, and the buffers are bounded.
  abbrev Fine : ℕ × LpfTransport T → Type 0
  Fine r = (r.0 ≢ 2) × AllBounded r.1

  result-Fine :
      (r : Result) (t : LpfTransport T)
      → IsWithin r
      → AllBounded t
      → Fine (recv_result base app r t)
  unfolding recv_result
  result-Fine ok t w h = (omega arith, h)
  result-Fine too_big t w h = (omega arith, h)
  result-Fine refused t w h = (omega arith, h)
  result-Fine reads_past t w h = absurd w

  stf-accepts : (i : ℕ) (m : List ℕ) (d : D) → (did_recv_stf_message base app i m d).0 ≡ true
  stf-accepts i m d = ground (arith, accepts m d)

  stored-AllBounded :
      (bytes : List ℕ) (stream_id : ℕ) (t : LpfTransport T) (d : D)
      → AllBounded t
      → Fine (recv_stored base app bytes stream_id t d).0
  unfolding recv_stored
  stored-AllBounded bytes stream_id t d h =
      let s : StoreThenForwardBuffer = elim (lookup stream_id t.stf_buffers) [
        | none ↦ new_store stream_id
        | some b ↦ b
      ] in
      let deliver = did_recv_stf_message base app in
      let r = store_recv deliver s bytes d in
      let t1 = record t { stf_buffers = assign stream_id r.buffer t.stf_buffers } in
      let k =
        store_recv-Bounded deliver stf-accepts s bytes d
          (lookup-AllOf Bounded (new_store stream_id) stream_id t.stf_buffers (omega arith) h.0) in
      result-Fine r.res t1 k.1 (assign-AllOf Bounded stream_id r.buffer t.stf_buffers k.0 h.0, h.1)

  cut-AllBounded :
      (bytes : List ℕ) (stream_id : ℕ) (t : LpfTransport T) (d : D)
      → AllBounded t
      → Fine (recv_cut_through base app bytes stream_id t d).0
  unfolding recv_cut_through
  cut-AllBounded bytes stream_id t d h =
      let s : CutThroughBuffer = elim (lookup stream_id t.cut_through_buffers) [
        | none ↦ new_cut_through stream_id
        | some b ↦ b
      ] in
      let e = cut_through_delegate base app in
      let r = cut_recv e s bytes d in
      let t1 = record t { cut_through_buffers = assign stream_id r.buffer t.cut_through_buffers } in
      let k =
        cut_recv-Within e (λ i m d. ground (arith, accepts_cut i m d)) s bytes d
          (lookup-AllOf Within (new_cut_through stream_id) stream_id t.cut_through_buffers
            (omega arith) h.1) in
      result-Fine r.res t1 k.1
        (h.0, assign-AllOf Within stream_id r.buffer t.cut_through_buffers k.0 h.1)

  -- Whatever bytes arrive on whatever streams, if no buffer that stores a message has allocated more than
  -- 5000000 bytes or written past what it has allocated, no message is cut through beyond its length, and
  -- less than 8 bytes of a length are counted, then this stays so, also after a call that failed on a
  -- length that is too big, and the code does not read behind the bytes of the call. It is stated for an
  -- application that accepts every message and every part of one.
  pub lpf_recv-AllBounded :
      (should_cut_through : Bool) (bytes : List ℕ) (stream_id : ℕ) (t : LpfTransport T) (d : D)
      → AllBounded t
      → let r = (lpf_recv base app should_cut_through bytes stream_id t d).0 in
        (r.0 ≢ 2) × AllBounded r.1
  unfolding lpf_recv
  lpf_recv-AllBounded should_cut_through bytes stream_id t d h =
      elim (Bool-cases (
        should_cut_through
        && (base.is_internal t.transport && (leb 10 stream_id && ltb stream_id 20)))) [
          | inl e ↦ rw e (cut-AllBounded bytes stream_id t d h)
          | inr e ↦ rw e (stored-AllBounded bytes stream_id t d h)
        ]
