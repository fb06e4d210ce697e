-- ===== src/Stream/Send/Sound.antt =====
-- The DATA messages that a sender cuts from an item carry the bytes of its stream.
use open_weaver.Base.{
  ℕ, zero, suc, ◌+◌, ◌-◌, ◌^◌, ◌≤◌, ◌<◌, ◌≡◌, refl, sym, ap, subst, ◌∙◌, inl, inr, List, [], ◌∷◌,
  ◌++◌, arith, ltb, leb, leb→le, Bool-cases, add64, sub64, length, take, drop, length-append,
}
use open_weaver.Stream.Types.{
  Transport, Env, SendStream, DataItem, Effect, Message, sends, data_msg, default_pacing_limit,
}
use open_weaver.Stream.Send.{send_data, send_fragment, send_fragments, fragment_size}
use open_weaver.Stream.Send.Fragments.{fragment_size-min, send_fragment-item, past_end}
use open_weaver.Stream.Receive.Slice.{slice, drop-slice}

-- A DATA payload as a receiver expects it: the bytes of the stream at the offset, and 28 more.
pub record CarriesMessage (f : ℕ → ℕ) (offset len : ℕ) (payload : List ℕ) : Type 0 where
  pub trailer : List ℕ
  pub text : payload ≡ slice f offset len ++ trailer
  pub tail : length trailer ≡ 28
  pub fits : offset + len < 2 ^ 64

-- A DATA message carries bytes of its stream; `f` gives the bytes of each stream.
abbrev pub IsSound : (ℕ → ℕ → ℕ) → Message → Type 0
IsSound f (data_msg fin src dst n id offset len payload) = CarriesMessage (f id) offset len payload
IsSound f _ = Unit {0}

-- Every DATA message among the effects does so.
abbrev pub AllSound : (ℕ → ℕ → ℕ) → List Effect → Type 0
AllSound f [] = Unit {0}
AllSound f (sends m ∷ out) = IsSound f m × AllSound f out
AllSound f (_ ∷ out) = AllSound f out

-- An item holds the bytes of the stream `f` at its offset.
pub record Holds (f : ℕ → ℕ) (item : DataItem) : Type 0 where
  pub text : item.bytes ≡ slice f item.stream_offset (length item.bytes)
  pub fits : item.stream_offset + length item.bytes < 2 ^ 64

take-slice : (f : ℕ → ℕ) (o m n : ℕ) → m ≤ n → take m (slice f o n) ≡ slice f o m
unfolding slice
take-slice f o zero n le = refl
take-slice f o (suc m) zero le = absurd (omega arith)
take-slice f o (suc m) (suc n) le = ap (λ l. f o ∷ l) (take-slice f (o + 1) m n (omega arith))

module _ (f : ℕ → ℕ → ℕ) (e : Env) (id : ℕ) (tag : length e.unset_tag ≡ 16) where
  part :
      (item : DataItem) (offset len : ℕ)
      → Holds (f id) item
      → offset + len ≤ length item.bytes
      → take len (drop offset item.bytes) ≡ slice (f id) (add64 item.stream_offset offset) len
  part item offset len h le =
      let at : add64 item.stream_offset offset ≡ item.stream_offset + offset =
        omega (arith, h.fits) in
      rw at (
        ap (λ l. take len (drop offset l)) h.text
        ∙ ap (λ l. take len l) (drop-slice (f id) item.stream_offset offset (length item.bytes))
        ∙ take-slice (f id) (item.stream_offset + offset) len (length item.bytes - offset)
            (omega arith))

  pub send_data-AllSound :
      (s : SendStream) (item : DataItem) (offset len : ℕ) (t : Transport)
      → length t.keys.nonce ≡ 12
      → Holds (f id) item
      → offset + len ≤ length item.bytes
      → AllSound f t.out
      → AllSound f (send_data e id s item offset len t).out
  unfolding send_data
  send_data-AllSound s item offset len t nonce h le sound = (
    record {
      trailer = e.unset_tag ++ t.keys.nonce;
      text = ap (λ l. l ++ (e.unset_tag ++ t.keys.nonce)) (part item offset len h le);
      tail = length-append e.unset_tag t.keys.nonce ∙ omega arith;
      fits = omega (arith, h.fits);
    },
    sound,
  )

  send_fragment-AllSound :
      (i : ℕ) (s : SendStream) (item : DataItem) (t : Transport)
      → length t.keys.nonce ≡ 12
      → Holds (f id) item
      → i + fragment_size item ≤ length item.bytes
      → AllSound f t.out
      → let u = (send_fragment e id i s item t).transport in
        AllSound f u.out × (length u.keys.nonce ≡ 12)
  unfolding send_fragment send_data
  send_fragment-AllSound i s item t nonce h le sound =
      (send_data-AllSound s item i (fragment_size item) t nonce h le sound, nonce)

  pub send_fragment-Holds :
      (i : ℕ) (s : SendStream) (item : DataItem) (t : Transport)
      → Holds (f id) item
      → Holds (f id) (send_fragment e id i s item t).item
  unfolding send_fragment
  send_fragment-Holds i s item t h = record { text = h.text; fits = h.fits }

  -- The DATA messages that the loop over the fragments of an item sends carry bytes of the stream, as a
  -- receiver needs them: if the item holds the bytes of its stream at its offset there, and all DATA
  -- messages that were sent so far carry bytes of their streams at their offsets, then so do all after
  -- the loop, for any fuel, wherever it stops. It is stated for a stream that ends below
  -- 2 ^ 64, and a tag of 16 and a nonce of 12 bytes.
  pub send_fragments-AllSound :
      (fuel initial : ℕ) (s : SendStream) (item : DataItem) (t : Transport)
      → length t.keys.nonce ≡ 12
      → Holds (f id) item
      → item.sent_offset ≤ length item.bytes
      → AllSound f t.out
      → AllSound f (send_fragments fuel e id initial item.sent_offset s item t).transport.out
  unfolding send_fragments
  send_fragments-AllSound zero initial s item t nonce h le sound = sound
  send_fragments-AllSound (suc fuel) initial s item t nonce h le sound =
      let i = item.sent_offset in
      let r = send_fragment e id i s item t in
      let size = fragment_size-min item (omega (arith, h.fits)) le in
      let b = send_fragment-item e id i s item t in
      let l : length r.item.bytes ≡ length item.bytes = ap length b.0 in
      let now : r.item.sent_offset ≡ i + fragment_size item = b.1 ∙ omega (arith, size, h.fits) in
      let first = send_fragment-AllSound i s item t nonce h (omega (arith, size)) sound in
      elim (Bool-cases (leb (length item.bytes) i)) [
        | inl end ↦ rw (send_fragments, end) sound
        | inr more ↦
            elim (Bool-cases
              (ltb (sub64 t.congestion_window (fragment_size item)) t.bytes_in_flight)) [
                | inl full ↦ rw (send_fragments, more, full) sound
                | inr fits ↦
                    elim (Bool-cases (ltb default_pacing_limit (sub64 t.bytes_in_flight initial))) [
                      | inl hit ↦ rw (send_fragments, more, fits, hit) sound
                      | inr free ↦
                          let rest =
                            send_fragments fuel e id initial (i + 1350) r.stream r.item
                              r.transport in
                          let goal : AllSound f rest.transport.out =
                            elim (Bool-cases (leb (length item.bytes) (i + 1350))) [
                              | inl last ↦
                                  let over : length r.item.bytes ≤ i + 1350 =
                                    omega (arith, l, leb→le _ _ last) in
                                  subst (λ r'. AllSound f r'.transport.out)
                                    (sym (
                                      past_end fuel e id initial (i + 1350) r.stream r.item
                                        r.transport over))
                                    first.0
                              | inr again ↦
                                  let more_left : i + 1350 < length item.bytes = ground arith in
                                  let here : r.item.sent_offset ≡ i + 1350 =
                                    now ∙ omega (arith, size) in
                                  let ih =
                                    send_fragments-AllSound fuel initial r.stream r.item r.transport
                                      first.1 (send_fragment-Holds i s item t h)
                                      (omega (arith, l, here)) first.0 in
                                  subst
                                    (λ x.
                                      AllSound f
                                        (send_fragments fuel e id initial x r.stream r.item
                                          r.transport).transport.out)
                                    here ih
                            ] in
                          rw (send_fragments, more, fits, free) goal
                    ]
              ]
      ]
