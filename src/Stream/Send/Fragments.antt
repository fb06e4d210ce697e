-- ===== src/Stream/Send/Fragments.antt =====
-- How the loop over an item's fragments covers the item.
use open_weaver.Base.{
  ℕ, zero, suc, ◌+◌, ◌-◌, ◌^◌, ◌≤◌, ◌<◌, min, ◌≡◌, refl, sym, ap, subst, ◌∙◌, inl, inr, true, List,
  [], ◌∷◌, ◌++◌, arith, ltb, leb, ◌==◌, if◌then◌else◌, leb→le, ==_refl, Bool-cases, add64, sub64,
  length, take, drop, length-take, length-drop, take-append_length, take-take-drop, drop-drop,
}
use mathlib.Core.List.{append_assoc, append-nil}
use open_weaver.Stream.Types.{
  Transport, Env, SendStream, DataItem, Effect, sends, data_msg, default_pacing_limit,
}
use open_weaver.Stream.Send.{
  send_data, send_fragment, send_fragments, fragment_size, Sending, Progress, complete,
  pacing_limit_hit, window_full,
}

-- The bytes of stream `id` in the DATA messages that were sent, the oldest first.
unfoldable pub bytes_sent : ℕ → List Effect → List ℕ
bytes_sent id [] = []
bytes_sent id (sends (data_msg fin src dst n j offset len payload) ∷ out) =
    bytes_sent id out ++ (if j == id then take len payload else [])
bytes_sent id (_ ∷ out) = bytes_sent id out

-- What the loop has done when it stands at `i` in an item: it has sent the bytes from `i` on up to the
-- item's new `sent_offset`, which is its end if the loop came to its end.
pub record Covers (id i : ℕ) (item : DataItem) (t : Transport) (r : Sending) : Type 0 where
  pub same : r.item.bytes ≡ item.bytes
  pub forward : i ≤ r.item.sent_offset
  pub within : r.item.sent_offset ≤ length item.bytes
  pub sent :
      bytes_sent id r.transport.out
      ≡ bytes_sent id t.out ++ take (r.item.sent_offset - i) (drop i item.bytes)
  pub ends : r.progress ≡ complete → r.item.sent_offset ≡ length item.bytes

pub fragment_size-min :
    (item : DataItem)
    → length item.bytes < 2 ^ 64
    → item.sent_offset ≤ length item.bytes
    → fragment_size item ≡ min 1350 (length item.bytes - item.sent_offset)
unfolding fragment_size
fragment_size-min item w le = ground arith

-- One fragment puts its bytes behind those that were sent.
send_fragment-bytes :
    (e : Env) (id i : ℕ) (s : SendStream) (item : DataItem) (t : Transport)
    → let r = send_fragment e id i s item t in
      fragment_size item ≤ length item.bytes - i
      → bytes_sent id r.transport.out
        ≡ bytes_sent id t.out ++ take (fragment_size item) (drop i item.bytes)
unfolding send_fragment send_data bytes_sent
send_fragment-bytes e id i s item t le =
    let d = fragment_size item in
    let n : length (take d (drop i item.bytes)) ≡ d =
      length-take d (drop i item.bytes) ∙ omega (arith, length-drop i item.bytes) in
    let whole = take-append_length (take d (drop i item.bytes)) (e.unset_tag ++ t.keys.nonce) d n in
    rw (==_refl id, whole) refl

pub past_end :
    (fuel : ℕ) (e : Env) (id initial i : ℕ) (s : SendStream) (item : DataItem) (t : Transport)
    → length item.bytes ≤ i
    → send_fragments fuel e id initial i s item t
      ≡ record { stream = s; item = item; transport = t; progress = complete }
unfolding send_fragments
past_end zero e id initial i s item t le = refl
past_end (suc fuel) e id initial i s item t le =
    let end : leb (length item.bytes) i ≡ true = ground arith in rw (send_fragments, end) refl

send_fragments-stops :
    (id : ℕ) (s : SendStream) (item : DataItem) (t : Transport) (p : Progress)
    → item.sent_offset ≤ length item.bytes
    → (p ≡ complete → item.sent_offset ≡ length item.bytes)
    → Covers id item.sent_offset item t
        (record { stream = s; item = item; transport = t; progress = p })
send_fragments-stops id s item t p le h = record {
  same = refl;
  forward = omega arith;
  within = le;
  sent = let z : item.sent_offset - item.sent_offset ≡ 0 = omega arith in rw (z, append-nil) refl;
  ends = h;
}

-- One more fragment of `d` bytes in front.
after-Covers :
    (id i d : ℕ) (item : DataItem) (t : Transport) (r r' : Sending)
    → r.item.bytes ≡ item.bytes
    → bytes_sent id r.transport.out ≡ bytes_sent id t.out ++ take d (drop i item.bytes)
    → Covers id (i + d) r.item r.transport r'
    → Covers id i item t r'
after-Covers id i d item t r r' b o h = record {
  same = h.same ∙ b;
  forward = omega (arith, h.forward);
  within = rw⁻¹ b h.within;
  sent =
      let k : d + (r'.item.sent_offset - (i + d)) ≡ r'.item.sent_offset - i =
        omega (arith, h.forward) in
      let joined = take-take-drop d (r'.item.sent_offset - (i + d)) (drop i item.bytes) in
      h.sent
      ∙ rw (o, b, append_assoc)
          (ap (λ l. bytes_sent id t.out ++ l) (rw (drop-drop d i item.bytes, k) at joined));
  ends = λ q. h.ends q ∙ ap length b;
}

pub send_fragment-item :
    (e : Env) (id i : ℕ) (s : SendStream) (item : DataItem) (t : Transport)
    → let r = send_fragment e id i s item t in
      (r.item.bytes ≡ item.bytes)
      × (r.item.sent_offset ≡ add64 item.sent_offset (fragment_size item))
unfolding send_fragment
send_fragment-item e id i s item t = (refl, refl)

send_fragments-Covers :
    (fuel : ℕ) (e : Env) (id initial : ℕ) (s : SendStream) (item : DataItem) (t : Transport)
    → length item.bytes < 2 ^ 64
    → item.sent_offset ≤ length item.bytes
    → length item.bytes < item.sent_offset + fuel
    → Covers id item.sent_offset item t (send_fragments fuel e id initial item.sent_offset s item t)
unfolding send_fragments
send_fragments-Covers zero e id initial s item t w le f = absurd (omega arith)
send_fragments-Covers (suc fuel) e id initial s item t w le f =
    let i = item.sent_offset in
    let r = send_fragment e id i s item t in
    elim (Bool-cases (leb (length item.bytes) i)) [
      | inl end ↦
          rw (send_fragments, end)
            (send_fragments-stops id s item t complete le (λ _. omega (arith, leb→le _ _ end)))
      | inr more ↦
          elim (Bool-cases
            (ltb (sub64 t.congestion_window (fragment_size item)) t.bytes_in_flight)) [
              | inl full ↦
                  rw (send_fragments, more, full)
                    (send_fragments-stops id s item t window_full le (λ q. absurd (ground arith)))
              | inr fits ↦
                  elim (Bool-cases (ltb default_pacing_limit (sub64 t.bytes_in_flight initial))) [
                    | inl hit ↦
                        rw (send_fragments, more, fits, hit)
                          (send_fragments-stops id s item t pacing_limit_hit le
                            (λ q. absurd (ground arith)))
                    | inr free ↦
                        rw (send_fragments, more, fits, free)
                          (let d = fragment_size item in
                            let size = fragment_size-min item w le in
                            let b = send_fragment-item e id i s item t in
                            let o = send_fragment-bytes e id i s item t (omega (arith, size)) in
                            let now : r.item.sent_offset ≡ i + d = b.1 ∙ omega (arith, size) in
                            let l : length r.item.bytes ≡ length item.bytes = ap length b.0 in
                            let rest =
                              send_fragments fuel e id initial (i + 1350) r.stream r.item
                                r.transport in
                            after-Covers id i d item t r rest b.0 o
                              (elim (Bool-cases (leb (length item.bytes) (i + 1350))) [
                                | inl last ↦
                                    let over : length r.item.bytes ≤ i + 1350 =
                                      omega (arith, l, leb→le _ _ last) in
                                    let stops =
                                      send_fragments-stops id r.stream r.item r.transport complete
                                        (omega (arith, l, now, size))
                                        (λ _. omega (arith, l, now, size, leb→le _ _ last)) in
                                    subst (λ r'. Covers id (i + d) r.item r.transport r')
                                      (sym (
                                        past_end fuel e id initial (i + 1350) r.stream r.item
                                          r.transport over))
                                      (subst
                                        (λ x. Covers id x r.item r.transport (record {
                                          stream = r.stream;
                                          item = r.item;
                                          transport = r.transport;
                                          progress = complete;
                                        }))
                                        now stops)
                                | inr again ↦
                                    let more_left : i + 1350 < length item.bytes = ground arith in
                                    let full : i + 1350 ≡ i + d = omega (arith, size) in
                                    let here : r.item.sent_offset ≡ i + 1350 = now ∙ sym full in
                                    let ih =
                                      send_fragments-Covers fuel e id initial r.stream r.item
                                        r.transport (omega (arith, l)) (omega (arith, l, now, size))
                                        (omega (arith, l, here)) in
                                    subst (λ x. Covers id x r.item r.transport rest) full
                                      (subst
                                        (λ x. Covers id x r.item r.transport (
                                          send_fragments fuel e id initial x r.stream r.item
                                            r.transport))
                                        here ih)
                              ]))
                  ]
            ]
    ]

-- The loop over an item's fragments, from where the item was sent up to, with one more than the item's
-- length as fuel: the DATA messages that it sends carry the next bytes of the item, in order and each
-- once, up to the item's new `sent_offset`; and if it is stopped neither by the pacing limit nor by the
-- congestion window, that is the end of the item. It is stated for items of less than 2 ^ 64 bytes.
pub send_fragments-whole :
    (e : Env) (id initial : ℕ) (s : SendStream) (item : DataItem) (t : Transport)
    → length item.bytes < 2 ^ 64
    → item.sent_offset ≤ length item.bytes
    → Covers id item.sent_offset item t
        (send_fragments (suc (length item.bytes)) e id initial item.sent_offset s item t)
send_fragments-whole e id initial s item t w le =
    send_fragments-Covers (suc (length item.bytes)) e id initial s item t w le (omega arith)
