-- ===== src/Stream/Receive/Drain.antt =====
-- The loop over the packets that wait delivers the bytes of the stream in order.
use open_weaver.Base.{
  ℕ, ◌+◌, ◌-◌, ◌^◌, ◌≤◌, ◌<◌, ◌≡◌, refl, ap, ◌∙◌, inl, inr, true, List, [], ◌∷◌, ◌++◌, arith, ltb,
  ==_refl, Bool-cases, add64, sub64, drop,
}
use mathlib.Core.List.{append_assoc, append-nil}
use open_weaver.Dict.{Dict}
use open_weaver.Stream.Types.{Env, Effect, delivers, RecvPacketInfo}
use open_weaver.Stream.Receive.{drain, Drained}
use open_weaver.Stream.Receive.Slice.{slice, slice-append, drop-slice, delivered, Carries, AllCarry}

module _ (f : ℕ → ℕ) (e : Env) (id : ℕ)
    (accepts : (o : ℕ) (bytes : List ℕ) → e.accepts id o bytes ≡ true) where
  -- The part of a packet that is new at a read offset.
  pub new_bytes :
      (p : RecvPacketInfo) (offset : ℕ)
      → Carries f p
      → p.offset ≤ offset
      → offset < p.offset + p.length
      → drop (sub64 offset p.offset) p.packet ≡ slice f offset (p.offset + p.length - offset)
  new_bytes p offset c le lt =
      let k : sub64 offset p.offset ≡ offset - p.offset = omega (arith, c.fits) in
      let o : p.offset + (offset - p.offset) ≡ offset = omega arith in
      let n : p.length - (offset - p.offset) ≡ p.offset + p.length - offset = omega arith in
      rw (k, c.bytes, drop-slice f p.offset (offset - p.offset) p.length, o, n)

  pub record InOrder (offset : ℕ) (out : List Effect) (d : Drained) : Type 0 where
    pub forward : offset ≤ d.read_offset
    pub small : d.read_offset < 2 ^ 64
    pub all_accepted : d.accepted ≡ true
    pub order : delivered id d.out ≡ delivered id out ++ slice f offset (d.read_offset - offset)
    pub left : AllCarry f d.packets

  pub stop-InOrder :
      (offset : ℕ) (l : Dict RecvPacketInfo) (out : List Effect)
      → offset < 2 ^ 64
      → AllCarry f l
      → InOrder offset out
          (record { read_offset = offset; packets = l; out = out; accepted = true })
  unfolding slice
  stop-InOrder offset l out w c = record {
    forward = omega arith;
    small = w;
    all_accepted = refl;
    order = let z : offset - offset ≡ 0 = omega arith in rw (z, append-nil);
    left = c;
  }

  -- One more delivery in front.
  pub extend-InOrder :
      (offset next : ℕ) (bytes : List ℕ) (out : List Effect) (d : Drained)
      → offset ≤ next
      → bytes ≡ slice f offset (next - offset)
      → InOrder next (delivers bytes id ∷ out) d
      → InOrder offset out d
  unfolding delivered
  extend-InOrder offset next bytes out d le b h = record {
    forward = omega (arith, h.forward);
    small = h.small;
    all_accepted = h.all_accepted;
    order =
        let o : offset + (next - offset) ≡ next = omega arith in
        let n : next - offset + (d.read_offset - next) ≡ d.read_offset - offset =
          omega (arith, h.forward) in
        let joined : slice f offset (next - offset) ++ slice f next (d.read_offset - next)
            ≡ slice f offset (d.read_offset - offset) =
          rw (n, o) at (slice-append f offset (next - offset) (d.read_offset - next)) in
        h.order ∙ rw (==_refl id, b, append_assoc) (ap (λ l. delivered id out ++ l) joined);
    left = h.left;
  }

  pub drain-InOrder :
      (offset : ℕ) (l : Dict RecvPacketInfo) (out : List Effect)
      → offset < 2 ^ 64
      → AllCarry f l
      → InOrder offset out (drain e id offset l out)
  unfolding drain
  drain-InOrder offset [] out w c = stop-InOrder offset [] out w tt
  drain-InOrder offset ((key, p) ∷ rest) out w c = elim (Bool-cases (ltb offset p.offset)) [
    | inl later ↦ rw later (stop-InOrder offset ((key, p) ∷ rest) out w c)
    | inr now ↦ elim (Bool-cases (ltb offset (add64 p.offset p.length))) [
      | inr old ↦ rw (now, old) (drain-InOrder offset rest out w c.1)
      | inl new ↦
          let wrap : add64 p.offset p.length ≡ p.offset + p.length = omega (arith, c.0.fits) in
          let lt : offset < p.offset + p.length = ground (arith, c.0.fits) in
          let bytes = new_bytes p offset c.0 (ground arith) lt in
          rw (now, new, accepts)
            (rw (wrap, bytes)
              (extend-InOrder offset (p.offset + p.length) _ out _ (omega arith) refl
                (drain-InOrder (p.offset + p.length) rest _ c.0.fits c.1)))
    ]
  ]
