-- ===== src/Core/Fibers/Length.antt =====
-- A frame of a given length, whatever pieces it comes in.
use mathlib.Core.List.{append_assoc, append-nil}
use open_weaver.Base.{
  ℕ, zero, suc, ◌+◌, ◌-◌, ◌^◌, ◌≤◌, ◌<◌, ◌≡◌, refl, sym, ap, subst, ◌∙◌, false, none, some, List,
  [], ◌∷◌, ◌++◌, arith, ltb, if◌then◌else◌, lt→ltb, sub64, length, take, drop, length-append,
  length-take, take_all, take-take-drop, take-append_beyond, drop-append_beyond,
}
use open_weaver.Bytes.{splice, length-splice, take-splice_before, take-drop-splice, concat}
use open_weaver.Core.Buffer.{size, contents, create, write_unsafe, moved_from}
use open_weaver.Core.Buffer.Window.{contents-write}
use open_weaver.Core.Fibers.{
  LengthFiber, App, reset_length, length_recv, length_buffer, length_frame_done, new_memory, result,
  leftover,
}

pub length-new_memory : (n : ℕ) → length (new_memory n) ≡ n
unfolding new_memory
length-new_memory zero = refl
length-new_memory (suc n) = ap suc (length-new_memory n)

pub take-splice_through :
    (p : ℕ) (bs m : List ℕ)
    → p + length bs ≤ length m
    → take (p + length bs) (splice p bs m) ≡ take p m ++ bs
take-splice_through p bs m h =
    sym (take-take-drop p (length bs) (splice p bs m))
    ∙ ap (λ l. l ++ take (length bs) (drop p (splice p bs m)))
        (take-splice_before p p bs m (omega arith))
    ∙ ap (λ l. take p m ++ l) (take-drop-splice p bs m h)

-- The bytes `got` of a frame of `n` bytes have come.
pub record Partial (n : ℕ) (got : List ℕ) (s : LengthFiber) : Type 0 where
  pub missing : s.bytes_remaining + length got ≡ n
  pub room : size s.buf ≡ n
  pub whole : length (contents s.buf) ≡ n
  pub holds : take (length got) (contents s.buf) ≡ got

reset-Partial : (n : ℕ) → Partial n [] (reset_length n)
unfolding reset_length contents create
reset-Partial n = record {
  missing = omega arith;
  room = omega arith;
  whole = length-take (n - 0) (new_memory n) ∙ omega (arith, length-new_memory n);
  holds = refl;
}

-- More bytes of the frame are written behind those that have come.
buffer-Partial :
    (n : ℕ) (got bytes : List ℕ) (s : LengthFiber) (r : ℕ)
    → n < 2 ^ 64
    → Partial n got s
    → r + (length got + length bytes) ≡ n
    → Partial n (got ++ bytes) (record { bytes_remaining = r; buf = length_buffer s.buf bytes r })
unfolding length_buffer write_unsafe
buffer-Partial n got bytes s r w p e =
    let c = contents s.buf in
    let idx : sub64 (sub64 (size s.buf) (length bytes)) r ≡ length got = omega (arith, p.room) in
    let at : contents (length_buffer s.buf bytes r) ≡ splice (length got) bytes c =
      contents-write s.buf (sub64 (sub64 (size s.buf) (length bytes)) r) bytes
      ∙ ap (λ i. splice i bytes c) idx in
    record {
      missing = omega (arith, e, length-append got bytes);
      room = p.room;
      whole = ap length at ∙ length-splice (length got) bytes c ∙ p.whole;
      holds =
          ap (take (length (got ++ bytes))) at
          ∙ ap (λ k. take k (splice (length got) bytes c)) (length-append got bytes)
          ∙ take-splice_through (length got) bytes c (omega (arith, e, p.whole))
          ∙ ap (λ l. l ++ bytes) p.holds;
    }

module _ {D : Type 0} (app : App D) where
  -- The fiber after pieces, whatever it replies.
  unfoldable pub length_run : LengthFiber → List (List ℕ) → D → LengthFiber × D
  unfolding length_recv
  length_run s [] d = (s, d)
  length_run s (p ∷ ps) d = let r = (length_recv app s p d).0 in length_run r.0 ps r.1

  -- What the fiber is once the application was given a frame.
  abbrev pub after_frame : List ℕ → D → LengthFiber × D
  after_frame frame d =
      let (d', again) = app frame d in
      (
        elim again [
          | none ↦ record { bytes_remaining = 0; buf = moved_from }
          | some n ↦ reset_length n
        ],
        d',
      )

  forward :
      (s : LengthFiber) (bytes : List ℕ) (d : D)
      → length bytes < s.bytes_remaining
      → (length_recv app s bytes d).0 ≡ (
        record {
          bytes_remaining = s.bytes_remaining - length bytes;
          buf = length_buffer s.buf bytes (s.bytes_remaining - length bytes);
        },
        d,
      )
  unfolding length_recv
  forward s bytes d h = rw (lt→ltb (length bytes) s.bytes_remaining h) refl

  pieces-Partial :
      (n : ℕ) (got : List ℕ) (ps : List (List ℕ)) (s : LengthFiber) (d : D)
      → n < 2 ^ 64
      → Partial n got s
      → length got + length (concat ps) < n
      → Partial n (got ++ concat ps) (length_run s ps d).0 × ((length_run s ps d).1 ≡ d)
  unfolding length_run concat
  pieces-Partial n got [] s d w p h = (subst (λ l. Partial n l s) (sym (append-nil got)) p, refl)
  pieces-Partial n got (b ∷ ps) s d w p h =
      let sum : length (b ++ concat ps) ≡ length b + length (concat ps) =
        length-append b (concat ps) in
      let r = s.bytes_remaining - length b in
      let s1 : LengthFiber = record { bytes_remaining = r; buf = length_buffer s.buf b r } in
      let p1 : Partial n (got ++ b) s1 =
        buffer-Partial n got b s r w p (omega (arith, p.missing, sum)) in
      let next =
        pieces-Partial n (got ++ b) ps s1 d w p1 (omega (arith, sum, length-append got b)) in
      let run : length_run s (b ∷ ps) d ≡ length_run s1 ps d =
        ap (λ (x : LengthFiber × D). length_run x.0 ps x.1)
          (forward s b d (omega (arith, p.missing, sum))) in
      subst (λ (x : LengthFiber × D). Partial n (got ++ (b ++ concat ps)) x.0 × (x.1 ≡ d)) (sym run)
        (
          subst (λ l. Partial n l (length_run s1 ps d).0) (append_assoc got b (concat ps)) next.0,
          next.1,
        )

  fill :
      (n : ℕ) (got b : List ℕ) (s : LengthFiber) (d : D)
      → n < 2 ^ 64
      → Partial n got s
      → n ≤ length got + length b
      → length_recv app s b d ≡ (
        after_frame (take n (got ++ b)) d,
        if ltb n (length (got ++ b)) then leftover (drop n (got ++ b)) else result 0,
      )
  unfolding length_recv length_frame_done
  fill n got b s d w p full =
      let r = s.bytes_remaining in
      let short : ltb (length b) r ≡ false = ground (arith, p.missing) in
      let first : length (take r b) ≡ r = length-take r b ∙ omega (arith, p.missing) in
      let q = buffer-Partial n got (take r b) s 0 w p (omega (arith, first, p.missing)) in
      let c = contents (length_buffer s.buf (take r b) 0) in
      let n_left : n - length got ≡ r = omega (arith, p.missing) in
      let frame : c ≡ take n (got ++ b) =
        sym (take_all (length (got ++ take r b)) c (omega (arith, q.whole, q.missing)))
        ∙ q.holds
        ∙ sym (ap (λ k. got ++ take k b) n_left)
        ∙ sym (take-append_beyond n got b (omega (arith, p.missing))) in
      let rest : drop r b ≡ drop n (got ++ b) =
        sym (drop-append_beyond n got b (omega (arith, p.missing)) ∙ ap (λ k. drop k b) n_left) in
      let more : ltb 0 (length b - r) ≡ ltb n (length (got ++ b)) =
        ground (arith, p.missing, length-append got b) in
      rw (short, frame, rest, more) refl

  -- A frame of `n` bytes after a reset: pieces that do not fill it reach nobody, and the piece that
  -- does gives the application just the first `n` bytes of all pieces, in whatever pieces they came;
  -- the bytes behind them are left over for the source.
  pub length_recv-pieces :
      (n : ℕ) (ps : List (List ℕ)) (b : List ℕ) (d : D)
      → n < 2 ^ 64
      → length (concat ps) < n
      → n ≤ length (concat ps) + length b
      → let bytes = concat ps ++ b in
        let s = length_run (reset_length n) ps d in
        (s.1 ≡ d)
        × (length_recv app s.0 b d ≡ (
          after_frame (take n bytes) d,
          if ltb n (length bytes) then leftover (drop n bytes) else result 0,
        ))
  length_recv-pieces n ps b d w short full =
      let p =
        pieces-Partial n [] ps (reset_length n) d w (reset-Partial n) (omega (arith, short)) in
      (p.1, fill n (concat ps) b (length_run (reset_length n) ps d).0 d w p.0 full)
