-- ===== src/Core/Fibers/Sentinel.antt =====
-- A frame that ends with a sentinel, whatever pieces it comes in.
use mathlib.Core.List.{append_assoc, append-nil}
use open_weaver.Base.{
  ℕ, ◌+◌, ◌-◌, ◌≤◌, ◌<◌, ◌≡◌, refl, sym, ap, subst, ◌∙◌, inl, inr, true, false, none, some, List,
  [], ◌∷◌, ◌++◌, arith, ltb, leb, ◌==◌, if◌then◌else◌, leb→le, Bool-cases, length, take, drop,
  length-append, length-take, All, take_all, take-append_beyond, drop-append_beyond,
}
use open_weaver.Bytes.{splice, length-splice, concat}
use open_weaver.Core.Buffer.{
  Buffer, size, contents, create, write_unsafe, expand, expand_unsafe, moved_from,
}
use open_weaver.Core.Buffer.Valid.{IsValid, write_unsafe-IsValid}
use open_weaver.Core.Buffer.Window.{contents-write, length-contents, expand-Follows}
use open_weaver.Core.Fibers.{
  App, reset_sentinel, sentinel_recv, sentinel_buffer, sentinel_done, find, result, leftover,
}
use open_weaver.Core.Fibers.Length.{length-new_memory, take-splice_through}

-- The buffer holds the bytes `got`, and can hold `max_len` in all.
pub record Gathers (max_len : ℕ) (got : List ℕ) (b : Buffer) : Type 0 where
  pub valid : IsValid b
  pub room : (b.start_index ≡ 0) × (b.capacity ≡ max_len)
  pub holds : contents b ≡ got

reset-Gathers : (max_len : ℕ) → Gathers max_len [] (reset_sentinel max_len)
unfolding reset_sentinel contents create
reset-Gathers max_len = record {
  valid = record {
    ordered = omega arith;
    within = omega arith;
    allocated = length-new_memory max_len;
  };
  room = (refl, refl);
  holds = let z : max_len - max_len - 0 ≡ 0 = omega arith in rw z refl;
}

fits :
    (max_len : ℕ) (got bytes : List ℕ) (b : Buffer)
    → Gathers max_len got b
    → length got + length bytes ≤ max_len
    → ((sentinel_buffer b bytes).1 ≡ 0) × Gathers max_len (got ++ bytes) (sentinel_buffer b bytes).0
unfolding sentinel_buffer expand
fits max_len got bytes b g h =
    let n = size b in
    let len : length got ≡ n = ap length (sym g.holds) ∙ length-contents b g.valid in
    let room : ltb (b.capacity - b.end_index) (length bytes) ≡ false =
      ground (arith, len, g.room.0, g.room.1, g.valid.ordered) in
    let b' = expand_unsafe b (length bytes) in
    let v' : IsValid b' =
      omega (arith, len, g.room.0, g.room.1, g.valid.ordered, g.valid.within, g.valid.allocated) in
    let c' = contents b' in
    let long : length c' ≡ n + length bytes =
      length-contents b' v' ∙ omega (arith, g.valid.ordered) in
    let before : take n c' ≡ got =
      ap (λ k. take k c') (let e : n ≡ length c' - length bytes = omega (arith, long) in e)
      ∙ sym (
          expand-Follows b (length bytes) g.valid
            (omega (arith, len, g.room.0, g.room.1, g.valid.ordered)))
      ∙ g.holds in
    let after : contents (write_unsafe b' n bytes) ≡ got ++ bytes =
      contents-write b' n bytes
      ∙ sym (
          take_all (n + length bytes) (splice n bytes c')
            (omega (arith, long, length-splice n bytes c')))
      ∙ take-splice_through n bytes c' (omega (arith, long))
      ∙ ap (λ l. l ++ bytes) before in
    rw room
      (refl, record { valid = write_unsafe-IsValid b' n bytes v'; room = g.room; holds = after })

-- Bytes for which there is no room change nothing.
lacks :
    (max_len : ℕ) (got bytes : List ℕ) (b : Buffer)
    → Gathers max_len got b
    → max_len < length got + length bytes
    → sentinel_buffer b bytes ≡ (b, 1)
unfolding sentinel_buffer expand
lacks max_len got bytes b g h =
    let len : length got ≡ size b = ap length (sym g.holds) ∙ length-contents b g.valid in
    let room : ltb (b.capacity - b.end_index) (length bytes) ≡ true =
      ground (arith, len, g.room.0, g.room.1, g.valid.ordered) in
    rw room refl

find-append : (z : ℕ) (p b : List ℕ) → find z p ≡ length p → find z (p ++ b) ≡ length p + find z b
unfolding find
find-append z [] b h = omega arith
find-append z (x ∷ p) b h = ground (arith, find-append z p b)

module _ {D : Type 0} (app : App D) (sentinel : ℕ) where
  -- The buffer after pieces, whatever the replies.
  unfoldable pub sentinel_run : Buffer → List (List ℕ) → D → Buffer × D
  unfolding sentinel_recv
  sentinel_run b [] d = (b, d)
  sentinel_run b (p ∷ ps) d =
      let r = (sentinel_recv app sentinel b p d).0 in sentinel_run r.0 ps r.1

  abbrev pub Plain : List ℕ → Type 0
  Plain p = find sentinel p ≡ length p

  find-concat :
      (ps : List (List ℕ)) (b : List ℕ)
      → All Plain ps
      → find sentinel (concat ps ++ b) ≡ length (concat ps) + find sentinel b
  unfolding concat
  find-concat [] b h = omega arith
  find-concat (p ∷ ps) b h =
      ap (find sentinel) (append_assoc p (concat ps) b)
      ∙ find-append sentinel p (concat ps ++ b) h.0
      ∙ omega (arith, find-concat ps b h.1, length-append p (concat ps))

  no_sentinel_recv :
      (b : Buffer) (p : List ℕ) (d : D)
      → Plain p
      → (sentinel_recv app sentinel b p d).0 ≡ ((sentinel_buffer b p).0, d)
  unfolding sentinel_recv
  no_sentinel_recv b p d h =
      let e : (find sentinel p == length p) ≡ true = ground (arith, h) in rw e refl

  run-Gathers :
      (max_len : ℕ) (got : List ℕ) (ps : List (List ℕ)) (b : Buffer) (d : D)
      → Gathers max_len got b
      → All Plain ps
      → length got + length (concat ps) ≤ max_len
      → Gathers max_len (got ++ concat ps) (sentinel_run b ps d).0 × ((sentinel_run b ps d).1 ≡ d)
  unfolding sentinel_run concat
  run-Gathers max_len got [] b d g h le =
      (subst (λ l. Gathers max_len l b) (sym (append-nil got)) g, refl)
  run-Gathers max_len got (p ∷ ps) b d g h le =
      let sum : length (p ++ concat ps) ≡ length p + length (concat ps) =
        length-append p (concat ps) in
      let b1 = (sentinel_buffer b p).0 in
      let g1 = fits max_len got p b g (omega (arith, sum)) in
      let next =
        run-Gathers max_len (got ++ p) ps b1 d g1.1 h.1 (omega (arith, sum, length-append got p)) in
      subst (λ (x : Buffer × D). Gathers max_len (got ++ (p ++ concat ps)) x.0 × (x.1 ≡ d))
        (sym (ap (λ (x : Buffer × D). sentinel_run x.0 ps x.1) (no_sentinel_recv b p d h.0)))
        (
          subst (λ l. Gathers max_len l (sentinel_run b1 ps d).0) (append_assoc got p (concat ps))
              next.0,
          next.1,
        )

  -- The buffer once the application was given a frame.
  abbrev pub after_sentinel : List ℕ → D → Buffer × D
  after_sentinel frame d =
      let (d', again) = app frame d in
      (elim again [ none ↦ moved_from | some n ↦ reset_sentinel n ], d')

  take-beyond : (got b : List ℕ) (k : ℕ) → got ++ take k b ≡ take (length got + k) (got ++ b)
  take-beyond got b k =
      let e : length got + k - length got ≡ k = omega arith in
      sym (take-append_beyond (length got + k) got b (omega arith) ∙ ap (λ j. got ++ take j b) e)

  drop-beyond : (got b : List ℕ) (k : ℕ) → drop k b ≡ drop (length got + k) (got ++ b)
  drop-beyond got b k =
      let e : length got + k - length got ≡ k = omega arith in
      sym (drop-append_beyond (length got + k) got b (omega arith) ∙ ap (λ j. drop j b) e)

  close_frame :
      (max_len : ℕ) (got b : List ℕ) (s : Buffer) (d : D)
      → Gathers max_len got s
      → find sentinel b < length b
      → sentinel_recv app sentinel s b d ≡ (
          if leb (length got + find sentinel b + 1) max_len
          then (
            after_sentinel (take (length got + find sentinel b + 1) (got ++ b)) d,
            if ltb 0 (length (drop (length got + find sentinel b + 1) (got ++ b)))
                then leftover (drop (length got + find sentinel b + 1) (got ++ b))
                else result 0,
          )
          else ((s, d), result 1))
  unfolding sentinel_recv sentinel_done
  close_frame max_len got b s d g h =
      let k = find sentinel b in
      let end : (k == length b) ≡ false = ground (arith, h) in
      let first = take (k + 1) b in
      let len : length first ≡ k + 1 = length-take (k + 1) b ∙ omega (arith, h) in
      let j : length got + (k + 1) ≡ length got + k + 1 = omega arith in
      let frame : got ++ first ≡ take (length got + k + 1) (got ++ b) =
        take-beyond got b (k + 1) ∙ ap (λ n. take n (got ++ b)) j in
      let rest : drop (k + 1) b ≡ drop (length got + k + 1) (got ++ b) =
        drop-beyond got b (k + 1) ∙ ap (λ n. drop n (got ++ b)) j in
      elim (Bool-cases (leb (length got + k + 1) max_len)) [
        | inl room ↦
            let f = fits max_len got first s g (let q = leb→le _ _ room in omega (arith, q, len)) in
            rw (end, room, f.0, f.1.holds, frame, rest) refl
        | inr full ↦
            let l = lacks max_len got first s g (
              let q : max_len < length got + k + 1 = ground (arith, full) in
              omega (arith, q, len)) in
            rw (end, full, l) refl
      ]

  -- A frame that ends with the sentinel, after a reset with `max_len`: pieces without the sentinel
  -- that fit reach nobody. The first piece with the sentinel gives the application just the bytes of
  -- all pieces up to the first sentinel, with it, in whatever pieces they came, and the bytes behind are
  -- left over for the source; when they do not fit, the result is an error and nothing changes.
  pub sentinel_recv-pieces :
      (max_len : ℕ) (ps : List (List ℕ)) (b : List ℕ) (d : D)
      → All Plain ps
      → length (concat ps) ≤ max_len
      → find sentinel b < length b
      → let bytes = concat ps ++ b in
        let n = find sentinel bytes + 1 in
        let s = sentinel_run (reset_sentinel max_len) ps d in
        (s.1 ≡ d)
        × (sentinel_recv app sentinel s.0 b d ≡ (
            if leb n max_len
            then (
              after_sentinel (take n bytes) d,
              if ltb 0 (length (drop n bytes)) then leftover (drop n bytes) else result 0,
            )
            else ((s.0, d), result 1)))
  sentinel_recv-pieces max_len ps b d plain small h =
      let g =
        run-Gathers max_len [] ps (reset_sentinel max_len) d (reset-Gathers max_len) plain
          (omega (arith, small)) in
      let s = (sentinel_run (reset_sentinel max_len) ps d).0 in
      (
        g.1,
        subst
            (λ k. sentinel_recv app sentinel s b d ≡ (
              if leb (k + 1) max_len
              then (
                after_sentinel (take (k + 1) (concat ps ++ b)) d,
                if ltb 0 (length (drop (k + 1) (concat ps ++ b)))
                    then leftover (drop (k + 1) (concat ps ++ b))
                    else result 0,
              )
              else ((s, d), result 1)))
            (sym (find-concat ps b plain)) (close_frame max_len (concat ps) b s d g.0 h),
      )
