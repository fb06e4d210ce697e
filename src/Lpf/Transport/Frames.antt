-- ===== src/Lpf/Transport/Frames.antt =====
-- The frames that `send` makes are received as the messages that they were made of.
use mathlib.Core.List.{append-nil}
use native.Mathlib.Nat.{pow-suc}
use open_weaver.Base.{
  ℕ, zero, suc, ◌+◌, ◌-◌, ◌*◌, ◌/◌, ◌%◌, ◌^◌, ◌≤◌, ◌<◌, ◌≡◌, refl, sym, ap, subst, ◌∙◌, Bool, true,
  false, some, List, [], ◌∷◌, ◌++◌, map, arith, ltb, length, drop, length-append, length-drop, All,
  take_all, take-append_length, drop-append_length, drop_all,
}
use open_weaver.Bytes.{
  concat, le, length-le, reverse, splice, length-reverse, splice-start, splice-behind,
}
use open_weaver.Core.Buffer.{
  Buffer, contents, create, write_uint_be_unsafe, write_uint_unsafe, bswap,
}
use open_weaver.Core.Buffer.Window.{contents-write}
use open_weaver.Core.Buffer.Endian.{le-bswap}
use open_weaver.Lpf.Resume.{Received, ok, again, received, resume, and_then, view}
use open_weaver.Lpf.Resume.Laws.{resume_again, resume_none}
use open_weaver.Lpf.Resume.Pieces.{receive_all, receive_all-concat}
use open_weaver.Lpf.Store.{
  StoreThenForwardBuffer, accumulate, max_message, store_step, store_recv, store_message, new_store,
  store_length,
}
use open_weaver.Lpf.Store.Lengths.{IsValid, accumulate-append}
use open_weaver.Lpf.Store.Resumes.{store_recv-IsValid, store_recv-append}
use open_weaver.Lpf.Transport.{frame, zeros}

length-zeros : (n : ℕ) → length (zeros n) ≡ n
unfolding zeros
length-zeros zero = refl
length-zeros (suc n) = ap suc (length-zeros n)

contents-create : (n : ℕ) → contents (create (zeros n) n) ≡ zeros n
unfolding contents create
contents-create n = take_all (n - 0) (zeros n) (omega (arith, length-zeros n))

contents-write_be :
    (n : ℕ) (b : Buffer) (pos x : ℕ)
    → contents (write_uint_be_unsafe n b pos x) ≡ splice pos (reverse (le n x)) (contents b)
unfolding write_uint_be_unsafe write_uint_unsafe
contents-write_be n b pos x =
    contents-write b pos (le n (bswap n x)) ∙ ap (λ l. splice pos l (contents b)) (le-bswap n x)

splice_whole : (bs m : List ℕ) → length bs ≡ length m → splice 0 bs m ≡ bs
splice_whole bs m e =
    splice-start bs m (omega (arith, e))
    ∙ ap (λ l. bs ++ l) (drop_all (length bs) m (omega (arith, e)))
    ∙ append-nil bs

-- The length in 8 bytes, highest first, and the message.
frame-eq : (m : List ℕ) → frame m ≡ reverse (le 8 (length m)) ++ m
unfolding frame
frame-eq m =
    let n = length m in
    let head = reverse (le 8 n) in
    let h : length head ≡ 8 = length-reverse (le 8 n) ∙ length-le 8 n in
    let z = zeros (n + 8) in
    contents-write (write_uint_be_unsafe 8 (create z (n + 8)) 0 n) 8 m
    ∙ ap (splice 8 m) (
        contents-write_be 8 (create z (n + 8)) 0 n
        ∙ ap (splice 0 head) (contents-create (n + 8))
        ∙ splice-start head z (omega (arith, h, length-zeros (n + 8))))
    ∙ subst
        (λ k. splice k m (head ++ drop (length head) z) ≡ head ++ splice 0 m (drop (length head) z))
        h (splice-behind head m (drop (length head) z))
    ∙ ap (λ l. head ++ l)
        (splice_whole m (drop (length head) z)
          (omega (arith, h, length-drop (length head) z, length-zeros (n + 8))))

accumulate-reverse-le : (n x : ℕ) → x < 256 ^ n → x < 2 ^ 64 → accumulate 0 (reverse (le n x)) ≡ x
unfolding accumulate le reverse
accumulate-reverse-le zero x h w = omega arith
accumulate-reverse-le (suc n) x h w =
    let i = accumulate-reverse-le n (x / 256) (omega (arith, pow-suc 256 n)) (omega arith) in
    accumulate-append 0 (reverse (le n (x / 256))) (x % 256 ∷ []) ∙ omega (arith, i)

-- A message that `did_recv` passes on.
abbrev pub Fits : List ℕ → Type 0
Fits m = (0 < length m) × (length m ≤ max_message)

module _ {D : Type 0} (deliver : ℕ → List ℕ → D → Bool × D) (id : ℕ) where
  abbrev waiting : List ℕ → StoreThenForwardBuffer
  waiting m = record { buf = some []; length = length m; size = 0; id = id }

  length_step :
      (m : List ℕ) (d : D)
      → Fits m
      → store_step deliver (new_store id) (reverse (le 8 (length m)) ++ m) d ≡ again (waiting m) m d
  unfolding store_step store_length
  length_step m d h =
      let n = length m in
      let head = reverse (le 8 n) in
      let l : length head ≡ 8 = length-reverse (le 8 n) ∙ length-le 8 n in
      let e : ltb (length (head ++ m) + 0) 8 ≡ false = ground (arith, l, length-append head m) in
      let past : ltb (length (head ++ m)) 8 ≡ false = ground (arith, l, length-append head m) in
      let a : accumulate 0 head ≡ n =
        accumulate-reverse-le 8 n (omega (arith, h.1)) (omega (arith, h.1)) in
      let small : ltb max_message n ≡ false = ground (arith, h.1) in
      rw (e, past, take-append_length head m 8 l, drop-append_length head m 8 l, a, small) refl

  message_step :
      (m : List ℕ) (d : D)
      → (deliver id m d).0 ≡ true
      → store_step deliver (waiting m) m d ≡ again (new_store id) [] (deliver id m d).1
  unfolding store_step store_message
  message_step m d acc =
      let e : ltb (length m + 0) (length m) ≡ false = ground arith in
      rw (e, take_all (length m - 0) m (omega arith), drop_all (length m - 0) m (omega arith), acc)
        refl

  go_on :
      (n : ℕ) (s : StoreThenForwardBuffer) (a : List ℕ) (d : D) {s' : StoreThenForwardBuffer}
      {rest : List ℕ} {d' : D}
      → 0 < length a
      → store_step deliver s a d ≡ again s' rest d'
      → resume (store_step deliver) (suc n) s a d ≡ resume (store_step deliver) n s' rest d'
  go_on n s [] d h e = absurd (omega arith)
  go_on n s (b ∷ a) d h e = resume_again (store_step deliver) n s b a d e

  store_recv-frame :
      (m : List ℕ) (d : D)
      → Fits m
      → (deliver id m d).0 ≡ true
      → store_recv deliver (new_store id) (frame m) d
        ≡ received ok (new_store id) (deliver id m d).1
  unfolding store_recv
  store_recv-frame m d h acc =
      let step = store_step deliver in
      let k = 2 * length (frame m) in
      let bytes = reverse (le 8 (length m)) ++ m in
      let fuel : k + 2 ≡ suc (suc k) = omega arith in
      ap (λ n. resume step n (new_store id) (frame m) d) fuel
      ∙ ap (λ (a : List ℕ). resume step (suc (suc k)) (new_store id) a d) (frame-eq m)
      ∙ go_on (suc k) (new_store id) bytes d
          (omega (arith, h.0, length-append (reverse (le 8 (length m))) m)) (length_step m d h)
      ∙ go_on k (waiting m) m d h.0 (message_step m d acc)
      ∙ resume_none step k (new_store id) (deliver id m d).1

  -- The delegate after the messages in turn.
  unfoldable pub deliver_all : List (List ℕ) → D → D
  deliver_all [] d = d
  deliver_all (m ∷ ms) d = deliver_all ms (deliver id m d).1

  receive_frames :
      (ms : List (List ℕ)) (d : D)
      → All Fits ms
      → ((m : List ℕ) (d : D) → (deliver id m d).0 ≡ true)
      → receive_all (store_recv deliver) (map frame ms) (new_store id) d
        ≡ received ok (new_store id) (deliver_all ms d)
  unfolding receive_all deliver_all and_then
  receive_frames [] d h acc = refl
  receive_frames (m ∷ ms) d h acc =
      ap
        (λ (r : Received StoreThenForwardBuffer D).
          and_then r (receive_all (store_recv deliver) (map frame ms)))
        (store_recv-frame m d h.0 (acc m d))
      ∙ receive_frames ms (deliver id m d).1 h.1 acc

  receive-concat :
      (ps : List (List ℕ)) (s : StoreThenForwardBuffer) (d : D)
      → IsValid s
      → view (receive_all (store_recv deliver) ps s d) ≡ view (store_recv deliver s (concat ps) d)
  unfolding store_recv
  receive-concat ps s d v =
      receive_all-concat (store_recv deliver) IsValid
        (λ s d. resume_none (store_step deliver) 2 s d)
        (λ s a d v. store_recv-IsValid deliver s a d v)
        (λ s a b d v. store_recv-append deliver s a b d v) ps s d v

  -- Messages of 1 to 5000000 bytes are framed and sent one behind the other. In whatever pieces the
  -- bytes arrive, a delegate that accepts them is passed just these messages, in order, and the buffer
  -- waits for the next length.
  pub receive_all-frames :
      (ms pieces : List (List ℕ)) (d : D)
      → All Fits ms
      → ((m : List ℕ) (d : D) → (deliver id m d).0 ≡ true)
      → concat pieces ≡ concat (map frame ms)
      → view (receive_all (store_recv deliver) pieces (new_store id) d)
        ≡ (ok, some (new_store id), deliver_all ms d)
  unfolding view
  receive_all-frames ms pieces d h acc e =
      receive-concat pieces (new_store id) d (omega arith)
      ∙ ap (λ (bytes : List ℕ). view (store_recv deliver (new_store id) bytes d)) e
      ∙ sym (receive-concat (map frame ms) (new_store id) d (omega arith))
      ∙ ap view (receive_frames ms d h acc)
