-- ===== src/Lpf/CutThrough/Stores.antt =====
-- A delegate that puts the bytes it is passed together receives what the storing buffer delivers.
use open_weaver.Base.{
  ℕ, zero, suc, ◌+◌, ◌*◌, ◌≡◌, refl, sym, ap, ◌∙◌, inl, inr, Bool, true, false, Option, none, some,
  List, [], ◌∷◌, ◌++◌, ltb, Bool-cases, length, take, sub64,
}
use open_weaver.Lpf.Resume.{Received, Step, done, again, received, resume}
use open_weaver.Lpf.Store.{
  StoreThenForwardBuffer, accumulate, max_message, store_recv, store_step, store_length,
  store_message,
}
use open_weaver.Lpf.CutThrough.{
  CutThroughBuffer, CutThroughDelegate, cut_recv, cut_step, cut_length, cut_message,
}
use open_weaver.Lpf.Resume.Laws.{Step-cases, resume_done, resume_again}

abbrev pub stored : StoreThenForwardBuffer → List ℕ
stored s = elim s.buf [ none ↦ [] | some m ↦ m ]

-- The cut-through buffer at the same place in the bytes.
abbrev pub cut_of : StoreThenForwardBuffer → CutThroughBuffer
cut_of s = record {
  cut_through = elim s.buf [ none ↦ false | some m ↦ true ];
  length = s.length;
  size = s.size;
  id = s.id;
}

module _ {D : Type 0} (deliver : ℕ → List ℕ → D → D) where
  -- It keeps the bytes of the message that is coming in.
  abbrev pub assembling : CutThroughDelegate (List ℕ × D)
  assembling = record {
    cut_through_recv_start = λ id length (m, d). ([], d);
    cut_through_recv_bytes = λ id bytes (m, d). (true, (m ++ bytes, d));
    cut_through_recv_end = λ id (m, d). ([], deliver id m d);
  }

  abbrev pub accepting : ℕ → List ℕ → D → Bool × D
  accepting id m d = (true, deliver id m d)

  abbrev cut_step_of : Step StoreThenForwardBuffer D → Step CutThroughBuffer (List ℕ × D)
  cut_step_of (done r s d) = done r (cut_of s) (stored s, d)
  cut_step_of (again s bytes d) = again (cut_of s) bytes (stored s, d)

  abbrev pub cut_received :
      Received StoreThenForwardBuffer D → Received CutThroughBuffer (List ℕ × D)
  cut_received r = received r.res (cut_of r.buffer) (stored r.buffer, r.delegate)

  step-same :
      (buf : Option (List ℕ)) (l z i : ℕ) (a : List ℕ) (d : D)
      → let s : StoreThenForwardBuffer = record { buf = buf; length = l; size = z; id = i } in
        cut_step assembling (cut_of s) a (stored s, d) ≡ cut_step_of (store_step accepting s a d)
  unfolding cut_step store_step cut_length store_length cut_message store_message
  step-same none l z i a d = elim (Bool-cases (ltb (length a + z) 8)) [
    | inl lt ↦ rw lt refl
    | inr ge ↦ elim (Bool-cases (ltb (length a) (sub64 8 z))) [
      | inl past ↦ rw (ge, past) refl
      | inr within ↦ elim (Bool-cases (ltb max_message (accumulate l (take (sub64 8 z) a)))) [
        | inl big ↦ rw (ge, within, big) refl
        | inr small ↦ rw (ge, within, small) refl
      ]
    ]
  ]
  step-same (some m) l z i a d = elim (Bool-cases (ltb (length a + z) l)) [
    | inl lt ↦ rw lt refl
    | inr ge ↦ rw ge refl
  ]

  resume-same :
      (n : ℕ) (s : StoreThenForwardBuffer) (a : List ℕ) (d : D)
      → resume (cut_step assembling) n (cut_of s) a (stored s, d)
        ≡ cut_received (resume (store_step accepting) n s a d)
  unfolding resume
  resume-same zero s a d = refl
  resume-same (suc n) s [] d = refl
  resume-same (suc n) s (b ∷ a) d =
      let cut = cut_step assembling in
      let store = store_step accepting in
      let same : cut (cut_of s) (b ∷ a) (stored s, d) ≡ cut_step_of (store s (b ∷ a) d) =
        step-same s.buf s.length s.size s.id (b ∷ a) d in
      elim (Step-cases (store s (b ∷ a) d)) [
        | inl (s', d', e) ↦
            resume_done cut n (cut_of s) b a (stored s, d) (same ∙ ap cut_step_of e)
            ∙ sym (ap cut_received (resume_done store n s b a d e))
        | inr (inl (r, s', d', (e, f))) ↦
            resume_done cut n (cut_of s) b a (stored s, d) (same ∙ ap cut_step_of e)
            ∙ sym (ap cut_received (resume_done store n s b a d e))
        | inr (inr (s', rest, d', e)) ↦
            resume_again cut n (cut_of s) b a (stored s, d) (same ∙ ap cut_step_of e)
            ∙ resume-same n s' rest d'
            ∙ sym (ap cut_received (resume_again store n s b a d e))
      ]

  -- On any bytes and at any place in them, a delegate that assembles what is cut through ends up with
  -- the messages that the storing buffer delivers, with the bytes of the message that is still coming
  -- in, and the two buffers return the same and stand at the same place.
  pub cut_recv-store_recv :
      (s : StoreThenForwardBuffer) (bytes : List ℕ) (d : D)
      → cut_recv assembling (cut_of s) bytes (stored s, d)
        ≡ cut_received (store_recv accepting s bytes d)
  unfolding cut_recv store_recv
  cut_recv-store_recv s bytes d = resume-same (2 * length bytes + 2) s bytes d
