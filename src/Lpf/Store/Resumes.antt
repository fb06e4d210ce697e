-- ===== src/Lpf/Store/Resumes.antt =====
-- The storing buffer keeps the promises of a step that resumes.
use open_weaver.Base.{ℕ, ◌+◌, ◌*◌, ◌<◌, ◌≡◌, Bool, Option, none, some, List, ◌++◌, arith, length}
use open_weaver.Lpf.Resume.{and_then, view}
use open_weaver.Lpf.Resume.Laws.{Resumes, resume-append, Settles, Splits}
use open_weaver.Lpf.Store.{StoreThenForwardBuffer, store_step, store_recv}
use open_weaver.Lpf.Resume.Pieces.{Keeps, resume-IsValid}
use open_weaver.Lpf.Store.Lengths.{stepping, IsValid, weight, light, length-Settles, length-Splits}
use open_weaver.Lpf.Store.Messages.{message-Settles, message-Splits}

module _ {D : Type 0} (deliver : ℕ → List ℕ → D → Bool × D) where
  step-Settles :
      (buf : Option (List ℕ)) (l z i : ℕ) (a : List ℕ) (d : D)
      → let s : StoreThenForwardBuffer = record { buf = buf; length = l; size = z; id = i } in
        IsValid s
        → 0 < length a
        → Settles (stepping deliver) weight IsValid s a (stepping deliver s a d)
  unfolding store_step
  step-Settles none l z i a d v p = length-Settles deliver l z i a d v p
  step-Settles (some m) l z i a d v p = message-Settles deliver m l z i a d v p

  step-Splits :
      (buf : Option (List ℕ)) (l z i : ℕ) (a b : List ℕ) (d : D)
      → let s : StoreThenForwardBuffer = record { buf = buf; length = l; size = z; id = i } in
        IsValid s
        → 0 < length a
        → Splits (stepping deliver) weight IsValid s a b d (stepping deliver s a d)
  unfolding store_step
  step-Splits none l z i a b d v p = length-Splits deliver l z i a b d v p
  step-Splits (some m) l z i a b d v p = message-Splits deliver m l z i a b d v p

  store_step-Resumes : Resumes (stepping deliver) weight IsValid
  store_step-Resumes = record {
    light = light;
    settles = λ s a d v p. step-Settles s.buf s.length s.size s.id a d v p;
    splits = λ s a b d v p q. step-Splits s.buf s.length s.size s.id a b d v p;
  }

  -- A storing buffer that is valid receives bytes in two pieces as it receives them in one: the same
  -- messages reach the delegate, the result is the same, and so is the buffer unless a call fails,
  -- after which nothing is received.
  pub store_recv-append :
      (s : StoreThenForwardBuffer) (a b : List ℕ) (d : D)
      → IsValid s
      → view (store_recv deliver s (a ++ b) d)
        ≡ view (and_then (store_recv deliver s a d) (λ s' d'. store_recv deliver s' b d'))
  unfolding store_recv
  store_recv-append s a b d v =
      resume-append (stepping deliver) weight IsValid store_step-Resumes (2 * length (a ++ b) + 2)
        (2 * length a + 2) (2 * length b + 2) s a b d v (omega (arith, light s))
        (omega (arith, light s)) (omega arith)

  pub store_recv-IsValid :
      (s : StoreThenForwardBuffer) (a : List ℕ) (d : D)
      → IsValid s
      → Keeps IsValid (store_recv deliver s a d)
  unfolding store_recv
  store_recv-IsValid s a d v =
      resume-IsValid (stepping deliver) weight IsValid store_step-Resumes (2 * length a + 2) s a d v
