-- ===== src/Stream/Send/Holding.antt =====
-- What the queues of a sender hold, and what it has sent.
use open_weaver.Base.{
  ℕ, zero, suc, ◌≤◌, ◌≡◌, ap, subst, inl, inr, Option, none, some, List, [], ◌∷◌, ◌++◌, arith, ◌==◌,
  ==_iff, Bool-cases, length, take, drop,
}
use open_weaver.Dict.{Dict, lookup, assign, lookup-assign}
use open_weaver.Stream.Types.{Transport, SendStream, DataItem}
use open_weaver.Stream.Send.{find_item}
use open_weaver.Stream.Send.Sound.{AllSound, Holds}

-- The items of a queue hold bytes of the stream, and are sent up to some place in them.
abbrev pub AllHold : (ℕ → ℕ) → List DataItem → Type 0
AllHold f [] = Unit {0}
AllHold f (item ∷ items) = Holds f item × (item.sent_offset ≤ length item.bytes) × AllHold f items

pub AllHold-append :
    (f : ℕ → ℕ) (xs ys : List DataItem) → AllHold f xs → AllHold f ys → AllHold f (xs ++ ys)
AllHold-append f [] ys a b = b
AllHold-append f (x ∷ xs) ys a b = (a.0, a.1, AllHold-append f xs ys a.2 b)

pub AllHold-take :
    (f : ℕ → ℕ) (n : ℕ) (xs : List DataItem)
    → AllHold f xs
    → AllHold f (take n xs) × AllHold f (drop n xs)
AllHold-take f zero xs a = (tt, a)
AllHold-take f (suc n) [] a = (tt, tt)
AllHold-take f (suc n) (x ∷ xs) a = let r = AllHold-take f n xs a.2 in ((a.0, a.1, r.0), r.1)

pub find_item-Holds :
    (f : ℕ → ℕ) (o : ℕ) (items : List DataItem) (item : DataItem)
    → AllHold f items
    → find_item o items ≡ some item
    → Holds f item
unfolding find_item
find_item-Holds f o [] item a h = ground arith
find_item-Holds f o (x ∷ xs) item a h = ground (arith, find_item-Holds f o xs item a.2, a.0)

-- The streams' queues hold the bytes of the streams `f`, and what was sent so far carries them.
pub record Sender (f : ℕ → ℕ → ℕ) (t : Transport) : Type 0 where
  pub sound : AllSound f t.out
  pub nonce : length t.keys.nonce ≡ 12
  pub queues :
      (id : ℕ) (s : SendStream) → lookup id t.send_streams ≡ some s → AllHold (f id) s.data_queue

-- The queues after a stream was put back.
pub put-queues :
    (f : ℕ → ℕ → ℕ) (id : ℕ) (s : SendStream) (m : Dict SendStream)
    → AllHold (f id) s.data_queue
    → ((j : ℕ) (x : SendStream) → lookup j m ≡ some x → AllHold (f j) x.data_queue)
    → (j : ℕ) (x : SendStream) → lookup j (assign id s m) ≡ some x
    → AllHold (f j) x.data_queue
put-queues f id s m h old j x found = elim (Bool-cases (id == j)) [
  | inl same ↦
      let met : ◌≡◌ {A = Option SendStream} (some s) (some x) =
        rw (lookup-assign id j, same) at found in
      let is : s ≡ x =
        ap (λ (o : Option SendStream). elim o as (λ _. SendStream) [ none ↦ s | some y ↦ y ]) met in
      subst (λ i. AllHold (f i) x.data_queue) ((==_iff id j).0 same)
        (subst (λ y. AllHold (f id) y.data_queue) is h)
  | inr other ↦ old j x (rw (lookup-assign id j, other) at found)
]
