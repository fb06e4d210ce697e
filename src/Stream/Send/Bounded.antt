-- ===== src/Stream/Send/Bounded.antt =====
-- Packets whose pointers lead to an item in which they lie.
use open_weaver.Base.{
  ℕ, ◌+◌, ◌≤◌, ◌≡◌, sym, ap, subst, ◌∙◌, inl, inr, Option, none, some, [], ◌∷◌, arith, ◌==◌, ==_iff,
  Bool-cases, Option-cases, length,
}
use open_weaver.Dict.{Dict, lookup, assign, lookup-assign}
use open_weaver.Stream.Types.{Transport, SendStream, DataItem, SentPacketInfo}
use open_weaver.Stream.Send.{note_sent, resolve, find_item}

-- A packet lies in the item that its pointers lead to.
abbrev pub Bounded : Dict SendStream → SentPacketInfo → Type 0
Bounded m p =
    (s : SendStream)
    → lookup p.stream m ≡ some s
    → (item : DataItem) → find_item p.data_item s.data_queue ≡ some item
    → p.offset + p.length ≤ length item.bytes

abbrev pub AllBounded : Dict SendStream → Dict SentPacketInfo → Type 0
AllBounded m [] = Unit {0}
AllBounded m ((key, p) ∷ lost) = Bounded m p × AllBounded m lost

-- A stream is put back with the queue that it had.
pub put-Bounded :
    (id : ℕ) (s s' : SendStream) (m : Dict SendStream) (p : SentPacketInfo)
    → lookup id m ≡ some s
    → s'.data_queue ≡ s.data_queue
    → Bounded m p
    → Bounded (assign id s' m) p
put-Bounded id s s' m p here q b x found item at = elim (Bool-cases (id == p.stream)) [
  | inl same ↦
      let met : ◌≡◌ {A = Option SendStream} (some s') (some x) =
        rw (lookup-assign id p.stream, same) at found in
      let is : s' ≡ x =
        ap (λ (o : Option SendStream). elim o as (λ _. SendStream) [ none ↦ s' | some y ↦ y ])
          met in
      let queue : x.data_queue ≡ s.data_queue =
        ap (λ (y : SendStream). y.data_queue) (sym is) ∙ q in
      b s (subst (λ j. lookup j m ≡ some s) ((==_iff id p.stream).0 same) here) item
        (ap (λ l. find_item p.data_item l) (sym queue) ∙ at)
  | inr other ↦ b x (rw (lookup-assign id p.stream, other) at found) item at
]

pub put-AllBounded :
    (id : ℕ) (s s' : SendStream) (m : Dict SendStream) (lost : Dict SentPacketInfo)
    → lookup id m ≡ some s
    → s'.data_queue ≡ s.data_queue
    → AllBounded m lost
    → AllBounded (assign id s' m) lost
put-AllBounded id s s' m [] here q b = tt
put-AllBounded id s s' m ((key, p) ∷ lost) here q b =
    (put-Bounded id s s' m p here q b.0, put-AllBounded id s s' m lost here q b.1)

pub resolve-found :
    (p : SentPacketInfo) (t : Transport) (s : SendStream) (item : DataItem)
    → resolve p t ≡ some (s, item)
    → (lookup p.stream t.send_streams ≡ some s) × (find_item p.data_item s.data_queue ≡ some item)
unfolding resolve
resolve-found p t s item h = elim (Option-cases (lookup p.stream t.send_streams)) [
  | inl gone ↦ absurd (let bad = rw (resolve, gone) at h in ground arith)
  | inr (x, here) ↦ elim (Option-cases (find_item p.data_item x.data_queue)) [
    | inl lost ↦ absurd (let bad = rw (resolve, here, lost) at h in ground arith)
    | inr (y, at) ↦
        let met : ◌≡◌ {A = Option (SendStream × DataItem)} (some (x, y)) (some (s, item)) =
          rw (resolve, here, at) at h in
        let is : ◌≡◌ {A = SendStream × DataItem} (x, y) (s, item) =
          ap
            (λ (o : Option (SendStream × DataItem)). elim o as (λ _. SendStream × DataItem) [
              | none ↦ (x, y)
              | some q ↦ q
            ])
            met in
        let e0 : x ≡ s = ap (λ (q : SendStream × DataItem). q.0) is in
        let e1 : y ≡ item = ap (λ (q : SendStream × DataItem). q.1) is in
        (
          here ∙ ap some e0,
          ap (λ (z : SendStream). find_item p.data_item z.data_queue) (sym e0) ∙ at ∙ ap some e1,
        )
  ]
]

pub note_sent-queue :
    (item : DataItem) (offset len : ℕ) (s : SendStream)
    → (note_sent item offset len s).data_queue ≡ s.data_queue
unfolding note_sent
note_sent-queue item offset len s = ground arith
