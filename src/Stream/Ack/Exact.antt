-- ===== src/Stream/Ack/Exact.antt =====
-- Which packets an ACK takes off the sent ones.
use open_weaver.Base.{
  ℕ, ◌+◌, ◌-◌, ◌^◌, ◌≤◌, ◌<◌, ◌≡◌, refl, sym, ◌∙◌, inl, inr, Bool, true, false, ◌&&◌, Option, none,
  some, List, [], ◌∷◌, arith, ltb, leb, if◌then◌else◌, Bool-cases, Option-cases, add64, sub64,
}
use open_weaver.AckRanges.Seen.{seen, Fits, seen_below}
use open_weaver.Dict.{Dict, lookup, erase, lookup-erase}
use open_weaver.Stream.Types.{Transport, Env, SentPacketInfo}
use open_weaver.Stream.Send.{resolve}
use open_weaver.Stream.Ack.{
  ack_packet, ack_packets, ack_range, ack_all_ranges, between, overruns, note_largest,
}
use open_weaver.Stream.Flight.Acks.{ack_walk, ack_packet-sent_packets, note_largest-same}

lookup-between :
    (lo hi k : ℕ) (m : Dict SentPacketInfo)
    → lookup k (between lo hi m) ≡ (if leb lo k && leb k hi then lookup k m else none)
unfolding lookup between
lookup-between lo hi k [] = ground arith
lookup-between lo hi k ((j, p) ∷ m) = ground (arith, lookup-between lo hi k m)

-- The entries of a dictionary without the keys of another.
abbrev without : Option SentPacketInfo → Option SentPacketInfo → Option SentPacketInfo
without none old = old
without (some p) old = none

without-erase :
    (key k : ℕ) (p : SentPacketInfo) (rest m m' : Dict SentPacketInfo)
    → m' ≡ m
    → without (lookup k rest) (lookup k (erase key m'))
      ≡ without (lookup k ((key, p) ∷ rest)) (lookup k m)
unfolding lookup
without-erase key k p rest m m' q = elim (Option-cases (lookup k rest)) [
  | inl absent ↦ rw (q, absent, lookup-erase key k m) (ground arith)
  | inr (r, present) ↦ rw (q, present) (ground arith)
]

ack_packets-lookup :
    (app_limited : Bool) (l : Dict SentPacketInfo) (k : ℕ) (t : Transport)
    → (ack_packets app_limited l t).1 ≡ false
    → lookup k (ack_packets app_limited l t).0.sent_packets
      ≡ without (lookup k l) (lookup k t.sent_packets)
unfolding ack_packets lookup
ack_packets-lookup app_limited [] k t r = refl
ack_packets-lookup app_limited ((key, p) ∷ rest) k t r = elim (Option-cases (resolve p t)) [
  | inl gone ↦ absurd (let bad = rw (ack_packets, gone) at r in ground arith)
  | inr (q, here) ↦
      let x = ack_packet app_limited p q t in
      let t' : Transport = record x.0 { sent_packets = erase key x.0.sent_packets } in
      elim (Bool-cases x.1) [
        | inl finished ↦ absurd (let bad = rw (ack_packets, here, finished) at r in ground arith)
        | inr go_on ↦
            let ih =
              ack_packets-lookup app_limited rest k t' (rw (ack_packets, here, go_on) at r) in
            let same = ack_packet-sent_packets app_limited p q t go_on in
            rw (ack_packets, here, go_on)
              (ih ∙ without-erase key k p rest t.sent_packets x.0.sent_packets same)
      ]
]

no_overrun : (lo high : ℕ) (m : Dict SentPacketInfo) → lo ≤ high + 1 → overruns lo high m ≡ false
unfolding overruns
no_overrun lo high [] le = refl
no_overrun lo high ((j, p) ∷ m) le = ground (arith, no_overrun lo high m le)

-- One run of seen numbers, from `top - 1` down.
ack_range-lookup :
    (app_limited : Bool) (top r low high k : ℕ) (t : Transport)
    → 0 < r
    → r ≤ top
    → add64 low 1 ≡ top - r
    → high ≡ top - 1
    → (ack_range app_limited low high t).1 ≡ false
    → lookup k (ack_range app_limited low high t).0.sent_packets
      ≡ (if leb (top - r) k && ltb k top then none else lookup k t.sent_packets)
unfolding ack_range
ack_range-lookup app_limited top r low high k t pos le lo hi cut =
    let fine : overruns (add64 low 1) high t.sent_packets ≡ false =
      no_overrun (add64 low 1) high t.sent_packets (omega arith) in
    let went : (ack_packets app_limited (between (add64 low 1) high t.sent_packets) t).1 ≡ false =
      rw (ack_range, fine) at cut in
    let found = lookup-between (add64 low 1) high k t.sent_packets in
    let range : without
          (if leb (add64 low 1) k && leb k high then lookup k t.sent_packets else none)
          (lookup k t.sent_packets)
        ≡ (if leb (top - r) k && ltb k top then none else lookup k t.sent_packets) =
      elim (Option-cases (lookup k t.sent_packets)) [
        | inl absent ↦ rw (absent, lo, hi) (ground arith)
        | inr (p, present) ↦ rw (present, lo, hi) (ground arith)
      ] in
    rw (ack_range, fine) (ack_packets-lookup app_limited _ k t went ∙ rw found range)

behind_run :
    (here later : Bool) (old : Option SentPacketInfo)
    → (if later then none else if here then none else old)
      ≡ (if (if here then true else later) then none else old)
behind_run true true old = refl
behind_run true false old = refl
behind_run false true old = refl
behind_run false false old = refl

behind_gap :
    (here later : Bool) (old : Option SentPacketInfo)
    → (here ≡ true → later ≡ false)
    → (if later then none else old) ≡ (if (if here then false else later) then none else old)
behind_gap true later old h = rw (h refl) refl
behind_gap false later old h = refl

ack_all_ranges-lookup :
    (app_limited : Bool) (rs : List ℕ) (gap : Bool) (top high k : ℕ) (t : Transport)
    → top < 2 ^ 64
    → high ≡ sub64 top 1
    → Fits top rs
    → (ack_all_ranges app_limited high gap rs t).1 ≡ false
    → lookup k (ack_all_ranges app_limited high gap rs t).0.sent_packets
      ≡ (if seen gap top rs k then none else lookup k t.sent_packets)
unfolding ack_all_ranges seen
ack_all_ranges-lookup app_limited [] gap top high k t w hi f cut = refl
ack_all_ranges-lookup app_limited (r ∷ rs) true top high k t w hi f cut =
    let ih =
      ack_all_ranges-lookup app_limited rs false (top - r) (sub64 high r) k t (omega arith)
        (omega (arith, f.0, f.1)) f.2 cut in
    ih
    ∙ behind_gap (leb (top - r) k && ltb k top) (seen false (top - r) rs k)
        (lookup k t.sent_packets)
        (λ inside.
          let le : top - r ≤ k = ground (arith, inside) in seen_below false (top - r) rs k le)
ack_all_ranges-lookup app_limited (r ∷ rs) false top high k t w hi f cut =
    let one = ack_range app_limited (sub64 high r) high t in
    elim (Bool-cases one.1) [
      | inl stopped ↦
          absurd (let bad = sym stopped ∙ rw (ack_all_ranges, stopped) at cut in ground arith)
      | inr on ↦
          let here =
            ack_range-lookup app_limited top r (sub64 high r) high k t f.0 f.1
              (omega (arith, f.0, f.1)) (omega (arith, f.0, f.1)) on in
          let ih =
            ack_all_ranges-lookup app_limited rs true (top - r) (sub64 high r) k one.0 (omega arith)
              (omega (arith, f.0, f.1)) f.2 (rw (ack_all_ranges, on) at cut) in
          rw (ack_all_ranges, on)
            (ih
              ∙ rw here (
                  behind_run (leb (top - r) k && ltb k top) (seen true (top - r) rs k)
                    (lookup k t.sent_packets)))
    ]

-- What an ACK acknowledges: if its ranges, counted down from its packet number, are not empty and do not
-- go below zero, as those are that a receiver keeps, and its walk through the ranges is not cut short,
-- then the walk takes off the sent packets those whose numbers the ranges stand for as seen, and leaves
-- all others.
pub ack_walk-lookup :
    (e : Env) (largest : ℕ) (ranges : List ℕ) (k : ℕ) (t : Transport)
    → largest + 1 < 2 ^ 64
    → Fits (largest + 1) ranges
    → (ack_walk e largest ranges t).1 ≡ false
    → lookup k (ack_walk e largest ranges t).0.sent_packets
      ≡ (if seen false (largest + 1) ranges k then none else lookup k t.sent_packets)
ack_walk-lookup e largest ranges k t w f cut =
    let same = (note_largest-same e largest t).1 in
    ack_all_ranges-lookup _ ranges false (largest + 1) largest k (note_largest e largest t) w
      (omega arith) f cut
    ∙ rw same refl
