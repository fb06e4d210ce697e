-- ===== src/Stream/Flight.antt =====
-- The accounts of a transport: the bytes in flight against the packets that were sent and are neither
-- acknowledged nor lost.
pub mod Sending
pub mod Losses
pub mod Between
pub mod Acks
pub mod Flush
mod Tests
use open_weaver.Base.{
  ℕ, zero, suc, ◌+◌, ◌-◌, ◌*◌, ◌/◌, ◌%◌, ◌^◌, ◌≤◌, ◌<◌, min, max, ◌≡◌, refl, sym, ap, subst, ◌∙◌,
  ◌≢◌, ◌↔◌, ◌⊎◌, inl, inr, Bool, true, false, not, ◌&&◌, ◌||◌, Option, none, some, List, [], ◌∷◌,
  ◌++◌, map, arith, ltb, leb, ◌==◌, if◌then◌else◌, ltb→lt, lt→ltb, leb→le, ==_iff, ==_refl,
  Bool-cases, Option-cases, add64, sub64, length, take, drop, length-append, length-take,
  length-drop, take-append-drop, All, take_all, take-append_length, drop-append_length,
}
use open_weaver.Dict.{
  Dict, lookup, assign, try_emplace, erase, total, KeysBelow, lookup-KeysBelow, total-try_emplace,
}
use open_weaver.Dict.Sorted.{Sorted, Sorted-assign, KeysBelow-assign, KeysBelow-weaken}
use open_weaver.Stream.Types.{Transport, SentPacketInfo, Effect, sends, data_msg}

abbrev pub packet_length : SentPacketInfo → ℕ
packet_length p = p.length

-- Every length fits a 64-bit word.
abbrev pub FitLengths : Dict SentPacketInfo → Type 0
FitLengths [] = Unit {0}
FitLengths ((key, p) ∷ m) = (p.length < 2 ^ 64) × FitLengths m

pub FitLengths-assign :
    (k : ℕ) (p : SentPacketInfo) (m : Dict SentPacketInfo)
    → p.length < 2 ^ 64
    → FitLengths m
    → FitLengths (assign k p m)
unfolding assign
FitLengths-assign k p [] w h = (w, tt)
FitLengths-assign k p ((j, q) ∷ m) w h = ground (arith, FitLengths-assign k p m w h.1)

-- The sent packets are those of numbers below `n`, in order, and their lengths add up to the bytes in
-- flight.
pub record Kept (n : ℕ) (sent : Dict SentPacketInfo) (in_flight : ℕ) : Type 0 where
  pub below : KeysBelow n sent
  pub sorted : Sorted sent
  pub fit : FitLengths sent
  pub balance : in_flight ≡ total packet_length sent % 2 ^ 64

-- `n` packets were sent since the connection began; the accounts hold up to the packet number 2 ^ 64 - 1.
pub record Books (n last : ℕ) (sent lost : Dict SentPacketInfo) (in_flight : ℕ) : Type 0 where
  pub number : add64 last 1 ≡ n % 2 ^ 64
  pub bound : in_flight < 2 ^ 64
  pub lost_fit : FitLengths lost
  pub kept : n ≤ 2 ^ 64 → Kept n sent in_flight

abbrev pub Accounted : ℕ → Transport → Type 0
Accounted n t = Books n t.last_sent_packet t.sent_packets t.lost_packets t.bytes_in_flight

-- The DATA messages that were sent.
abbrev pub packets_sent : List Effect → ℕ
packets_sent [] = 0
packets_sent (sends (data_msg fin src dst packet_number id offset len payload) ∷ out) =
    suc (packets_sent out)
packets_sent (_ ∷ out) = packets_sent out

-- After a step from a transport that had sent `n` packets.
pub record Accounts (n : ℕ) (t u : Transport) : Type 0 where
  pub m : ℕ
  pub count : m + packets_sent t.out ≡ n + packets_sent u.out
  pub books : Accounted m u

pub Accounts-trans :
    (n : ℕ) (t u v : Transport) (a : Accounts n t u) → Accounts a.m u v → Accounts n t v
Accounts-trans n t u v a b = record {
  m = b.m;
  count = omega (arith, a.count, b.count);
  books = b.books;
}

-- One more packet under the next number.
pub Books-send :
    (n last : ℕ) (p : SentPacketInfo) (sent lost : Dict SentPacketInfo) (in_flight : ℕ)
    → p.length < 2 ^ 64
    → Books n last sent lost in_flight
    → Books
        (suc n)
        (add64 last 1)
        (try_emplace (add64 last 1) p sent)
        lost
        (add64 in_flight p.length)
unfolding try_emplace
Books-send n last p sent lost in_flight w b = record {
  bound = omega arith;
  lost_fit = b.lost_fit;
  number = omega (arith, b.number);
  kept = λ le.
      let k = b.kept (omega arith) in
      let number : add64 last 1 ≡ n = omega (arith, b.number) in
      let fresh = lookup-KeysBelow n n sent k.below (omega arith) in
      let added : try_emplace n p sent ≡ assign n p sent = rw (fresh, try_emplace) refl in
      rw (number, added)
        (record {
          below =
              KeysBelow-assign (suc n) n p sent (omega arith)
                (KeysBelow-weaken n (suc n) sent (omega arith) k.below);
          sorted = Sorted-assign n p sent k.sorted;
          fit = FitLengths-assign n p sent w k.fit;
          balance =
              let e = total-try_emplace packet_length n p sent fresh in
              let e' = rw added at e in omega (arith, k.balance);
        });
}
