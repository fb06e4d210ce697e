-- ===== src/Stream/Wire.antt =====
-- stream/Messages.hpp and `did_recv` of StreamTransport.hpp: the messages as bytes. Numbers are little
-- endian. A sender writes its own connection id first, and a receiver reads it as the destination.
pub mod RoundTrip
use open_weaver.Base.{
  ℕ, zero, suc, ◌+◌, ◌-◌, ◌*◌, ◌/◌, ◌%◌, ◌^◌, ◌≤◌, ◌<◌, min, max, ◌≡◌, refl, sym, ap, subst, ◌∙◌,
  ◌≢◌, ◌↔◌, ◌⊎◌, inl, inr, Bool, true, false, not, ◌&&◌, ◌||◌, Option, none, some, List, [], ◌∷◌,
  ◌++◌, map, arith, ltb, leb, ◌==◌, if◌then◌else◌, ltb→lt, lt→ltb, leb→le, ==_iff, ==_refl,
  Bool-cases, Option-cases, add64, sub64, length, take, drop, length-append, length-take,
  length-drop, take-append-drop, All,
}
use open_weaver.Bytes.{le, of_le}
use open_weaver.Stream.Types.{
  Message, data_msg, ack_msg, dial_msg, dialconf_msg, conf_msg, rst_msg, skipstream_msg,
  flushstream_msg, flushconf_msg, close_msg, closeconf_msg,
}

-- `read_uint<8n>_le_unsafe(offset)`
abbrev pub field : (n offset : ℕ) → List ℕ → ℕ
field n offset bytes = of_le (take n (drop offset bytes))

abbrev pub header : (type src dst : ℕ) → List ℕ
header type src dst = 0 ∷ type ∷ le 4 src ++ le 4 dst

unfoldable pub le_all : List ℕ → List ℕ
unfolding le
le_all [] = []
le_all (x ∷ xs) = le 8 x ++ le_all xs

-- The constructors and setters of the messages.
unfoldable pub encode : Message → List ℕ
unfolding le le_all
encode (data_msg fin src dst packet_number id offset len payload) =
    header (if fin then 1 else 0) src dst
    ++ (le 8 packet_number ++ (le 2 id ++ (le 8 offset ++ (le 2 len ++ payload))))
encode (ack_msg src dst packet_number ranges) =
    header 2 src dst ++ (le 2 (length ranges) ++ (le 8 packet_number ++ le_all ranges))
encode (dial_msg src dst payload) = header 3 src dst ++ payload
encode (dialconf_msg src dst payload) = header 4 src dst ++ payload
encode (conf_msg src dst) = header 5 src dst
encode (rst_msg src dst) = header 6 src dst
encode (skipstream_msg src dst id offset) = header 7 src dst ++ (le 2 id ++ le 8 offset)
encode (flushstream_msg src dst id offset) = header 8 src dst ++ (le 2 id ++ le 8 offset)
encode (flushconf_msg src dst id) = header 9 src dst ++ le 2 id
encode (close_msg src dst reason) = header 12 src dst ++ le 2 reason
encode (closeconf_msg src dst) = header 11 src dst

-- The ranges of an ACK, from the 20th byte on.
unfoldable pub read_ranges : ℕ → List ℕ → List ℕ
unfolding of_le
read_ranges zero bytes = []
read_ranges (suc n) bytes = of_le (take 8 bytes) ∷ read_ranges n (drop 8 bytes)

abbrev pub src_conn_id : List ℕ → ℕ
src_conn_id = field 4 6

abbrev pub dst_conn_id : List ℕ → ℕ
dst_conn_id = field 4 2

-- `validate` of a message whose header has `n` bytes, and the message.
abbrev pub checked : ℕ → List ℕ → Message → Option Message
checked n bytes m = if ltb (length bytes) n then none else some m

-- The switch of `did_recv` with the getters and `validate` of each message.
unfoldable pub parse : ℕ → List ℕ → Option Message
unfolding of_le read_ranges
parse type bytes =
    let src = src_conn_id bytes in
    let dst = dst_conn_id bytes in
    if leb type 1
    then checked 30 bytes (
        data_msg (type == 1) src dst (field 8 10 bytes) (field 2 18 bytes) (field 8 20 bytes)
          (field 2 28 bytes) (drop 30 bytes))
    else if type == 2
    then (if not (length bytes == 20 + field 2 10 bytes * 8)
        then none
        else checked 20 bytes
            (ack_msg src dst (field 8 12 bytes) (read_ranges (field 2 10 bytes) (drop 20 bytes))))
    else if type == 3
    then checked 10 bytes (dial_msg src dst (drop 10 bytes))
    else if type == 4
    then checked 10 bytes (dialconf_msg src dst (drop 10 bytes))
    else if type == 5
    then checked 10 bytes (conf_msg src dst)
    else if type == 6
    then checked 10 bytes (rst_msg src dst)
    else if type == 7
    then checked 20 bytes (skipstream_msg src dst (field 2 10 bytes) (field 8 12 bytes))
    else if type == 8
    then checked 20 bytes (flushstream_msg src dst (field 2 10 bytes) (field 8 12 bytes))
    else if type == 9
    then checked 12 bytes (flushconf_msg src dst (field 2 10 bytes))
    else none

unfoldable pub decode : List ℕ → Option Message
unfolding parse
decode [] = none
decode (version ∷ []) = none
decode (version ∷ type ∷ rest) = if version == 0 then parse type (version ∷ type ∷ rest) else none
