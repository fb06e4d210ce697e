-- ===== src/Stream/Wire/RoundTrip.antt =====
-- What a sender encodes a receiver decodes, with the connection ids exchanged.
use open_weaver.Base.{
  ℕ, ◌*◌, ◌^◌, ◌<◌, ◌≡◌, refl, true, false, some, List, [], ◌∷◌, arith, length, All,
}
use open_weaver.Bytes.{le, of_le, of_le-le}
use open_weaver.Stream.Types.{
  Message, data_msg, ack_msg, dial_msg, dialconf_msg, conf_msg, rst_msg, skipstream_msg,
  flushstream_msg, flushconf_msg, close_msg, closeconf_msg,
}
use open_weaver.Stream.Wire.{le_all, encode, decode, read_ranges}

-- The message as the receiver reads it.
abbrev pub swapped : Message → Message
swapped (data_msg fin src dst packet_number id offset len payload) =
    data_msg fin dst src packet_number id offset len payload
swapped (ack_msg src dst packet_number ranges) = ack_msg dst src packet_number ranges
swapped (dial_msg src dst payload) = dial_msg dst src payload
swapped (dialconf_msg src dst payload) = dialconf_msg dst src payload
swapped (conf_msg src dst) = conf_msg dst src
swapped (rst_msg src dst) = rst_msg dst src
swapped (skipstream_msg src dst id offset) = skipstream_msg dst src id offset
swapped (flushstream_msg src dst id offset) = flushstream_msg dst src id offset
swapped (flushconf_msg src dst id) = flushconf_msg dst src id
swapped (close_msg src dst reason) = close_msg dst src reason
swapped (closeconf_msg src dst) = closeconf_msg dst src

abbrev pub U16 : ℕ → Type 0
U16 x = x < 2 ^ 16

abbrev pub U32 : ℕ → Type 0
U32 x = x < 2 ^ 32

abbrev pub U64 : ℕ → Type 0
U64 x = x < 2 ^ 64

-- Every field fits the width that the message gives it; CLOSE and CLOSECONF are left out.
abbrev pub InWidth : Message → Type 0
InWidth (data_msg fin src dst packet_number id offset len payload) =
    U32 src × U32 dst × U64 packet_number × U16 id × U64 offset × U16 len
InWidth (ack_msg src dst packet_number ranges) =
    U32 src × U32 dst × U64 packet_number × U16 (length ranges) × All U64 ranges
InWidth (dial_msg src dst payload) = U32 src × U32 dst
InWidth (dialconf_msg src dst payload) = U32 src × U32 dst
InWidth (conf_msg src dst) = U32 src × U32 dst
InWidth (rst_msg src dst) = U32 src × U32 dst
InWidth (skipstream_msg src dst id offset) = U32 src × U32 dst × U16 id × U64 offset
InWidth (flushstream_msg src dst id offset) = U32 src × U32 dst × U16 id × U64 offset
InWidth (flushconf_msg src dst id) = U32 src × U32 dst × U16 id
InWidth (close_msg src dst reason) = ⊥
InWidth (closeconf_msg src dst) = ⊥

length-le_all : (xs : List ℕ) → length (le_all xs) ≡ 8 * length xs
unfolding le_all le
length-le_all [] = omega arith
length-le_all (x ∷ xs) = omega (arith, length-le_all xs)

read_ranges-le_all : (xs : List ℕ) → All U64 xs → read_ranges (length xs) (le_all xs) ≡ xs
unfolding read_ranges le_all le of_le
read_ranges-le_all [] h = refl
read_ranges-le_all (x ∷ xs) h = ground (arith, of_le-le 8 x h.0, read_ranges-le_all xs h.1)

decode-encode_ack :
    (src dst packet_number : ℕ) (ranges : List ℕ)
    → InWidth (ack_msg src dst packet_number ranges)
    → decode (encode (ack_msg src dst packet_number ranges))
      ≡ some (ack_msg dst src packet_number ranges)
unfolding encode decode le of_le
decode-encode_ack src dst packet_number ranges h = ground (
  arith,
  of_le-le 4 src,
  of_le-le 4 dst,
  of_le-le 8 packet_number,
  of_le-le 2 (length ranges),
  length-le_all ranges,
  read_ranges-le_all ranges h.4,
)

-- A message whose fields fit their widths is decoded from its own encoding, and the receiver sees the
-- sender's connection ids exchanged. It holds of all messages but CLOSE and CLOSECONF.
pub decode-encode : (m : Message) → InWidth m → decode (encode m) ≡ some (swapped m)
unfolding encode decode le of_le
decode-encode (data_msg true src dst packet_number id offset len payload) h = ground (
  arith,
  of_le-le 4 src,
  of_le-le 4 dst,
  of_le-le 8 packet_number,
  of_le-le 2 id,
  of_le-le 8 offset,
  of_le-le 2 len,
)
decode-encode (data_msg false src dst packet_number id offset len payload) h = ground (
  arith,
  of_le-le 4 src,
  of_le-le 4 dst,
  of_le-le 8 packet_number,
  of_le-le 2 id,
  of_le-le 8 offset,
  of_le-le 2 len,
)
decode-encode (ack_msg src dst packet_number ranges) h =
    decode-encode_ack src dst packet_number ranges h
decode-encode (dial_msg src dst payload) h = ground (arith, of_le-le 4 src, of_le-le 4 dst)
decode-encode (dialconf_msg src dst payload) h = ground (arith, of_le-le 4 src, of_le-le 4 dst)
decode-encode (conf_msg src dst) h = ground (arith, of_le-le 4 src, of_le-le 4 dst)
decode-encode (rst_msg src dst) h = ground (arith, of_le-le 4 src, of_le-le 4 dst)
decode-encode (skipstream_msg src dst id offset) h =
    ground (arith, of_le-le 4 src, of_le-le 4 dst, of_le-le 2 id, of_le-le 8 offset)
decode-encode (flushstream_msg src dst id offset) h =
    ground (arith, of_le-le 4 src, of_le-le 4 dst, of_le-le 2 id, of_le-le 8 offset)
decode-encode (flushconf_msg src dst id) h =
    ground (arith, of_le-le 4 src, of_le-le 4 dst, of_le-le 2 id)
decode-encode (close_msg src dst reason) h = absurd h
decode-encode (closeconf_msg src dst) h = absurd h
