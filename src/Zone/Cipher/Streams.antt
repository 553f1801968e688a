-- ===== src/Zone/Cipher/Streams.antt =====
-- The stream and datagram messages of zone/crypto.go. A slice behind a test of the length
-- is in range, and is written as `take` and `drop`.
use linksocks.Prelude.{
  ℕ, ◌+◌, Bool, not, ◌||◌, Option, none, some, [], ◌∷◌, ◌==◌, ltb, if◌then◌else◌, Bytes, length,
  take, drop, replicate, Result, ok, err, panic, plain, Error, get_elem?, get_or, ◌>>=◌, reject,
  ◌>>◌, index, slice_from,
}
use linksocks.Prelude.ByteOrder.{u16_bytes, u32_bytes, u16_of, u32_of}
use linksocks.Zone.Addresses.{Addr}
use linksocks.Zone.Cipher.State.{Aead, PacketCipher, peer_at, seal, open_peer_message}

abbrev pub kind_stream : ℕ
kind_stream = 2

abbrev pub kind_datagram : ℕ
kind_datagram = 3

abbrev pub stream_data_header : ℕ
stream_data_header = 14

abbrev pub max_stream_data : ℕ
max_stream_data = 16384

abbrev pub max_stream_reason : ℕ
max_stream_reason = 64

abbrev pub datagram_header : ℕ
datagram_header = 21

-- `chacha20poly1305.Overhead`
abbrev pub overhead : ℕ
overhead = 16

abbrev pub op_open : ℕ
op_open = 1

abbrev pub op_accept : ℕ
op_accept = 2

abbrev pub op_refuse : ℕ
op_refuse = 3

abbrev pub op_data : ℕ
op_data = 4

abbrev pub op_close : ℕ
op_close = 5

abbrev pub op_reset : ℕ
op_reset = 6

unfoldable pub open_message : ℕ → Addr → Addr → ℕ → Bytes
open_message id src dst port =
    kind_stream ∷ op_open ∷ u32_bytes id (u32_bytes src (u32_bytes dst (u16_bytes port [])))

unfoldable pub accept_message : ℕ → Bytes
accept_message id = kind_stream ∷ op_accept ∷ u32_bytes id []

unfoldable pub refuse_message : ℕ → ℕ → Bytes → Bytes
refuse_message id code reason =
    let short =
      if ltb max_stream_reason (length reason) then take max_stream_reason reason else reason in
    kind_stream ∷ op_refuse ∷ u32_bytes id (u16_bytes code short)

unfoldable pub close_message : ℕ → Bytes
close_message id = kind_stream ∷ op_close ∷ u32_bytes id []

unfoldable pub reset_message : ℕ → ℕ → Bytes
reset_message id code = kind_stream ∷ op_reset ∷ u32_bytes id (u16_bytes code [])

-- The opcode, the stream identifier and the fields behind them.
unfoldable pub stream_op : Bytes → Result (ℕ × ℕ × Bytes)
stream_op raw = do
  reject (ltb (length raw) 6) "invalid zone stream message"
  kind ← index raw 0
  reject (not (kind == kind_stream)) "invalid zone stream message"
  op ← index raw 1
  reject (ltb op op_open || ltb op_reset op) "invalid zone stream opcode"
  w ← index raw 2
  x ← index raw 3
  y ← index raw 4
  z ← index raw 5
  rest ← slice_from raw 6
  ok (op, u32_of w x y z, rest)

-- The number of four bytes at `i`, which are in range.
abbrev pub uint32_in : Bytes → ℕ → ℕ
uint32_in b i = u32_of (get_or b i 0) (get_or b (i + 1) 0) (get_or b (i + 2) 0) (get_or b (i + 3) 0)

abbrev pub uint16_in : Bytes → ℕ → ℕ
uint16_in b i = u16_of (get_or b i 0) (get_or b (i + 1) 0)

abbrev pub stream_header : ℕ → Bytes
stream_header id = kind_stream ∷ op_data ∷ u32_bytes id (replicate 8 0)

-- `len(payload) == 0 || len(payload) > maxStreamData`
unfoldable pub bad_stream_size : Bytes → Bool
bad_stream_size payload = length payload == 0 || ltb max_stream_data (length payload)

unfoldable pub validate_stream : Bytes → Option Error
validate_stream payload =
    if bad_stream_size payload then some (plain "invalid zone stream payload size") else none

abbrev pub map_ok {ℓ κ} : {A : Type ℓ} {B : Type κ} → (A → B) → Result A → Result B
map_ok f r = r >>= λ a. ok (f a)

pub record Datagram : Type 0 where
  pub peer : ℕ
  pub src : Addr
  pub dst : Addr
  pub src_port : ℕ
  pub dst_port : ℕ
  pub payload : Bytes

unfoldable pub datagram_of : ℕ → Bytes → Bytes → Datagram
datagram_of peer raw payload = record {
  peer = peer;
  src = uint32_in raw 1;
  dst = uint32_in raw 5;
  src_port = uint16_in raw 9;
  dst_port = uint16_in raw 11;
  payload = payload;
}

module _ (aead : Aead) where
  unfoldable pub seal_stream_data : PacketCipher → ℕ → ℕ → Bytes → PacketCipher × Result Bytes
  seal_stream_data c peer id payload =
      if bad_stream_size payload
      then (c, err (plain "invalid zone stream payload size"))
      else elim (get_elem? c.store peer) [
        | none ↦ (c, panic)
        | some p ↦ seal aead c peer (some p.ip) (stream_header id) 6 payload
      ]

  unfoldable pub open_stream_data : PacketCipher → ℕ → Bytes → PacketCipher × Result (ℕ × Bytes)
  open_stream_data c peer raw =
      if ltb (length raw) (stream_data_header + overhead)
        || (ltb (stream_data_header + max_stream_data + overhead) (length raw)
            || (not (get_or raw 0 0 == kind_stream) || not (get_or raw 1 0 == op_data)))
      then (c, err (plain "invalid zone stream data message"))
      else elim (get_elem? c.store peer) [
        | none ↦ (c, panic)
        | some p ↦
            let (c', r) =
              open_peer_message aead c peer p.ip (take stream_data_header raw) 6
                (drop stream_data_header raw) validate_stream in
            (c', map_ok (λ payload. (uint32_in raw 2, payload)) r)
      ]

  unfoldable pub seal_datagram : PacketCipher → Addr → ℕ → ℕ → Bytes → PacketCipher × Result Bytes
  seal_datagram c dst src_port dst_port payload = elim (peer_at c.peers dst) [
    | none ↦ (c, err (plain "datagram has no matching zone peer"))
    | some peer ↦
        seal aead c peer (some dst)
          (kind_datagram
            ∷ u32_bytes c.self
                (u32_bytes dst (u16_bytes src_port (u16_bytes dst_port (replicate 8 0)))))
          13 payload
  ]

  -- The part of `openDatagram` behind the tests of the message and of its addresses.
  unfoldable pub open_datagram_from : PacketCipher → ℕ → Bytes → PacketCipher × Result Datagram
  open_datagram_from c peer raw =
      let (c', r) =
        open_peer_message aead c peer (uint32_in raw 1) (take datagram_header raw) 13
          (drop datagram_header raw) (λ _. none) in
      (c', map_ok (datagram_of peer raw) r)

  unfoldable pub open_datagram : PacketCipher → Bytes → PacketCipher × Result Datagram
  open_datagram c raw =
      if ltb (length raw) (datagram_header + overhead) || not (get_or raw 0 0 == kind_datagram)
      then (c, err (plain "invalid zone datagram message"))
      else elim (peer_at c.peers (uint32_in raw 1)) [
        | none ↦ (c, err (plain "zone datagram from an unknown address"))
        | some peer ↦
            if not (uint32_in raw 5 == c.self)
            then (c, err (plain "zone datagram from an unknown address"))
            else open_datagram_from c peer raw
      ]
