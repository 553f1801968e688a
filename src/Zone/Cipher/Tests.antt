-- ===== src/Zone/Cipher/Tests.antt =====
-- Two members with a cipher that appends sixteen zeros, on which the theorems on zone/crypto.go
-- are run.
use linksocks.Prelude.{
  ℕ, ◌+◌, ◌-◌, ◌≡◌, refl, ap, ◌∙◌, Option, none, some, List, [], ◌∷◌, ◌++◌, Bytes, ok, Error, arith,
  length, take, replicate, take-append, length-append, set,
}
use linksocks.Prelude.ByteOrder.{u16_bytes, u32_bytes, u64_bytes, codes}
use linksocks.Zone.Cipher.State.{Aead, PacketCipher, PeerCipher, is_current, peer_at}
use linksocks.Zone.Cipher.Window.{Arrival}
use linksocks.Zone.Cipher.Streams.{
  kind_stream, op_data, validate_stream, op_open, op_accept, op_refuse, op_close, op_reset,
  open_message, accept_message, refuse_message, close_message, reset_message, stream_op,
  stream_header, seal_stream_data, open_stream_data,
}
use linksocks.Zone.Cipher.Exchange.{
  stream_op-messages, AreConnected, open_stream_data-seal_stream_data,
}
use linksocks.Zone.Cipher.Numbering.{Request}

unsealed :
    (text : Bytes) → take (length (text ++ replicate 16 0) - 16) (text ++ replicate 16 0) ≡ text
unsealed text =
    let e : length (text ++ replicate 16 0) - 16 ≡ length text =
      omega (arith, length-append text (replicate 16 0)) in
    ap (λ (n : ℕ). take n (text ++ replicate 16 0)) e ∙ take-append text (replicate 16 0)

abbrev padding : Aead
padding = record {
  seal = λ key nonce text additional. text ++ replicate 16 0;
  open_sealed = λ key nonce sealed additional. some (take (length sealed - 16) sealed);
  open_sealed-seal = λ key nonce text additional. ap (λ (t : Bytes). some t) (unsealed text);
  length-seal = λ key nonce text additional. length-append text (replicate 16 0);
}

-- How the members 10.0.0.1 and 10.0.0.2 see each other.
abbrev second : PeerCipher
second = record {
  mac = 2 ∷ 0 ∷ 0 ∷ 0 ∷ 0 ∷ 2 ∷ [];
  session = replicate 16 2;
  send = 7 ∷ [];
  receive = 8 ∷ [];
  last = 0;
  ip = 0x0a000002;
}

abbrev first : PeerCipher
first = record {
  mac = 2 ∷ 0 ∷ 0 ∷ 0 ∷ 0 ∷ 1 ∷ [];
  session = replicate 16 1;
  send = 8 ∷ [];
  receive = 7 ∷ [];
  last = 2;
  ip = 0x0a000001;
}

abbrev sender : PacketCipher
sender = record {
  self = 0x0a000001;
  mac = 2 ∷ 0 ∷ 0 ∷ 0 ∷ 0 ∷ 1 ∷ [];
  session = replicate 16 1;
  next = 4;
  store = second ∷ [];
  peers = (0x0a000002, 0) ∷ [];
  macs = (2 ∷ 0 ∷ 0 ∷ 0 ∷ 0 ∷ 2 ∷ [], 0) ∷ [];
}

abbrev receiver : PacketCipher
receiver = record {
  self = 0x0a000002;
  mac = 2 ∷ 0 ∷ 0 ∷ 0 ∷ 0 ∷ 2 ∷ [];
  session = replicate 16 2;
  next = 0;
  store = first ∷ [];
  peers = (0x0a000001, 0) ∷ [];
  macs = (2 ∷ 0 ∷ 0 ∷ 0 ∷ 0 ∷ 1 ∷ [], 0) ∷ [];
}

members_connected : AreConnected sender 0 second receiver 0 first
unfolding is_current peer_at
members_connected = (refl, (refl, (refl, (refl, (refl, (refl, (omega arith, omega arith)))))))

open_stream_data-seal_stream_data_example :
    (message : Bytes) × ((seal_stream_data padding sender 0 9 (codes "hello")
        ≡ (record sender { next = 4 + 1 }, ok message))
      × (open_stream_data padding receiver 0 message ≡ (
        record receiver { store = set receiver.store 0 (record first { last = 4 + 1 }) },
        ok (9, codes "hello"),
      )))
open_stream_data-seal_stream_data_example =
    open_stream_data-seal_stream_data padding sender 0 second receiver 0 first 9 (codes "hello")
      members_connected (omega arith) (omega arith) (omega arith)

accept_any : Bytes → Option Error
accept_any b = none

accepts : (b : Bytes) → accept_any b ≡ none
unfolding accept_any
accepts b = refl

-- A frame, a stream message and a datagram of a number.
abbrev frame_of : ℕ → Arrival
frame_of n = record {
  header = replicate 14 0 ++ u64_bytes n [];
  offset = 14;
  payload = replicate 17 0;
  validate = accept_any;
}

abbrev stream_of : ℕ → Arrival
stream_of n = record {
  header = kind_stream ∷ op_data ∷ u32_bytes 9 (u64_bytes n []);
  offset = 6;
  payload = replicate 17 0;
  validate = validate_stream;
}

abbrev datagram_of : ℕ → Arrival
datagram_of n = record {
  header = replicate 13 0 ++ u64_bytes n [];
  offset = 13;
  payload = replicate 17 0;
  validate = accept_any;
}

-- The numbers 3, 4, 3 again as a datagram, and 5.
abbrev replays : List Arrival
replays = frame_of 3 ∷ stream_of 4 ∷ datagram_of 3 ∷ datagram_of 5 ∷ []

-- A message of a stream, and a datagram header with its number behind 13 bytes.
abbrev hello : Request
hello = record { peer = second; header = stream_header 9; offset = 6; payload = codes "hello" }

abbrev query : Request
query = record { peer = second; header = replicate 21 0; offset = 13; payload = codes "query" }

stream_op-messages_example :
    (stream_op (open_message 9 0x0a000001 0x0a000002 80)
      ≡ ok (op_open, 9, u32_bytes 0x0a000001 (u32_bytes 0x0a000002 (u16_bytes 80 []))))
    × ((stream_op (accept_message 9) ≡ ok (op_accept, 9, []))
        × ((stream_op (refuse_message 9 2 (codes "no"))
              ≡ ok (op_refuse, 9, u16_bytes 2 (codes "no")))
            × ((stream_op (close_message 9) ≡ ok (op_close, 9, []))
                × (stream_op (reset_message 9 2) ≡ ok (op_reset, 9, u16_bytes 2 [])))))
stream_op-messages_example =
    stream_op-messages 9 0x0a000001 0x0a000002 80 2 (codes "no") (omega arith)
