-- ===== src/Message/RoundTrip/Protocols.antt =====
-- The protocol names of linksocks/message.go and their codes.
use linksocks.Prelude.{ℕ, ◌≡◌, refl, true, false, String, str_eq}
use linksocks.Message.Codes.{protocol_to_bytes, bytes_to_protocol}

-- What the codec asks of a protocol name with code `b`.
pub record Named (name : String) (b : ℕ) : Type 0 where
  pub code : protocol_to_bytes name ≡ b
  pub back : bytes_to_protocol b ≡ name

pub tcp-Named : (name : String) → name ≡ "tcp" → Named name 1
unfolding protocol_to_bytes bytes_to_protocol
tcp-Named name e = rw e (record { code = refl; back = refl })

pub udp-Named : (name : String) → name ≡ "udp" → Named name 2
unfolding protocol_to_bytes bytes_to_protocol
udp-Named name e = rw e (record { code = refl; back = refl })

pub empty-Named : (name : String) → name ≡ "" → Named name 0
unfolding protocol_to_bytes bytes_to_protocol
empty-Named name e = rw e (record { code = refl; back = refl })

pub is_tcp : (name : String) → name ≡ "tcp" → str_eq name "tcp" ≡ true
is_tcp name e = rw e

pub is_udp : (name : String) → name ≡ "udp" → str_eq name "udp" ≡ true
is_udp name e = rw e

pub udp_is_not_tcp : (name : String) → name ≡ "udp" → str_eq name "tcp" ≡ false
udp_is_not_tcp name e = rw e

pub tcp_is_not_udp : (name : String) → name ≡ "tcp" → str_eq name "udp" ≡ false
tcp_is_not_udp name e = rw e

pub empty_is_not :
    (name other : String) → name ≡ "" → str_eq "" other ≡ false → str_eq name other ≡ false
empty_is_not name other e h = rw e h
