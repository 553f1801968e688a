-- ===== src/Zone/Socks/Tests.antt =====
-- Concrete messages of a SOCKS client.
use linksocks.Prelude.{
  read_full, ℕ, ◌≡◌, ◌≢◌, refl, Option, none, some, [], ◌∷◌, Bytes, All, arith, OfValue, ok, index,
  true,
}
use linksocks.Prelude.ByteOrder.{IsByte, codes}
use linksocks.Zone.Addresses.{Addr}
use linksocks.Zone.Socks.Requests.{
  parse_socks_udp_request, format_socks_udp_response, resolve, handle, offers_no_auth, greeted,
  connects_to, associates, replies, addr_text, octet_text, socks_reply, socks_reply_for, refused,
  closed, read_socks_greeting, no_auth_or_refuse, is_error, connect_reply,
}
use linksocks.Zone.Socks.RoundTrip.{
  parse_socks_udp_request-format_socks_udp_response, handle-client_bytes, for_address, client_bytes,
}
use linksocks.Zone.Socks.Safety.{parse_socks_udp_request-IsDatagram, IsDatagram}

-- 10.0.0.2
abbrev member : Addr
member = 167772162

abbrev no_members : Bytes → Option Addr
no_members name = none

parse_socks_udp_request-format_socks_udp_response_example :
    (parse_socks_udp_request (format_socks_udp_response member 53 (1 ∷ 2 ∷ []))
      ≡ ok (for_address 0 member 53, 1 ∷ 2 ∷ []))
    × (resolve no_members (for_address 0 member 53) ≡ some member)
parse_socks_udp_request-format_socks_udp_response_example =
    parse_socks_udp_request-format_socks_udp_response no_members member 53 (1 ∷ 2 ∷ [])
      (omega arith) (omega arith)

offers : offers_no_auth (2 ∷ 0 ∷ []) ≡ true
unfolding offers_no_auth
offers = refl

abbrev connect : ℕ
connect = 1

handle-client_bytes_example :
    (connect ≡ 1
      → handle no_members (client_bytes (2 ∷ 0 ∷ []) connect member 80 [])
        ≡ some (greeted (connects_to member 80)))
    × ((connect ≡ 3
          → handle no_members (client_bytes (2 ∷ 0 ∷ []) connect member 80 [])
            ≡ some (greeted associates))
        × (connect ≢ 1
            → connect ≢ 3
            → handle no_members (client_bytes (2 ∷ 0 ∷ []) connect member 80 [])
              ≡ some (greeted (replies 7))))
handle-client_bytes_example =
    handle-client_bytes no_members (2 ∷ 0 ∷ []) connect member 80 [] offers (omega arith)
      (omega arith)

-- A datagram of two bytes for the member `ab`, port 53.
abbrev named_datagram : Bytes
named_datagram = 0 ∷ 0 ∷ 0 ∷ 3 ∷ 2 ∷ 97 ∷ 98 ∷ 0 ∷ 53 ∷ 7 ∷ 8 ∷ []

named_datagram-IsByte : All IsByte named_datagram
named_datagram-IsByte = ground arith

parse_socks_udp_request-IsDatagram_example :
    OfValue
      (λ read. (index named_datagram 2 ≡ ok 0) × IsDatagram named_datagram read)
      (parse_socks_udp_request named_datagram)
parse_socks_udp_request-IsDatagram_example =
    parse_socks_udp_request-IsDatagram named_datagram named_datagram-IsByte

prints_member : addr_text 10 0 0 2 ≡ codes "10.0.0.2"
unfolding addr_text octet_text
prints_member = refl

refuses_passwords : handle no_members (5 ∷ 1 ∷ 2 ∷ []) ≡ some (closed (5 ∷ 255 ∷ []))
unfolding handle read_socks_greeting read_full no_auth_or_refuse offers_no_auth is_error index
refuses_passwords = refl

replies_refused :
    socks_reply (connect_reply (some refused)) none ≡ 5 ∷ 5 ∷ 0 ∷ 1 ∷ 0 ∷ 0 ∷ 0 ∷ 0 ∷ 0 ∷ 0 ∷ []
unfolding socks_reply socks_reply_for connect_reply
replies_refused = refl
