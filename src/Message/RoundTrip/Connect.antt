-- ===== src/Message/RoundTrip/Connect.antt =====
-- Frames of linksocks/message.go that ask for a connection.
use linksocks.Prelude.{
  subst, ℕ, ◌+◌, ◌%◌, ◌^◌, ◌<◌, ◌≡◌, sym, refl, inl, inr, Bytes, Bool, false, [], ◌∷◌, ◌++◌, String,
  str_eq, ok, length, length-append, append_assoc, slice_at, slice_last, arith, index_in,
}
use linksocks.Prelude.ByteOrder.{byte_at, u16_bytes, u16_of-u16_bytes}
use linksocks.Message.Packages.{Packages}
use linksocks.Message.Pack
use linksocks.Message.Pack.{short_text, long_bytes, flag}
use linksocks.Message.Parse
use linksocks.Message.RoundTrip.Parts.{
  read_u16_at, parse_uuid-ok, channel_id_bytes-ok, resume_at-flag,
}
use linksocks.Message.RoundTrip.Conditions
use linksocks.Message.RoundTrip.Conditions.{Round}
use linksocks.Message.Types
use linksocks.Message.Types.{Uuid, Message}
use linksocks.Message.Uuid.{IsUuid}
use linksocks.Message.RoundTrip.Protocols.{
  Named, tcp-Named, udp-Named, empty-Named, is_tcp, udp_is_not_tcp, empty_is_not,
}

abbrev request : String → Bytes → ℕ → Uuid → Bool → Types.ConnectMessage
request protocol address port id resume = record {
  protocol = protocol;
  address = address;
  port = port;
  channel_id = id;
  resume = resume;
}

module _ (env : Packages) (id : Uuid) (h : IsUuid id) (resume : Bool) where
  tcp_address :
      (protocol : String) (address : Bytes) (port : ℕ)
      → length address < 256
      → port < 2 ^ 16
      → Parse.parse_tcp_connect env id protocol (short_text address (u16_bytes port (flag resume)))
        ≡ ok (Types.connect (request protocol address port id resume))
  unfolding Parse.parse_tcp_connect
  tcp_address protocol address port ha hp =
      let n = length address % 256 in
      let two = u16_bytes port (flag resume) in
      ground (
        arith,
        index_in (short_text address two) 0,
        length-append address two,
        slice_at (n ∷ []) address two 1 (1 + n) refl (omega arith),
        read_u16_at (n ∷ address) (flag resume) (byte_at port 8) (port % 256) (1 + n) (omega arith),
        u16_of-u16_bytes port hp,
        append_assoc address (u16_bytes port []) (flag resume),
        resume_at-flag env (n ∷ (address ++ u16_bytes port [])) resume (1 + n + 2)
            (omega (arith, length-append address (u16_bytes port []))),
      )

  tcp_request :
      (protocol : String) (address : Bytes) (port : ℕ)
      → protocol ≡ "tcp"
      → length address < 256
      → port < 2 ^ 16
      → let m = request protocol address port id resume in
        Round 0x03 (Types.connect m) (Pack.pack_connect env m) (Parse.parse_connect env)
  tcp_request protocol address port e ha hp =
      let rest = short_text address (u16_bytes port (flag resume)) in
      let named = tcp-Named protocol e in
      (
        1 ∷ (id ++ rest),
        unfold Pack.pack_connect in
            rw (channel_id_bytes-ok env id h, is_tcp protocol e, named.code),
        unfold Parse.parse_connect in
            ground (
              arith,
              index_in (1 ∷ (id ++ rest)) 0,
              length-append id rest,
              slice_at (1 ∷ []) id rest 1 17 refl (omega arith),
              slice_last (1 ∷ id) rest 17 (length (1 ∷ (id ++ rest))) (omega arith)
                  (omega (arith, length-append id rest)),
              parse_uuid-ok env "invalid ChannelID" id h,
              named,
              is_tcp protocol e,
              tcp_address protocol address port ha hp,
            ),
      )

  other_request :
      (protocol : String) (code : ℕ)
      → Named protocol code
      → str_eq protocol "tcp" ≡ false
      → let m = request protocol [] 0 id resume in
        Round 0x03 (Types.connect m) (Pack.pack_connect env m) (Parse.parse_connect env)
  other_request protocol code named other = (
    code ∷ (id ++ flag resume),
    unfold Pack.pack_connect in rw (channel_id_bytes-ok env id h, other, named.code),
    unfold Parse.parse_connect in
        ground (
          arith,
          index_in (code ∷ (id ++ flag resume)) 0,
          length-append id (flag resume),
          slice_at (code ∷ []) id (flag resume) 1 17 refl (omega arith),
          parse_uuid-ok env "invalid ChannelID" id h,
          named,
          other,
          resume_at-flag env (code ∷ id) resume 17 (omega arith),
        ),
  )

-- A request that carries no address.
bare_request :
    (env : Packages) (m : Types.ConnectMessage) (code : ℕ)
    → IsUuid m.channel_id
    → Named m.protocol code
    → str_eq m.protocol "tcp" ≡ false
    → m.address ≡ []
    → m.port ≡ 0
    → Round 0x03 (Types.connect m) (Pack.pack_connect env m) (Parse.parse_connect env)
bare_request env m code h named other ea ep =
    subst
      (λ (r : Types.ConnectMessage).
        Round 0x03 (Types.connect r) (Pack.pack_connect env r) (Parse.parse_connect env))
      (λ i. record {
        protocol = m.protocol;
        address = sym ea i;
        port = sym ep i;
        channel_id = m.channel_id;
        resume = m.resume;
      })
      (other_request env m.channel_id h m.resume m.protocol code named other)

pub connect-Round :
    (env : Packages) (m : Types.ConnectMessage)
    → Conditions.Fits env (Types.connect m)
    → Round 0x03 (Types.connect m) (Pack.pack_connect env m) (Parse.parse_connect env)
connect-Round env m (h, inl (e, ha, hp)) =
    tcp_request env m.channel_id h m.resume m.protocol m.address m.port e ha hp
connect-Round env m (h, inr ((inl e, ea, ep))) =
    bare_request env m 2 h (udp-Named m.protocol e) (udp_is_not_tcp m.protocol e) ea ep
connect-Round env m (h, inr (inr e, ea, ep)) =
    bare_request env m 0 h (empty-Named m.protocol e) (empty_is_not m.protocol "tcp" e refl) ea ep
