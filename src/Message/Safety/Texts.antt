-- ===== src/Message/Safety/Texts.antt =====
-- The cases of linksocks/message.go that read texts and flags stay in range.
use linksocks.Prelude.{
  ℕ, ◌+◌, ◌≢◌, inl, inr, Result-cases, Bytes, panic, index_in, slice_in, length, get_or, arith,
  String, piece,
}
use linksocks.Message.Packages.{Packages}
use linksocks.Message.Codes.{bytes_to_protocol}
use linksocks.Message.Parse.{
  parse_auth, parse_auth_response, parse_connect, parse_connect_response, parse_disconnect,
  parse_connector, parse_connector_response, parse_channel_open, parse_udp_data, parse_plain_data,
  parse_tcp_connect,
}
use linksocks.Message.Reads.{
  read_u16_in, short_text_at-ne-panic, resume_at-ne-panic, sequence_at-ne-panic,
  parse_uuid-ne-panic,
}
use linksocks.Message.Types.{Uuid}

module _ (env : Packages) where
  pub parse_auth-ne-panic : (p : Bytes) → parse_auth env p ≢ panic
  unfolding parse_auth
  parse_auth-ne-panic p h = ground (
    arith,
    index_in p 0,
    index_in p (1 + get_or p 0 0),
    slice_in p 1 (1 + get_or p 0 0),
    slice_in p (1 + get_or p 0 0 + 1) (1 + get_or p 0 0 + 1 + 16),
    parse_uuid-ne-panic env "invalid Instance"
        (piece p (1 + get_or p 0 0 + 1) (1 + get_or p 0 0 + 1 + 16)),
  )

  pub parse_auth_response-ne-panic : (p : Bytes) → parse_auth_response env p ≢ panic
  unfolding parse_auth_response
  parse_auth_response-ne-panic p h = ground (
    arith,
    index_in p 0,
    short_text_at-ne-panic env p 1 "invalid auth response token length",
    short_text_at-ne-panic env p 1 "invalid auth response error length",
  )

  pub parse_tcp_connect-ne-panic :
      (id : Uuid) (protocol : String) (rest : Bytes)
      → parse_tcp_connect env id protocol rest ≢ panic
  unfolding parse_tcp_connect
  parse_tcp_connect-ne-panic id protocol rest h = ground (
    arith,
    index_in rest 0,
    slice_in rest 1 (1 + get_or rest 0 0),
    read_u16_in rest (1 + get_or rest 0 0),
    resume_at-ne-panic env rest (1 + get_or rest 0 0 + 2),
  )

  pub parse_connect-ne-panic : (p : Bytes) → parse_connect env p ≢ panic
  unfolding parse_connect
  parse_connect-ne-panic p h =
      elim (Result-cases _ (parse_uuid-ne-panic env "invalid ChannelID" (piece p 1 17))) [
        | inl (id, e) ↦ ground (
          arith,
          index_in p 0,
          slice_in p 1 17,
          slice_in p 17 (length p),
          resume_at-ne-panic env p 17,
          parse_tcp_connect-ne-panic id (bytes_to_protocol (get_or p 0 0)) (piece p 17 (length p)),
        )
        | inr (x, e) ↦ ground (arith, index_in p 0, slice_in p 1 17)
      ]

  pub parse_connect_response-ne-panic : (p : Bytes) → parse_connect_response env p ≢ panic
  unfolding parse_connect_response
  parse_connect_response-ne-panic p h = ground (
    arith,
    index_in p 0,
    slice_in p 1 17,
    parse_uuid-ne-panic env "invalid ChannelID" (piece p 1 17),
    short_text_at-ne-panic env p 17 "invalid connect response message length",
  )

  pub parse_disconnect-ne-panic : (p : Bytes) → parse_disconnect env p ≢ panic
  unfolding parse_disconnect
  parse_disconnect-ne-panic p h = ground (
    arith,
    slice_in p 0 16,
    parse_uuid-ne-panic env "invalid ChannelID" (piece p 0 16),
    short_text_at-ne-panic env p 16 "invalid disconnect message error length",
  )

  pub parse_connector_response-ne-panic : (p : Bytes) → parse_connector_response env p ≢ panic
  unfolding parse_connector_response
  parse_connector_response-ne-panic p h = ground (
    arith,
    index_in p 16,
    slice_in p 0 16,
    parse_uuid-ne-panic env "invalid ChannelID" (piece p 0 16),
    short_text_at-ne-panic env p 17 "invalid connector response message length",
    short_text_at-ne-panic env p 17 "invalid connector response token length",
  )

  pub parse_channel_open-ne-panic : (p : Bytes) → parse_channel_open env p ≢ panic
  unfolding parse_channel_open
  parse_channel_open-ne-panic p h = ground (
    arith,
    slice_in p 0 16,
    parse_uuid-ne-panic env "invalid ChannelID" (piece p 0 16),
    resume_at-ne-panic env p 16,
  )

module _ (env : Packages) where
  pub parse_connector-ne-panic : (p : Bytes) → parse_connector env p ≢ panic
  unfolding parse_connector
  parse_connector-ne-panic p h =
      let rest = piece p 16 (length p) in
      ground (
        arith,
        slice_in p 0 16,
        parse_uuid-ne-panic env "invalid ChannelID" (piece p 0 16),
        slice_in p 16 (length p),
        index_in rest 0,
        slice_in rest 1 (1 + get_or rest 0 0),
        index_in rest (1 + get_or rest 0 0),
      )

  pub parse_udp_data-ne-panic :
      (protocol : String) (id : Uuid) (c : ℕ) (payload rest : Bytes)
      → parse_udp_data env protocol id c payload rest ≢ panic
  unfolding parse_udp_data
  parse_udp_data-ne-panic protocol id c payload rest h =
      let addr_end = 1 + get_or rest 0 0 in
      let target = piece rest (addr_end + 2) (length rest) in
      let target_end = 1 + get_or target 0 0 in
      ground (
        arith,
        index_in rest 0,
        slice_in rest 1 addr_end,
        read_u16_in rest addr_end,
        slice_in rest (addr_end + 2) (length rest),
        index_in target 0,
        slice_in target 1 target_end,
        read_u16_in target target_end,
        slice_in target (target_end + 2) (length target),
        sequence_at-ne-panic env (piece target (target_end + 2) (length target)) 0,
      )

  pub parse_plain_data-ne-panic :
      (protocol : String) (id : Uuid) (c : ℕ) (payload p : Bytes) (i : ℕ)
      → parse_plain_data env protocol id c payload p i ≢ panic
  unfolding parse_plain_data
  parse_plain_data-ne-panic protocol id c payload p i h =
      ground (arith, sequence_at-ne-panic env p i)
