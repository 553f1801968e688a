-- ===== src/Message/Safety.antt =====
-- No input makes the parser of linksocks/message.go index or slice out of range.
mod Texts
mod Lengths
use Texts.{
  parse_auth-ne-panic, parse_auth_response-ne-panic, parse_connect-ne-panic,
  parse_connect_response-ne-panic, parse_disconnect-ne-panic, parse_connector-ne-panic,
  parse_connector_response-ne-panic, parse_channel_open-ne-panic,
}
use Lengths.{
  unmarshal_json_message-ne-panic, parse_data-ne-panic, parse_sealed-ne-panic,
  parse_web_data-ne-panic, parse_web_socket_frame-ne-panic,
}
use linksocks.Prelude.{
  switch-All, ℕ, ◌+◌, ◌<◌, ◌≤◌, ◌^◌, ◌≡◌, ◌≢◌, inl, inr, if◌then◌else◌, [], ◌∷◌, Result-cases,
  Bytes, Result, ok, err, panic, index, slice, index_in, slice_in, length, get_or, arith, String,
  Bool, true, false, reject, annotate, ltb, ◌>>=◌, ◌>>◌, piece,
}
use linksocks.Message.Packages.{Packages, JsonCodec}
use linksocks.Message.Codes.{bytes_to_protocol}
use linksocks.Message.Parse.{
  parse_auth, parse_auth_response, parse_connect, parse_connect_response, parse_data,
  parse_disconnect, parse_connector, parse_connector_response, unmarshal_json_message,
  parse_channel_open, parse_sealed, parse_web_data, parse_web_socket_frame, parse_uuid,
  short_text_at, parse_udp_data, parse_plain_data, parse_tcp_connect, sequence_at,
}
use linksocks.Message.Reads.{
  u32_at, read_u16_in, read_u32_in, slice_u32_in, annotate-ne-panic, short_text_at-ne-panic,
  resume_at-ne-panic, sequence_at-ne-panic, parse_uuid-ne-panic, decompress-ne-panic,
}
use linksocks.Message.Body.{parse_message_body, parse_message_with_version, parse_message}
use linksocks.Message.Codes
use linksocks.Message.Types.{
  Message, Uuid, log, partners, direct_capabilities, direct_rendezvous, direct_status, channel_bind,
  channel_migrate, channel_migrate_ack, channel_data_ack, web_register, web_register_response,
  web_request, web_response, web_cancel, web_rotate, unknown,
}

parse_message_body-ne-panic :
    (env : Packages) (t : ℕ) (p : Bytes) → length p < 2 ^ 32 → parse_message_body env t p ≢ panic
unfolding parse_message_body
parse_message_body-ne-panic env t p size =
    switch-All (λ r. r ≢ panic) t _ _
      (assumption (
        parse_auth-ne-panic env p,
        parse_auth_response-ne-panic env p,
        parse_connect-ne-panic env p,
        parse_connect_response-ne-panic env p,
        parse_data-ne-panic env p size,
        parse_disconnect-ne-panic env p,
        parse_connector-ne-panic env p,
        parse_connector_response-ne-panic env p,
        unmarshal_json_message-ne-panic env p size log env.log_json "log",
        unmarshal_json_message-ne-panic env p size partners env.partners_json "partners",
        unmarshal_json_message-ne-panic env p size direct_capabilities env.direct_capabilities_json
            "direct capabilities",
        unmarshal_json_message-ne-panic env p size direct_rendezvous env.direct_rendezvous_json
            "direct rendezvous",
        unmarshal_json_message-ne-panic env p size direct_status env.direct_status_json
            "direct status",
        unmarshal_json_message-ne-panic env p size channel_bind env.channel_bind_json
            "channel bind",
        unmarshal_json_message-ne-panic env p size channel_migrate env.channel_migrate_json
            "channel migrate",
        unmarshal_json_message-ne-panic env p size channel_migrate_ack env.channel_migrate_ack_json
            "channel migrate ack",
        unmarshal_json_message-ne-panic env p size channel_data_ack env.channel_data_ack_json
            "channel data ack",
        parse_channel_open-ne-panic env p,
        parse_sealed-ne-panic env p size,
        unmarshal_json_message-ne-panic env p size web_register env.web_register_json
            "web register",
        unmarshal_json_message-ne-panic env p size web_register_response
            env.web_register_response_json "web register response",
        unmarshal_json_message-ne-panic env p size web_request env.web_request_json "web request",
        unmarshal_json_message-ne-panic env p size web_response env.web_response_json
            "web response",
        parse_web_data-ne-panic env p size,
        unmarshal_json_message-ne-panic env p size web_cancel env.web_cancel_json "web cancel",
        parse_web_socket_frame-ne-panic env p size,
        unmarshal_json_message-ne-panic env p size web_rotate env.web_rotate_json "web rotate",
      ))
      (λ e. cc)

-- On any frame that passes the read limit of a link (32 MiB), parsing returns a message or an
-- error: no field length that a peer writes makes it index or slice out of range.
pub parse_message-ne-panic :
    (env : Packages) (frame : Bytes)
    → length frame ≤ Codes.max_web_socket_message_size
    → parse_message env frame ≢ panic
unfolding parse_message parse_message_with_version
parse_message-ne-panic env [] h e = cc
parse_message-ne-panic env (v ∷ []) h e = cc
parse_message-ne-panic env (v ∷ t ∷ p) h e =
    ground (arith, parse_message_body-ne-panic env t p (omega arith))
