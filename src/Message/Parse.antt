-- ===== src/Message/Parse.antt =====
-- The cases of `parseMessageBody` in linksocks/message.go, a function for each case of the switch
-- on the type byte. Indexing and slicing keep their bounds checks.
mod Steps
mod Texts
mod Frames
unfoldable pub use Steps.{
  read_u32, read_u16, binary_uint64, slice_u32, parse_uuid, short_text_at, resume_at, decompress,
  sequence_at,
}
unfoldable pub use Texts.{
  parse_auth, parse_auth_response, parse_tcp_connect, parse_connect, parse_connect_response,
  parse_disconnect, parse_connector, parse_connector_response, parse_channel_open,
}
unfoldable pub use Frames.{
  parse_udp_data, parse_plain_data, parse_data, unmarshal_json_message, parse_sealed,
  parse_web_data, parse_web_socket_frame,
}
