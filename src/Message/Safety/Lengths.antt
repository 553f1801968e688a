-- ===== src/Message/Safety/Lengths.antt =====
-- The cases of linksocks/message.go that read a 32-bit length stay in range.
use linksocks.Prelude.{
  ◌+◌, ◌<◌, ◌^◌, ◌≢◌, inl, inr, Result-cases, Bytes, panic, index_in, slice_in, length, get_or,
  arith, String, piece,
}
use linksocks.Message.Packages.{Packages, JsonCodec}
use linksocks.Message.Codes.{bytes_to_protocol}
use linksocks.Message.Parse.{
  parse_data, unmarshal_json_message, parse_sealed, parse_web_data, parse_web_socket_frame,
}
use linksocks.Message.Reads.{
  u32_at, read_u32_in, slice_u32_in, annotate-ne-panic, parse_uuid-ne-panic, decompress-ne-panic,
}
use linksocks.Message.Types.{Message}
use linksocks.Message.Safety.Texts.{parse_udp_data-ne-panic, parse_plain_data-ne-panic}

module _ (env : Packages) (p : Bytes) (size : length p < 2 ^ 32) where
  pub unmarshal_json_message-ne-panic :
      {A : Type 0} (wrap : A → Message) (codec : JsonCodec A) (name : String)
      → unmarshal_json_message env wrap codec name p ≢ panic
  unfolding unmarshal_json_message
  unmarshal_json_message-ne-panic wrap codec name h = ground (
    arith,
    read_u32_in p 0,
    slice_u32_in p 4 (u32_at p 0),
    annotate-ne-panic name _ (codec.unmarshal-ne-panic (piece p 4 (4 + u32_at p 0))),
  )

  pub parse_sealed-ne-panic : parse_sealed env p ≢ panic
  unfolding parse_sealed
  parse_sealed-ne-panic h = ground (
    arith,
    slice_in p 0 16,
    parse_uuid-ne-panic env "invalid ChannelID" (piece p 0 16),
    read_u32_in p 16,
    slice_u32_in p 20 (u32_at p 16),
  )

  pub parse_web_data-ne-panic : parse_web_data env p ≢ panic
  unfolding parse_web_data
  parse_web_data-ne-panic h = ground (
    arith,
    slice_in p 0 16,
    annotate-ne-panic "invalid web data channel id" _ (env.uuid.from_bytes-ne-panic (piece p 0 16)),
    index_in p 16,
    read_u32_in p 17,
    slice_u32_in p 21 (u32_at p 17),
  )

  pub parse_web_socket_frame-ne-panic : parse_web_socket_frame env p ≢ panic
  unfolding parse_web_socket_frame
  parse_web_socket_frame-ne-panic h = ground (
    arith,
    slice_in p 0 16,
    annotate-ne-panic "invalid WebSocket channel id" _
        (env.uuid.from_bytes-ne-panic (piece p 0 16)),
    index_in p 16,
    read_u32_in p 17,
    slice_in p 21 (length p),
  )

  pub parse_data-ne-panic : parse_data env p ≢ panic
  unfolding parse_data
  parse_data-ne-panic h =
      let len = u32_at p 18 in
      let raw = piece p 22 (22 + len) in
      let protocol = bytes_to_protocol (get_or p 0 0) in
      elim (Result-cases _ (parse_uuid-ne-panic env "invalid ChannelID" (piece p 1 17))) [
        | inl (id, e) ↦ elim (Result-cases _ (decompress-ne-panic env (get_or p 17 0) raw)) [
          | inl (payload, d) ↦ ground (
            arith,
            index_in p 0,
            slice_in p 1 17,
            index_in p 17,
            read_u32_in p 18,
            slice_u32_in p 22 len,
            slice_in p (22 + len) (length p),
            parse_udp_data-ne-panic env protocol id (get_or p 17 0) payload
                (piece p (22 + len) (length p)),
            parse_plain_data-ne-panic env protocol id (get_or p 17 0) payload p (22 + len),
          )
          | inr (x, d) ↦ ground (
            arith,
            index_in p 0,
            slice_in p 1 17,
            index_in p 17,
            read_u32_in p 18,
            slice_u32_in p 22 len,
          )
        ]
        | inr (x, e) ↦ ground (arith, index_in p 0, slice_in p 1 17)
      ]
