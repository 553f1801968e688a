-- ===== src/Message/Pack.antt =====
-- `PackMessageWithVersion` of linksocks/message.go, a function for each case of its type switch.
-- Each gives the type byte and what follows it.
use linksocks.Prelude.{
  str_eq, ℕ, ◌%◌, ◌^◌, Bool, true, false, not, ◌&&◌, String, [], ◌∷◌, ◌++◌, ◌==◌, if◌then◌else◌,
  Bytes, Result, ok, err, plain, reject, annotate, ◌>>=◌, ◌>>◌, length,
}
use linksocks.Prelude.ByteOrder.{u16_bytes, u32_bytes, u64_bytes, bytes_eq}
use linksocks.Message.Codes
use linksocks.Message.Codes.{protocol_to_bytes, operation_to_bytes, bool_to_byte}
use linksocks.Message.Packages.{Packages, JsonCodec}
use linksocks.Message.Types.{
  Uuid, Message, AuthMessage, AuthResponseMessage, ConnectMessage, ConnectResponseMessage,
  DataMessage, DisconnectMessage, ConnectorMessage, ConnectorResponseMessage, ChannelOpenMessage,
  SealedMessage, WebDataMessage, WebSocketFrameMessage, auth, auth_response, connect,
  connect_response, data_message, disconnect, connector, connector_response, log, partners,
  direct_capabilities, direct_rendezvous, direct_status, channel_bind, channel_migrate,
  channel_migrate_ack, channel_data_ack, channel_open, sealed, web_register, web_register_response,
  web_request, web_response, web_data, web_cancel, web_socket_frame, web_rotate, unknown,
}
use linksocks.Message.Uuid.{uuid_to_bytes}
use linksocks.Message.Version.{protocol_version}

-- `byte(len(s))` and the bytes of `s`.
abbrev pub short_text : Bytes → Bytes → Bytes
short_text s rest = (length s % 256) ∷ (s ++ rest)

-- `uint32(len(s))` in four bytes and the bytes of `s`.
abbrev pub long_bytes : Bytes → Bytes → Bytes
long_bytes s rest = u32_bytes (length s % 2 ^ 32) (s ++ rest)

abbrev pub flag : Bool → Bytes
flag true = 1 ∷ []
flag false = []

module _ (env : Packages) where
  unfoldable pub instance_bytes : Uuid → Result Bytes
  instance_bytes u = annotate "invalid Instance" (uuid_to_bytes (env.uuid.string_of u))

  unfoldable pub channel_id_bytes : Uuid → Result Bytes
  channel_id_bytes u = annotate "invalid ChannelID" (uuid_to_bytes (env.uuid.string_of u))

  unfoldable pub pack_auth : AuthMessage → Result Bytes
  unfolding instance_bytes
  pack_auth m = do
    id ← instance_bytes m.instance_id
    ok (Codes.binary_type_auth ∷ short_text m.token (bool_to_byte m.reverse ∷ id))

  unfoldable pub pack_auth_response : AuthResponseMessage → Result Bytes
  pack_auth_response m = ok (
      Codes.binary_type_auth_response
      ∷ bool_to_byte m.success
      ∷ (if not m.success
          then short_text m.error []
          else if bytes_eq m.token []
          then []
          else short_text m.token []))

  unfoldable pub pack_connect : ConnectMessage → Result Bytes
  unfolding channel_id_bytes
  pack_connect m = do
    id ← channel_id_bytes m.channel_id
    let rest =
        if str_eq m.protocol "tcp"
        then short_text m.address (u16_bytes m.port (flag m.resume))
        else flag m.resume
    ok (Codes.binary_type_connect ∷ protocol_to_bytes m.protocol ∷ (id ++ rest))

  unfoldable pub pack_connect_response : ConnectResponseMessage → Result Bytes
  unfolding channel_id_bytes
  pack_connect_response m = do
    id ← channel_id_bytes m.channel_id
    let rest = if not m.success then short_text m.error [] else []
    ok (Codes.binary_type_connect_response ∷ bool_to_byte m.success ∷ (id ++ rest))

  -- The `if compression == DataCompressionGzip` block.
  unfoldable pub compress : ℕ → Bytes → Result Bytes
  compress compression payload =
      if compression == Codes.data_compression_gzip
      then (do
        annotate "gzip compression failed" (env.gzip.write payload)
        annotate "gzip close failed" (env.gzip.close_writer payload))
      else ok payload

  -- The optional addresses and the optional sequence number behind the payload.
  unfoldable pub data_tail : DataMessage → Bytes
  data_tail m =
      let seq = if m.sequence == 0 then [] else u64_bytes m.sequence [] in
      if str_eq m.protocol "udp"
      then short_text m.address
          (u16_bytes m.port (short_text m.target_addr (u16_bytes m.target_port seq)))
      else seq

  unfoldable pub pack_data : DataMessage → Result Bytes
  unfolding channel_id_bytes compress data_tail
  pack_data m = do
    id ← channel_id_bytes m.channel_id
    compressed ← compress m.compression m.payload
    let tail = long_bytes compressed (data_tail m)
    ok (Codes.binary_type_data ∷ protocol_to_bytes m.protocol ∷ (id ++ (m.compression ∷ tail)))

  unfoldable pub pack_disconnect : DisconnectMessage → Result Bytes
  unfolding channel_id_bytes
  pack_disconnect m = do
    id ← channel_id_bytes m.channel_id
    let rest = if bytes_eq m.error [] then [] else short_text m.error []
    ok (Codes.binary_type_disconnect ∷ (id ++ rest))

  unfoldable pub pack_connector : ConnectorMessage → Result Bytes
  unfolding channel_id_bytes
  pack_connector m = do
    id ← channel_id_bytes m.channel_id
    let rest = short_text m.connector_token (operation_to_bytes m.operation ∷ [])
    ok (Codes.binary_type_connector ∷ (id ++ rest))

  unfoldable pub pack_connector_response : ConnectorResponseMessage → Result Bytes
  unfolding channel_id_bytes
  pack_connector_response m = do
    id ← channel_id_bytes m.channel_id
    let rest =
        if not m.success
        then short_text m.error []
        else if bytes_eq m.connector_token []
        then []
        else short_text m.connector_token []
    ok (Codes.binary_type_connector_response ∷ (id ++ (bool_to_byte m.success ∷ rest)))

  unfoldable pub pack_channel_open : ChannelOpenMessage → Result Bytes
  unfolding channel_id_bytes
  pack_channel_open m = do
    id ← channel_id_bytes m.channel_id
    ok (Codes.binary_type_channel_open ∷ (id ++ flag m.resume))

  unfoldable pub pack_sealed : SealedMessage → Result Bytes
  unfolding channel_id_bytes
  pack_sealed m = do
    id ← channel_id_bytes m.channel_id
    ok (Codes.binary_type_sealed ∷ (id ++ long_bytes m.payload []))

  unfoldable pub pack_web_data : WebDataMessage → Result Bytes
  unfolding channel_id_bytes
  pack_web_data m = do
    id ← channel_id_bytes m.channel_id
    ok (Codes.binary_type_web_data ∷ (id ++ (bool_to_byte m.end ∷ long_bytes m.payload [])))

  unfoldable pub pack_web_socket_frame : WebSocketFrameMessage → Result Bytes
  pack_web_socket_frame m = do
    reject (not (m.opcode == 1) && not (m.opcode == 2)) "invalid WebSocket frame opcode"
    ok (Codes.binary_type_web_socket_frame ∷ (m.channel_id ++ (m.opcode ∷ long_bytes m.payload [])))

  -- `packJSONMessage`; the cases that write it out do the same.
  unfoldable pub pack_json_message : {A : Type 0} → ℕ → JsonCodec A → A → String → Result Bytes
  pack_json_message msg_type codec m name = do
    json_data ← annotate name (codec.marshal m)
    ok (msg_type ∷ long_bytes json_data [])

  unfoldable pub pack_body : Message → Result Bytes
  pack_body (auth m) = pack_auth m
  pack_body (auth_response m) = pack_auth_response m
  pack_body (connect m) = pack_connect m
  pack_body (connect_response m) = pack_connect_response m
  pack_body (data_message m) = pack_data m
  pack_body (disconnect m) = pack_disconnect m
  pack_body (connector m) = pack_connector m
  pack_body (connector_response m) = pack_connector_response m
  pack_body (log m) = pack_json_message Codes.binary_type_log env.log_json m "log"
  pack_body (partners m) =
      pack_json_message Codes.binary_type_partners env.partners_json m "partners"
  pack_body (direct_capabilities m) =
      pack_json_message Codes.binary_type_direct_capabilities env.direct_capabilities_json m
        "direct capabilities"
  pack_body (direct_rendezvous m) =
      pack_json_message Codes.binary_type_direct_rendezvous env.direct_rendezvous_json m
        "direct rendezvous"
  pack_body (direct_status m) =
      pack_json_message Codes.binary_type_direct_status env.direct_status_json m "direct status"
  pack_body (channel_bind m) =
      pack_json_message Codes.binary_type_channel_bind env.channel_bind_json m "channel bind"
  pack_body (channel_migrate m) =
      pack_json_message Codes.binary_type_channel_migrate env.channel_migrate_json m
        "channel migrate"
  pack_body (channel_migrate_ack m) =
      pack_json_message Codes.binary_type_channel_migrate_ack env.channel_migrate_ack_json m
        "channel migrate ack"
  pack_body (channel_data_ack m) =
      pack_json_message Codes.binary_type_channel_data_ack env.channel_data_ack_json m
        "channel data ack"
  pack_body (channel_open m) = pack_channel_open m
  pack_body (sealed m) = pack_sealed m
  pack_body (web_register m) =
      pack_json_message Codes.binary_type_web_register env.web_register_json m "web register"
  pack_body (web_register_response m) =
      pack_json_message Codes.binary_type_web_register_response env.web_register_response_json m
        "web register response"
  pack_body (web_request m) =
      pack_json_message Codes.binary_type_web_request env.web_request_json m "web request"
  pack_body (web_response m) =
      pack_json_message Codes.binary_type_web_response env.web_response_json m "web response"
  pack_body (web_data m) = pack_web_data m
  pack_body (web_cancel m) =
      pack_json_message Codes.binary_type_web_cancel env.web_cancel_json m "web cancel"
  pack_body (web_socket_frame m) = pack_web_socket_frame m
  pack_body (web_rotate m) =
      pack_json_message Codes.binary_type_web_rotate env.web_rotate_json m "web rotate"
  pack_body (unknown t) = err (plain "unsupported message type for binary serialization")

  unfoldable pub pack_message_with_version : Message → ℕ → Result Bytes
  unfolding pack_body
  pack_message_with_version m version = do body ← pack_body m; ok (version ∷ body)

  -- `PackMessage`
  unfoldable pub pack_message : Message → Result Bytes
  pack_message m = pack_message_with_version m protocol_version
