-- ===== src/Message/RoundTrip/Conditions.antt =====
-- Which messages the frames of linksocks/message.go can carry: the field lengths fit their length
-- bytes, and fields that a frame leaves out are empty.
use linksocks.Prelude.{
  ℕ, ◌+◌, ◌^◌, ◌≤◌, ◌<◌, ◌≡◌, ◌⊎◌, Bytes, Bool, true, false, [], Result, ok, length, ◌∷◌,
}
use linksocks.Message.Codes
use linksocks.Message.Packages.{Packages, JsonCodec}
use linksocks.Message.Pack.{compress}
use linksocks.Message.Types.{
  Message, ConnectMessage, DataMessage, auth, auth_response, connect, connect_response,
  data_message, disconnect, connector, connector_response, log, partners, direct_capabilities,
  direct_rendezvous, direct_status, channel_bind, channel_migrate, channel_migrate_ack,
  channel_data_ack, channel_open, sealed, web_register, web_register_response, web_request,
  web_response, web_data, web_cancel, web_socket_frame, web_rotate, unknown,
}
use linksocks.Message.Uuid.{IsUuid}

-- A response carries its token on success and its error on failure, never both.
abbrev pub ResponseTexts : Bool → Bytes → Bytes → Type 0
ResponseTexts true error token = (error ≡ []) × (length token < 256)
ResponseTexts false error token = (token ≡ []) × (length error < 256)

-- Only TCP requests carry an address.
abbrev pub ConnectAddress : ConnectMessage → Type 0
ConnectAddress m =
    ((m.protocol ≡ "tcp") × (length m.address < 256) × (m.port < 2 ^ 16))
    ⊎ (((m.protocol ≡ "udp") ⊎ (m.protocol ≡ "")) × (m.address ≡ []) × (m.port ≡ 0))

-- Only UDP data carries addresses.
abbrev pub DataAddresses : DataMessage → Type 0
DataAddresses m =
    ((m.protocol ≡ "udp")
      × (length m.address < 256)
      × (m.port < 2 ^ 16)
      × (length m.target_addr < 256)
      × (m.target_port < 2 ^ 16))
    ⊎ (((m.protocol ≡ "tcp") ⊎ (m.protocol ≡ ""))
        × (m.address ≡ [])
        × (m.port ≡ 0)
        × (m.target_addr ≡ [])
        × (m.target_port ≡ 0))

-- A payload that, packed, fits the frame.
abbrev pub PayloadFits : Packages → ℕ → Bytes → Type 0
PayloadFits env compression payload =
    (length payload ≤ Codes.max_web_socket_message_size)
    × (out : Bytes) × (compress env compression payload ≡ ok out)
    × (length out + 22 < 2 ^ 32)

-- `encoding/json` reads back what it wrote for this value.
abbrev pub JsonFits : {A : Type 0} → JsonCodec A → A → Type 0
JsonFits codec m =
    (text : Bytes) × (codec.marshal m ≡ ok text)
    × (codec.unmarshal text ≡ ok m)
    × (length text + 4 < 2 ^ 32)

abbrev pub Fits : Packages → Message → Type 0
Fits env (auth m) = (length m.token < 256) × IsUuid m.instance_id
Fits env (auth_response m) = ResponseTexts m.success m.error m.token
Fits env (connect m) = IsUuid m.channel_id × ConnectAddress m
Fits env (connect_response m) = IsUuid m.channel_id × ResponseTexts m.success m.error []
Fits env (data_message m) =
    IsUuid m.channel_id
    × DataAddresses m
    × PayloadFits env m.compression m.payload
    × (m.sequence < 2 ^ 64)
Fits env (disconnect m) = IsUuid m.channel_id × (length m.error < 256)
Fits env (connector m) =
    IsUuid m.channel_id
    × (length m.connector_token < 256)
    × ((m.operation ≡ "add") ⊎ (m.operation ≡ "remove"))
Fits env (connector_response m) =
    IsUuid m.channel_id × ResponseTexts m.success m.error m.connector_token
Fits env (log m) = JsonFits env.log_json m
Fits env (partners m) = JsonFits env.partners_json m
Fits env (direct_capabilities m) = JsonFits env.direct_capabilities_json m
Fits env (direct_rendezvous m) = JsonFits env.direct_rendezvous_json m
Fits env (direct_status m) = JsonFits env.direct_status_json m
Fits env (channel_bind m) = JsonFits env.channel_bind_json m
Fits env (channel_migrate m) = JsonFits env.channel_migrate_json m
Fits env (channel_migrate_ack m) = JsonFits env.channel_migrate_ack_json m
Fits env (channel_data_ack m) = JsonFits env.channel_data_ack_json m
Fits env (channel_open m) = IsUuid m.channel_id
Fits env (sealed m) = IsUuid m.channel_id × (length m.payload + 20 < 2 ^ 32)
Fits env (web_register m) = JsonFits env.web_register_json m
Fits env (web_register_response m) = JsonFits env.web_register_response_json m
Fits env (web_request m) = JsonFits env.web_request_json m
Fits env (web_response m) = JsonFits env.web_response_json m
Fits env (web_data m) = IsUuid m.channel_id × (length m.payload + 21 < 2 ^ 32)
Fits env (web_cancel m) = JsonFits env.web_cancel_json m
Fits env (web_socket_frame m) =
    IsUuid m.channel_id × ((m.opcode ≡ 1) ⊎ (m.opcode ≡ 2)) × (length m.payload + 21 < 2 ^ 32)
Fits env (web_rotate m) = JsonFits env.web_rotate_json m
Fits env (unknown t) = ⊥

-- The frame of `m` with type byte `code` exists, and its payload is parsed back.
abbrev pub Round : ℕ → Message → Result Bytes → (Bytes → Result Message) → Type 0
Round code m packed parse = (p : Bytes) × (packed ≡ ok (code ∷ p)) × (parse p ≡ ok m)
