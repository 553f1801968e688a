-- ===== src/Message/RoundTrip.antt =====
-- Packing a message of linksocks/message.go and parsing the frame gives the message back.
mod Parts
mod Conditions
mod Protocols
mod Texts
mod Responses
mod Connect
mod DataFrames
mod Payloads
pub use Conditions.{
  Fits, ResponseTexts, ConnectAddress, DataAddresses, PayloadFits, JsonFits, Round,
}
use linksocks.Prelude.{
  ℕ, ◌≡◌, ◌∙◌, ap, refl, Bytes, true, String, Result, ok, ◌∷◌, arith, if◌then◌else◌, ◌>>=◌, switch,
}
use linksocks.Message.Body.{parse_message_body, parse_message_with_version}
use linksocks.Message.Pack.{pack_body, pack_message_with_version}
use linksocks.Message.Packages.{Packages}
use linksocks.Message.Types.{
  Message, auth, auth_response, connect, connect_response, data_message, disconnect, connector,
  connector_response, log, partners, direct_capabilities, direct_rendezvous, direct_status,
  channel_bind, channel_migrate, channel_migrate_ack, channel_data_ack, channel_open, sealed,
  web_register, web_register_response, web_request, web_response, web_data, web_cancel,
  web_socket_frame, web_rotate, unknown,
}
use linksocks.Message.Version.{protocol_major_supported}
use Texts.{auth-Round, auth_response-Round, channel_open-Round, connector-Round, disconnect-Round}
use Responses.{connect_response-Round, connector_response-Round}
use Connect.{connect-Round}
use DataFrames.{data-Round}
use Payloads.{sealed-Round, json-Round, web_data-Round, web_socket_frame-Round}

-- A body that is packed and parsed back.
abbrev BodyRound : Packages → Message → Type 0
BodyRound env m = (code : ℕ) × Round code m (pack_body env m) (parse_message_body env code)

body-Round : (env : Packages) (m : Message) → Fits env m → BodyRound env m
unfolding pack_body parse_message_body switch
body-Round env (auth m) h = (0x01, auth-Round env m h)
body-Round env (auth_response m) h = (0x02, auth_response-Round env m h)
body-Round env (connect m) h = (0x03, connect-Round env m h)
body-Round env (connect_response m) h = (0x05, connect_response-Round env m h)
body-Round env (data_message m) h = (0x04, data-Round env m h)
body-Round env (disconnect m) h = (0x06, disconnect-Round env m h)
body-Round env (connector m) h = (0x07, connector-Round env m h)
body-Round env (connector_response m) h = (0x08, connector_response-Round env m h)
body-Round env (log m) h = (0x09, json-Round env log env.log_json m 0x09 "log" "log" h)
body-Round env (partners m) h =
    (0x0a, json-Round env partners env.partners_json m 0x0a "partners" "partners" h)
body-Round env (direct_capabilities m) h = (
  0x0b,
  json-Round env direct_capabilities env.direct_capabilities_json m 0x0b "direct capabilities"
      "direct capabilities" h,
)
body-Round env (direct_rendezvous m) h = (
  0x0c,
  json-Round env direct_rendezvous env.direct_rendezvous_json m 0x0c "direct rendezvous"
      "direct rendezvous" h,
)
body-Round env (direct_status m) h = (
  0x0d,
  json-Round env direct_status env.direct_status_json m 0x0d "direct status" "direct status" h,
)
body-Round env (channel_bind m) h =
    (0x0e, json-Round env channel_bind env.channel_bind_json m 0x0e "channel bind" "channel bind" h)
body-Round env (channel_migrate m) h = (
  0x0f,
  json-Round env channel_migrate env.channel_migrate_json m 0x0f "channel migrate" "channel migrate"
      h,
)
body-Round env (channel_migrate_ack m) h = (
  0x10,
  json-Round env channel_migrate_ack env.channel_migrate_ack_json m 0x10 "channel migrate ack"
      "channel migrate ack" h,
)
body-Round env (channel_data_ack m) h = (
  0x11,
  json-Round env channel_data_ack env.channel_data_ack_json m 0x11 "channel data ack"
      "channel data ack" h,
)
body-Round env (channel_open m) h = (0x1a, channel_open-Round env m h)
body-Round env (sealed m) h = (0x1b, sealed-Round env m h)
body-Round env (web_register m) h =
    (0x12, json-Round env web_register env.web_register_json m 0x12 "web register" "web register" h)
body-Round env (web_register_response m) h = (
  0x13,
  json-Round env web_register_response env.web_register_response_json m 0x13 "web register response"
      "web register response" h,
)
body-Round env (web_request m) h =
    (0x14, json-Round env web_request env.web_request_json m 0x14 "web request" "web request" h)
body-Round env (web_response m) h =
    (0x15, json-Round env web_response env.web_response_json m 0x15 "web response" "web response" h)
body-Round env (web_data m) h = (0x16, web_data-Round env m h)
body-Round env (web_cancel m) h =
    (0x17, json-Round env web_cancel env.web_cancel_json m 0x17 "web cancel" "web cancel" h)
body-Round env (web_socket_frame m) h = (0x19, web_socket_frame-Round env m h)
body-Round env (web_rotate m) h =
    (0x18, json-Round env web_rotate env.web_rotate_json m 0x18 "web rotate" "web rotate" h)
body-Round env (unknown t) h = absurd h

-- Every message whose fields fit its frame is packed, under any supported version, into a frame
-- that parses to the same message and the same version.
pub parse-pack :
    (env : Packages) (m : Message) (version : ℕ)
    → Fits env m
    → protocol_major_supported version ≡ true
    → (frame : Bytes) × (pack_message_with_version env m version ≡ ok frame)
      × (parse_message_with_version env frame ≡ (ok m, version))
unfolding parse_message_with_version pack_message_with_version
parse-pack env m version h supported =
    let (code, (p, packed, parsed)) = body-Round env m h in
    (version ∷ code ∷ p, rw packed, rw (supported, parsed))
