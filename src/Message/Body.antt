-- ===== src/Message/Body.antt =====
-- The switch of `parseMessageBody`, `ParseMessageWithVersion` and `ParseMessage` of
-- linksocks/message.go.
use linksocks.Prelude.{switch, ◌∷◌, [], ℕ, if◌then◌else◌, [], ◌∷◌, Bytes, plain, Result, ok, err}
use linksocks.Message.Codes
use linksocks.Message.Packages.{Packages}
use linksocks.Message.Parse.{
  parse_auth, parse_auth_response, parse_connect, parse_connect_response, parse_data,
  parse_disconnect, parse_connector, parse_connector_response, unmarshal_json_message,
  parse_channel_open, parse_sealed, parse_web_data, parse_web_socket_frame,
}
use linksocks.Message.Types.{
  Message, log, partners, direct_capabilities, direct_rendezvous, direct_status, channel_bind,
  channel_migrate, channel_migrate_ack, channel_data_ack, web_register, web_register_response,
  web_request, web_response, web_cancel, web_rotate, unknown,
}
use linksocks.Message.Version.{protocol_major_supported}

unfoldable pub parse_message_body : Packages → ℕ → Bytes → Result Message
parse_message_body env t p =
    switch t
      ((Codes.binary_type_auth, parse_auth env p)
        ∷ (Codes.binary_type_auth_response, parse_auth_response env p)
        ∷ (Codes.binary_type_connect, parse_connect env p)
        ∷ (Codes.binary_type_connect_response, parse_connect_response env p)
        ∷ (Codes.binary_type_data, parse_data env p)
        ∷ (Codes.binary_type_disconnect, parse_disconnect env p)
        ∷ (Codes.binary_type_connector, parse_connector env p)
        ∷ (Codes.binary_type_connector_response, parse_connector_response env p)
        ∷ (Codes.binary_type_log, unmarshal_json_message env log env.log_json "log" p)
        ∷ (
          Codes.binary_type_partners,
          unmarshal_json_message env partners env.partners_json "partners" p,
        )
        ∷ (
          Codes.binary_type_direct_capabilities,
          unmarshal_json_message env direct_capabilities env.direct_capabilities_json
              "direct capabilities" p,
        )
        ∷ (
          Codes.binary_type_direct_rendezvous,
          unmarshal_json_message env direct_rendezvous env.direct_rendezvous_json
              "direct rendezvous" p,
        )
        ∷ (
          Codes.binary_type_direct_status,
          unmarshal_json_message env direct_status env.direct_status_json "direct status" p,
        )
        ∷ (
          Codes.binary_type_channel_bind,
          unmarshal_json_message env channel_bind env.channel_bind_json "channel bind" p,
        )
        ∷ (
          Codes.binary_type_channel_migrate,
          unmarshal_json_message env channel_migrate env.channel_migrate_json "channel migrate" p,
        )
        ∷ (
          Codes.binary_type_channel_migrate_ack,
          unmarshal_json_message env channel_migrate_ack env.channel_migrate_ack_json
              "channel migrate ack" p,
        )
        ∷ (
          Codes.binary_type_channel_data_ack,
          unmarshal_json_message env channel_data_ack env.channel_data_ack_json "channel data ack"
              p,
        )
        ∷ (Codes.binary_type_channel_open, parse_channel_open env p)
        ∷ (Codes.binary_type_sealed, parse_sealed env p)
        ∷ (
          Codes.binary_type_web_register,
          unmarshal_json_message env web_register env.web_register_json "web register" p,
        )
        ∷ (
          Codes.binary_type_web_register_response,
          unmarshal_json_message env web_register_response env.web_register_response_json
              "web register response" p,
        )
        ∷ (
          Codes.binary_type_web_request,
          unmarshal_json_message env web_request env.web_request_json "web request" p,
        )
        ∷ (
          Codes.binary_type_web_response,
          unmarshal_json_message env web_response env.web_response_json "web response" p,
        )
        ∷ (Codes.binary_type_web_data, parse_web_data env p)
        ∷ (
          Codes.binary_type_web_cancel,
          unmarshal_json_message env web_cancel env.web_cancel_json "web cancel" p,
        )
        ∷ (Codes.binary_type_web_socket_frame, parse_web_socket_frame env p)
        ∷ (
          Codes.binary_type_web_rotate,
          unmarshal_json_message env web_rotate env.web_rotate_json "web rotate" p,
        )
        ∷ [])
      (ok (unknown t))

-- The message or the error, and the version byte. The patterns are the test on the length.
unfoldable pub parse_message_with_version : Packages → Bytes → Result Message × ℕ
parse_message_with_version env (version ∷ msg_type ∷ payload) =
    if protocol_major_supported version
    then (parse_message_body env msg_type payload, version)
    else (err (plain "unsupported protocol major version"), version)
parse_message_with_version env _ = (err (plain "message too short"), 0)

-- `ParseMessage`
unfoldable pub parse_message : Packages → Bytes → Result Message
parse_message env payload = (parse_message_with_version env payload).0
