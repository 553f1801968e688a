-- ===== src/Message/Parse/Texts.antt =====
-- The cases of `parseMessageBody` in linksocks/message.go that read texts and flags.
use linksocks.Prelude.{
  str_eq, ◌+◌, true, false, not, ◌&&◌, String, [], ltb, if◌then◌else◌, Bytes, Result, ok, reject,
  ◌>>=◌, ◌>>◌, index, slice, slice_from, length,
}
use linksocks.Message.Codes.{bytes_to_protocol, bytes_to_operation, byte_to_bool}
use linksocks.Message.Packages.{Packages}
use linksocks.Message.Types.{
  Uuid, Message, auth, auth_response, connect, connect_response, disconnect, connector,
  connector_response, channel_open,
}
use linksocks.Message.Parse.Steps.{read_u16, parse_uuid, short_text_at, resume_at}

module _ (env : Packages) where
  unfoldable pub parse_auth : Bytes → Result Message
  parse_auth p = do
    reject (ltb (length p) 1) "invalid auth message"
    token_len ← index p 0
    reject (ltb (length p) (1 + token_len + 1 + 16)) "invalid auth message length"
    token ← slice p 1 (1 + token_len)
    reverse ← index p (1 + token_len)
    raw ← slice p (1 + token_len + 1) (1 + token_len + 1 + 16)
    instance_id ← parse_uuid env "invalid Instance" raw
    ok (auth (record { token = token; reverse = byte_to_bool reverse; instance_id = instance_id }))

  unfoldable pub parse_auth_response : Bytes → Result Message
  parse_auth_response p = do
    reject (ltb (length p) 1) "invalid auth response message"
    first ← index p 0
    if byte_to_bool first && ltb 1 (length p)
        then (do
          token ← short_text_at p 1 "invalid auth response token length"
          ok (auth_response (record { success = true; error = []; token = token })))
        else if not (byte_to_bool first) && ltb 1 (length p)
        then (do
          error ← short_text_at p 1 "invalid auth response error length"
          ok (auth_response (record { success = false; error = error; token = [] })))
        else ok (auth_response (record { success = byte_to_bool first; error = []; token = [] }))

  unfoldable pub parse_tcp_connect : Uuid → String → Bytes → Result Message
  parse_tcp_connect channel_id protocol rest = do
    reject (ltb (length rest) 1) "invalid tcp connect message"
    addr_len ← index rest 0
    reject (ltb (length rest) (1 + addr_len + 2)) "invalid tcp connect message length"
    address ← slice rest 1 (1 + addr_len)
    port ← read_u16 rest (1 + addr_len)
    resume ← resume_at rest (1 + addr_len + 2)
    ok (
        connect (record {
          protocol = protocol;
          address = address;
          port = port;
          channel_id = channel_id;
          resume = resume;
        }))

  unfoldable pub parse_connect : Bytes → Result Message
  parse_connect p = do
    reject (ltb (length p) 17) "invalid connect message"
    b ← index p 0
    raw ← slice p 1 17
    channel_id ← parse_uuid env "invalid ChannelID" raw
    let protocol = bytes_to_protocol b
    if str_eq protocol "tcp"
        then (do rest ← slice_from p 17; parse_tcp_connect channel_id protocol rest)
        else do
          resume ← resume_at p 17
          ok (
              connect (record {
                protocol = protocol;
                address = [];
                port = 0;
                channel_id = channel_id;
                resume = resume;
              }))

  unfoldable pub parse_connect_response : Bytes → Result Message
  parse_connect_response p = do
    reject (ltb (length p) 17) "invalid connect response message"
    first ← index p 0
    raw ← slice p 1 17
    channel_id ← parse_uuid env "invalid ChannelID" raw
    if not (byte_to_bool first)
        then (do
          reject (ltb (length p) 18) "invalid connect response error length"
          error ← short_text_at p 17 "invalid connect response message length"
          ok (
              connect_response
                (record { success = false; error = error; channel_id = channel_id })))
        else ok (connect_response (record { success = true; error = []; channel_id = channel_id }))

  unfoldable pub parse_disconnect : Bytes → Result Message
  parse_disconnect p = do
    reject (ltb (length p) 16) "invalid disconnect message"
    raw ← slice p 0 16
    channel_id ← parse_uuid env "invalid ChannelID" raw
    if ltb 16 (length p)
        then (do
          error ← short_text_at p 16 "invalid disconnect message error length"
          ok (disconnect (record { channel_id = channel_id; error = error })))
        else ok (disconnect (record { channel_id = channel_id; error = [] }))

  unfoldable pub parse_connector : Bytes → Result Message
  parse_connector p = do
    reject (ltb (length p) 16) "invalid connector message"
    raw ← slice p 0 16
    channel_id ← parse_uuid env "invalid ChannelID" raw
    rest ← slice_from p 16
    reject (ltb (length rest) 1) "invalid connector message length"
    token_len ← index rest 0
    reject (ltb (length rest) (1 + token_len + 1)) "invalid connector message length"
    token ← slice rest 1 (1 + token_len)
    op ← index rest (1 + token_len)
    let operation = bytes_to_operation op
    reject (str_eq operation "") "invalid operation type"
    ok (
        connector
          (record { channel_id = channel_id; connector_token = token; operation = operation }))

  unfoldable pub parse_connector_response : Bytes → Result Message
  parse_connector_response p = do
    reject (ltb (length p) 17) "invalid connector response message"
    raw ← slice p 0 16
    channel_id ← parse_uuid env "invalid ChannelID" raw
    status ← index p 16
    if not (byte_to_bool status)
        then (do
          reject (ltb (length p) 18) "invalid connector response error length"
          error ← short_text_at p 17 "invalid connector response message length"
          ok (
              connector_response (record {
                success = false;
                error = error;
                channel_id = channel_id;
                connector_token = [];
              })))
        else if ltb 17 (length p)
        then (do
          token ← short_text_at p 17 "invalid connector response token length"
          ok (
              connector_response (record {
                success = true;
                error = [];
                channel_id = channel_id;
                connector_token = token;
              })))
        else ok (
            connector_response (record {
              success = true;
              error = [];
              channel_id = channel_id;
              connector_token = [];
            }))

  unfoldable pub parse_channel_open : Bytes → Result Message
  parse_channel_open p = do
    reject (ltb (length p) 16) "invalid channel open message"
    raw ← slice p 0 16
    channel_id ← parse_uuid env "invalid ChannelID" raw
    resume ← resume_at p 16
    ok (channel_open (record { channel_id = channel_id; resume = resume }))
