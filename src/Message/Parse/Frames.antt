-- ===== src/Message/Parse/Frames.antt =====
-- The cases of `parseMessageBody` in linksocks/message.go that read a 32-bit length.
use Prim.Native.Nat.{bit_and}
use linksocks.Prelude.{
  str_eq, ℕ, ◌+◌, ◌-◌, not, ◌&&◌, String, [], ltb, ◌==◌, if◌then◌else◌, Bytes, Result, ok, reject,
  annotate, ◌>>=◌, ◌>>◌, index, slice, slice_from, length,
}
use linksocks.Message.Codes.{bytes_to_protocol}
use linksocks.Message.Packages.{Packages, JsonCodec}
use linksocks.Message.Types.{Uuid, Message, data_message, sealed, web_data, web_socket_frame}
use linksocks.Message.Parse.Steps.{
  read_u32, read_u16, slice_u32, parse_uuid, decompress, sequence_at,
}

module _ (env : Packages) where
  unfoldable pub parse_udp_data : String → Uuid → ℕ → Bytes → Bytes → Result Message
  parse_udp_data protocol channel_id compression payload rest = do
    reject (ltb (length rest) 1) "invalid udp data message"
    addr_len ← index rest 0
    reject (ltb (length rest) (1 + addr_len + 2 + 1)) "invalid udp data message length"
    address ← slice rest 1 (1 + addr_len)
    port ← read_u16 rest (1 + addr_len)
    target ← slice_from rest (1 + addr_len + 2)
    reject (ltb (length target) 1) "invalid udp data message"
    target_addr_len ← index target 0
    reject (ltb (length target) (1 + target_addr_len + 2)) "invalid udp data message target address"
    target_addr ← slice target 1 (1 + target_addr_len)
    target_port ← read_u16 target (1 + target_addr_len)
    behind ← slice_from target (1 + target_addr_len + 2)
    sequence ← sequence_at behind 0
    ok (
        data_message (record {
          protocol = protocol;
          channel_id = channel_id;
          payload = payload;
          compression = compression;
          address = address;
          port = port;
          target_addr = target_addr;
          target_port = target_port;
          sequence = sequence;
        }))

  unfoldable pub parse_plain_data : String → Uuid → ℕ → Bytes → Bytes → ℕ → Result Message
  parse_plain_data protocol channel_id compression payload p i = do
    sequence ← sequence_at p i
    ok (
        data_message (record {
          protocol = protocol;
          channel_id = channel_id;
          payload = payload;
          compression = compression;
          address = [];
          port = 0;
          target_addr = [];
          target_port = 0;
          sequence = sequence;
        }))

  unfoldable pub parse_data : Bytes → Result Message
  parse_data p = do
    reject (ltb (length p) 22) "invalid data message"
    b ← index p 0
    raw_id ← slice p 1 17
    channel_id ← parse_uuid env "invalid ChannelID" raw_id
    compression ← index p 17
    data_len ← read_u32 p 18
    reject (ltb (length p) (22 + data_len)) "invalid data message length"
    raw ← slice_u32 p 22 data_len
    payload ← decompress env compression raw
    let protocol = bytes_to_protocol b
    if str_eq protocol "udp"
        then (do
          rest ← slice_from p (22 + data_len)
          parse_udp_data protocol channel_id compression payload rest)
        else parse_plain_data protocol channel_id compression payload p (22 + data_len)

  -- `unmarshalJSONMessage`; the cases that write it out do the same.
  unfoldable pub unmarshal_json_message :
      {A : Type 0} → (A → Message) → JsonCodec A → String → Bytes → Result Message
  unmarshal_json_message wrap codec name p = do
    reject (ltb (length p) 4) name
    data_len ← read_u32 p 0
    reject (ltb (length p) (4 + data_len)) name
    json_data ← slice_u32 p 4 data_len
    m ← annotate name (codec.unmarshal json_data)
    ok (wrap m)

  unfoldable pub parse_sealed : Bytes → Result Message
  parse_sealed p = do
    reject (ltb (length p) 20) "invalid sealed message"
    raw ← slice p 0 16
    channel_id ← parse_uuid env "invalid ChannelID" raw
    data_len ← read_u32 p 16
    reject (ltb (length p) (20 + data_len)) "invalid sealed message length"
    payload ← slice_u32 p 20 data_len
    ok (sealed (record { channel_id = channel_id; payload = payload }))

  unfoldable pub parse_web_data : Bytes → Result Message
  parse_web_data p = do
    reject (ltb (length p) 21) "invalid web data message"
    raw ← slice p 0 16
    channel_id ← annotate "invalid web data channel id" (env.uuid.from_bytes raw)
    flags ← index p 16
    data_len ← read_u32 p 17
    reject (ltb (length p) (21 + data_len)) "invalid web data message length"
    payload ← slice_u32 p 21 data_len
    ok (
        web_data
          (record { channel_id = channel_id; payload = payload; end = not (bit_and flags 1 == 0) }))

  unfoldable pub parse_web_socket_frame : Bytes → Result Message
  parse_web_socket_frame p = do
    reject (ltb (length p) 21) "invalid WebSocket frame message"
    raw ← slice p 0 16
    channel_id ← annotate "invalid WebSocket channel id" (env.uuid.from_bytes raw)
    opcode ← index p 16
    reject (not (opcode == 1) && not (opcode == 2)) "invalid WebSocket frame opcode"
    data_len ← read_u32 p 17
    reject (not (data_len == (length p - 21))) "invalid WebSocket frame message length"
    payload ← slice_from p 21
    ok (web_socket_frame (record { channel_id = channel_id; opcode = opcode; payload = payload }))
