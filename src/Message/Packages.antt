-- ===== src/Message/Packages.antt =====
-- The packages that linksocks/message.go calls: github.com/google/uuid, compress/gzip and
-- encoding/json. They are a parameter of the codec, with the documented behaviour it relies on.
use linksocks.Prelude.{ℕ, ◌≤◌, ◌≡◌, ◌≢◌, Bytes, Result, ok, panic, length}
use linksocks.Message.Types.{
  LogMessage, PartnersMessage, DirectCapabilitiesMessage, DirectRendezvousMessage,
  DirectStatusMessage, ChannelBindMessage, ChannelMigrateMessage, ChannelMigrateAckMessage,
  ChannelDataAckMessage, WebRegisterMessage, WebRegisterResponseMessage, WebRequestMessage,
  WebResponseMessage, WebCancelMessage, WebRotateMessage,
}
use linksocks.Message.Uuid.{UuidPackage}

-- `gzip.Writer` and `gzip.Reader` over one byte slice. `read_limited c n` is `io.ReadAll` of an
-- `io.LimitReader` of `n` bytes over the reader of `c`.
pub record GzipPackage : Type 0 where
  pub write : Bytes → Result (Unit {0})
  pub close_writer : Bytes → Result Bytes
  pub new_reader : Bytes → Result (Unit {0})
  pub read_limited : Bytes → ℕ → Result Bytes
  pub close_reader : Bytes → Result (Unit {0})
  pub new_reader-ne-panic : (c : Bytes) → new_reader c ≢ panic
  pub read_limited-ne-panic : (c : Bytes) (n : ℕ) → read_limited c n ≢ panic
  pub close_reader-ne-panic : (c : Bytes) → close_reader c ≢ panic
  -- What was compressed can be read back whole, within the limit.
  pub new_reader-writer : (d c : Bytes) → close_writer d ≡ ok c → new_reader c ≡ ok tt
  pub read_limited-writer :
      (d c : Bytes) (n : ℕ) → close_writer d ≡ ok c → length d ≤ n → read_limited c n ≡ ok d
  pub close_reader-writer : (d c : Bytes) → close_writer d ≡ ok c → close_reader c ≡ ok tt

-- `json.Marshal` and `json.Unmarshal` at one message type.
pub record JsonCodec (A : Type 0) : Type 0 where
  pub marshal : A → Result Bytes
  pub unmarshal : Bytes → Result A
  pub unmarshal-ne-panic : (s : Bytes) → unmarshal s ≢ panic

pub record Packages : Type 0 where
  pub uuid : UuidPackage
  pub gzip : GzipPackage
  pub log_json : JsonCodec LogMessage
  pub partners_json : JsonCodec PartnersMessage
  pub direct_capabilities_json : JsonCodec DirectCapabilitiesMessage
  pub direct_rendezvous_json : JsonCodec DirectRendezvousMessage
  pub direct_status_json : JsonCodec DirectStatusMessage
  pub channel_bind_json : JsonCodec ChannelBindMessage
  pub channel_migrate_json : JsonCodec ChannelMigrateMessage
  pub channel_migrate_ack_json : JsonCodec ChannelMigrateAckMessage
  pub channel_data_ack_json : JsonCodec ChannelDataAckMessage
  pub web_register_json : JsonCodec WebRegisterMessage
  pub web_register_response_json : JsonCodec WebRegisterResponseMessage
  pub web_request_json : JsonCodec WebRequestMessage
  pub web_response_json : JsonCodec WebResponseMessage
  pub web_cancel_json : JsonCodec WebCancelMessage
  pub web_rotate_json : JsonCodec WebRotateMessage
