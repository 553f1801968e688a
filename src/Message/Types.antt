-- ===== src/Message/Types.antt =====
-- The message types of linksocks/message.go. A Go string whose bytes go on the wire is a list of
-- bytes; one that is only compared with literals is a `String`. A `uuid.UUID` is its 16 bytes.
-- Port numbers are natural numbers.
use linksocks.Prelude.{ℕ, Bool, List, Bytes, String}
use linksocks.Prelude.Int.{ℤ}

abbrev pub Uuid : Type 0
Uuid = Bytes

pub record AuthMessage : Type 0 where
  pub token : Bytes
  pub reverse : Bool
  pub instance_id : Uuid

pub record AuthResponseMessage : Type 0 where
  pub success : Bool
  pub error : Bytes
  pub token : Bytes

pub record ConnectMessage : Type 0 where
  pub protocol : String
  pub address : Bytes
  pub port : ℕ
  pub channel_id : Uuid
  pub resume : Bool

pub record ConnectResponseMessage : Type 0 where
  pub success : Bool
  pub error : Bytes
  pub channel_id : Uuid

pub record DataMessage : Type 0 where
  pub protocol : String
  pub channel_id : Uuid
  pub payload : Bytes
  pub compression : ℕ
  pub address : Bytes
  pub port : ℕ
  pub target_addr : Bytes
  pub target_port : ℕ
  pub sequence : ℕ

pub record DisconnectMessage : Type 0 where
  pub channel_id : Uuid
  pub error : Bytes

pub record ConnectorMessage : Type 0 where
  pub channel_id : Uuid
  pub connector_token : Bytes
  pub operation : String

pub record ConnectorResponseMessage : Type 0 where
  pub success : Bool
  pub error : Bytes
  pub channel_id : Uuid
  pub connector_token : Bytes

pub record LogMessage : Type 0 where
  pub level : Bytes
  pub msg : Bytes

pub record PartnersMessage : Type 0 where
  pub count : ℤ

pub record DirectCandidate : Type 0 where
  pub addr : Bytes
  pub port : ℤ
  pub kind : Bytes

pub record DirectMetrics : Type 0 where
  pub rtt_ms : ℤ
  pub loss : ℤ
  pub reason : Bytes

pub record DirectCapabilitiesMessage : Type 0 where
  pub session_id : Uuid
  pub candidates : List DirectCandidate
  pub discoveries : List Bytes
  pub public_key : Bytes
  pub protocol_version : ℕ

pub record DirectRendezvousMessage : Type 0 where
  pub session_id : Uuid
  pub remote_session_id : Uuid
  pub candidates : List DirectCandidate
  pub public_key : Bytes
  pub protocol_version : ℕ

pub record DirectStatusMessage : Type 0 where
  pub session_id : Uuid
  pub status : Bytes
  pub metrics : DirectMetrics

pub record ChannelBindMessage : Type 0 where
  pub channel_id : Uuid
  pub protocol : Bytes
  pub peer_session_id : Uuid

pub record ChannelMigrateMessage : Type 0 where
  pub channel_id : Uuid
  pub reason : Bytes

pub record ChannelMigrateAckMessage : Type 0 where
  pub channel_id : Uuid
  pub success : Bool
  pub error : Bytes

pub record ChannelDataAckMessage : Type 0 where
  pub channel_id : Uuid
  pub sequence : ℕ

pub record ChannelOpenMessage : Type 0 where
  pub channel_id : Uuid
  pub resume : Bool

pub record SealedMessage : Type 0 where
  pub channel_id : Uuid
  pub payload : Bytes

pub record WebBackend : Type 0 where
  pub url : Bytes
  pub weight : ℤ

pub record WebRegisterMessage : Type 0 where
  pub host : Bytes
  pub backends : List WebBackend
  pub insecure : Bool
  pub rotate : Bool
  pub label : Bytes

pub record WebRegisterResponseMessage : Type 0 where
  pub success : Bool
  pub error : Bytes
  pub host : Bytes
  pub url : Bytes
  pub temporary : Bool
  pub expires_at : ℤ
  pub rotate_seconds : ℤ
  pub backend_count : ℤ
  pub owner : Bytes

pub record WebRequestMessage : Type 0 where
  pub channel_id : Uuid
  pub method : Bytes
  pub path : Bytes
  pub headers : List (Bytes × Bytes)
  pub has_body : Bool
  pub body_length : ℤ
  pub client_ip : Bytes
  pub scheme : Bytes
  pub host : Bytes
  pub web_socket : Bool

pub record WebResponseMessage : Type 0 where
  pub channel_id : Uuid
  pub status : ℤ
  pub headers : List (Bytes × Bytes)
  pub body_length : ℤ

pub record WebDataMessage : Type 0 where
  pub channel_id : Uuid
  pub payload : Bytes
  pub end : Bool

pub record WebCancelMessage : Type 0 where
  pub channel_id : Uuid
  pub reason : Bytes
  pub code : ℤ

pub record WebSocketFrameMessage : Type 0 where
  pub channel_id : Uuid
  pub opcode : ℕ
  pub payload : Bytes

pub record WebRotateMessage : Type 0 where
  pub host : Bytes
  pub url : Bytes
  pub expires_at : ℤ
  pub rotate_seconds : ℤ

-- The dynamic types behind the interface `BaseMessage`.
pub data Message : Type 0 where
  auth : AuthMessage → Message
  auth_response : AuthResponseMessage → Message
  connect : ConnectMessage → Message
  connect_response : ConnectResponseMessage → Message
  data_message : DataMessage → Message
  disconnect : DisconnectMessage → Message
  connector : ConnectorMessage → Message
  connector_response : ConnectorResponseMessage → Message
  log : LogMessage → Message
  partners : PartnersMessage → Message
  direct_capabilities : DirectCapabilitiesMessage → Message
  direct_rendezvous : DirectRendezvousMessage → Message
  direct_status : DirectStatusMessage → Message
  channel_bind : ChannelBindMessage → Message
  channel_migrate : ChannelMigrateMessage → Message
  channel_migrate_ack : ChannelMigrateAckMessage → Message
  channel_data_ack : ChannelDataAckMessage → Message
  channel_open : ChannelOpenMessage → Message
  sealed : SealedMessage → Message
  web_register : WebRegisterMessage → Message
  web_register_response : WebRegisterResponseMessage → Message
  web_request : WebRequestMessage → Message
  web_response : WebResponseMessage → Message
  web_data : WebDataMessage → Message
  web_cancel : WebCancelMessage → Message
  web_socket_frame : WebSocketFrameMessage → Message
  web_rotate : WebRotateMessage → Message
  unknown : ℕ → Message
