-- ===== src/Message/Codes.antt =====
-- The byte codes of linksocks/message.go: message types, protocols and connector operations.
use linksocks.Prelude.{ℕ, ◌*◌, Bool, true, false, not, ◌==◌, if◌then◌else◌, String, str_eq}

abbrev pub binary_type_auth : ℕ
binary_type_auth = 0x01

abbrev pub binary_type_auth_response : ℕ
binary_type_auth_response = 0x02

abbrev pub binary_type_connect : ℕ
binary_type_connect = 0x03

abbrev pub binary_type_data : ℕ
binary_type_data = 0x04

abbrev pub binary_type_connect_response : ℕ
binary_type_connect_response = 0x05

abbrev pub binary_type_disconnect : ℕ
binary_type_disconnect = 0x06

abbrev pub binary_type_connector : ℕ
binary_type_connector = 0x07

abbrev pub binary_type_connector_response : ℕ
binary_type_connector_response = 0x08

abbrev pub binary_type_log : ℕ
binary_type_log = 0x09

abbrev pub binary_type_partners : ℕ
binary_type_partners = 0x0A

abbrev pub binary_type_direct_capabilities : ℕ
binary_type_direct_capabilities = 0x0B

abbrev pub binary_type_direct_rendezvous : ℕ
binary_type_direct_rendezvous = 0x0C

abbrev pub binary_type_direct_status : ℕ
binary_type_direct_status = 0x0D

abbrev pub binary_type_channel_bind : ℕ
binary_type_channel_bind = 0x0E

abbrev pub binary_type_channel_migrate : ℕ
binary_type_channel_migrate = 0x0F

abbrev pub binary_type_channel_migrate_ack : ℕ
binary_type_channel_migrate_ack = 0x10

abbrev pub binary_type_channel_data_ack : ℕ
binary_type_channel_data_ack = 0x11

abbrev pub binary_type_web_register : ℕ
binary_type_web_register = 0x12

abbrev pub binary_type_web_register_response : ℕ
binary_type_web_register_response = 0x13

abbrev pub binary_type_web_request : ℕ
binary_type_web_request = 0x14

abbrev pub binary_type_web_response : ℕ
binary_type_web_response = 0x15

abbrev pub binary_type_web_data : ℕ
binary_type_web_data = 0x16

abbrev pub binary_type_web_cancel : ℕ
binary_type_web_cancel = 0x17

abbrev pub binary_type_web_rotate : ℕ
binary_type_web_rotate = 0x18

abbrev pub binary_type_web_socket_frame : ℕ
binary_type_web_socket_frame = 0x19

abbrev pub binary_type_channel_open : ℕ
binary_type_channel_open = 0x1A

abbrev pub binary_type_sealed : ℕ
binary_type_sealed = 0x1B

abbrev pub data_compression_gzip : ℕ
data_compression_gzip = 0x01

abbrev pub max_web_socket_message_size : ℕ
max_web_socket_message_size = 32 * 1024 * 1024

unfoldable pub protocol_to_bytes : String → ℕ
protocol_to_bytes protocol =
    if str_eq protocol "tcp" then 0x01 else if str_eq protocol "udp" then 0x02 else 0

unfoldable pub bytes_to_protocol : ℕ → String
bytes_to_protocol b = if b == 0x01 then "tcp" else if b == 0x02 then "udp" else ""

unfoldable pub operation_to_bytes : String → ℕ
operation_to_bytes operation =
    if str_eq operation "add" then 0x01 else if str_eq operation "remove" then 0x02 else 0

unfoldable pub bytes_to_operation : ℕ → String
bytes_to_operation b = if b == 0x01 then "add" else if b == 0x02 then "remove" else ""

abbrev pub bool_to_byte : Bool → ℕ
bool_to_byte true = 1
bool_to_byte false = 0

abbrev pub byte_to_bool : ℕ → Bool
byte_to_bool b = not (b == 0)
