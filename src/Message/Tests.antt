-- ===== src/Message/Tests.antt =====
-- Runs of the codec of linksocks/message.go over simple packages, and the theorems at concrete
-- inputs.
use linksocks.Prelude.{◌≡◌, ◌≢◌, refl, inl, Bytes, true, [], ◌∷◌, ok, panic, arith}
use linksocks.Prelude.ByteOrder.{codes}
use linksocks.Message.Body.{parse_message_with_version, parse_message}
use linksocks.Message.Sample.{packages, some_id, some_request}
use linksocks.Message.Pack.{pack_message_with_version}
use linksocks.Message.RoundTrip.{parse-pack}
use linksocks.Message.Safety.{parse_message-ne-panic}
use linksocks.Message.Types.{connect}
use linksocks.Message.Uuid.{bytes_to_uuid}
use linksocks.Message.Version.{protocol_major_supported, parse_protocol_generation}

some_request_supported : protocol_major_supported 0x20 ≡ true
unfolding protocol_major_supported
some_request_supported = refl

parse-pack_example :
    (frame : Bytes) × (pack_message_with_version packages (connect some_request) 0x20 ≡ ok frame)
    × (parse_message_with_version packages frame ≡ (ok (connect some_request), 0x20))
parse-pack_example =
    parse-pack packages (connect some_request) 0x20
      (omega arith, inl (refl, omega arith, omega arith)) some_request_supported

parse_message-ne-panic_example : parse_message packages (0x20 ∷ 0x03 ∷ 1 ∷ []) ≢ panic
parse_message-ne-panic_example =
    parse_message-ne-panic packages (0x20 ∷ 0x03 ∷ 1 ∷ []) (omega arith)

some_id_text : bytes_to_uuid some_id ≡ codes "deadbeef-0707-0707-0707-070707070707"
unfolding bytes_to_uuid
some_id_text = refl

generation_v1 : parse_protocol_generation (codes " V1") ≡ ok 0x04
unfolding parse_protocol_generation
generation_v1 = refl
