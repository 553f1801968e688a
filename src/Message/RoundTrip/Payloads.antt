-- ===== src/Message/RoundTrip/Payloads.antt =====
-- Frames of linksocks/message.go with a 32-bit length and a payload.
use Prim.Native.Nat.{bit_and}
use linksocks.Prelude.{
  ℕ, ◌%◌, ◌^◌, ◌≡◌, refl, Bool, true, false, not, [], ◌∷◌, ◌++◌, String, length, length-append,
  append-nil, append_assoc, index_at, slice_at, slice_last, arith, ◌==◌,
}
use linksocks.Prelude.ByteOrder.{u32_bytes}
use linksocks.Message.Codes.{bool_to_byte}
use linksocks.Message.Packages.{Packages, JsonCodec}
use linksocks.Message.Pack
use linksocks.Message.Pack.{short_text, long_bytes, flag}
use linksocks.Message.Parse
use linksocks.Message.RoundTrip.Parts.{long_bytes-read, parse_uuid-ok, channel_id_bytes-ok}
use linksocks.Message.RoundTrip.Conditions
use linksocks.Message.RoundTrip.Conditions.{Round}
use linksocks.Message.Types
use linksocks.Message.Types.{Uuid, Message}

module _ (env : Packages) where
  pub sealed-Round :
      (m : Types.SealedMessage)
      → Conditions.Fits env (Types.sealed m)
      → Round 0x1b (Types.sealed m) (Pack.pack_sealed env m) (Parse.parse_sealed env)
  sealed-Round m h = (
    m.channel_id ++ long_bytes m.payload [],
    unfold Pack.pack_sealed in rw (channel_id_bytes-ok env m.channel_id h.0),
    unfold Parse.parse_sealed in
        ground (
          arith,
          slice_at [] m.channel_id (long_bytes m.payload []) 0 16 refl (omega arith),
          parse_uuid-ok env "invalid ChannelID" m.channel_id h.0,
          long_bytes-read m.channel_id m.payload [] 16 (omega arith) (omega arith),
        ),
  )

  pub json-Round :
      {A : Type 0} (wrap : A → Message) (codec : JsonCodec A) (m : A) (code : ℕ)
      (name name' : String)
      → Conditions.JsonFits codec m
      → Round code
          (wrap m)
          (Pack.pack_json_message env code codec m name)
          (Parse.unmarshal_json_message env wrap codec name')
  json-Round wrap codec m code name name' (text, e, d, fits) = (
    long_bytes text [],
    unfold Pack.pack_json_message in rw e,
    unfold Parse.unmarshal_json_message in
        ground (arith, long_bytes-read [] text [] 0 refl (omega arith)),
  )

  web_data_flag : (b : Bool) → not (bit_and (bool_to_byte b) 1 == 0) ≡ b
  web_data_flag true = refl
  web_data_flag false = refl

  pub web_data-Round :
      (m : Types.WebDataMessage)
      → Conditions.Fits env (Types.web_data m)
      → Round 0x16 (Types.web_data m) (Pack.pack_web_data env m) (Parse.parse_web_data env)
  web_data-Round m h =
      let rest = bool_to_byte m.end ∷ long_bytes m.payload [] in
      (
        m.channel_id ++ rest,
        unfold Pack.pack_web_data in rw (channel_id_bytes-ok env m.channel_id h.0),
        unfold Parse.parse_web_data in
            ground (
              arith,
              slice_at [] m.channel_id rest 0 16 refl (omega arith),
              env.uuid.from_bytes-eq m.channel_id,
              index_at m.channel_id (bool_to_byte m.end) (long_bytes m.payload []) 16 (omega arith),
              append_assoc m.channel_id (bool_to_byte m.end ∷ []) (long_bytes m.payload []),
              web_data_flag m.end,
              long_bytes-read (m.channel_id ++ (bool_to_byte m.end ∷ [])) m.payload [] 17
                  (omega (arith, length-append m.channel_id (bool_to_byte m.end ∷ [])))
                  (omega arith),
            ),
      )

  pub web_socket_frame-Round :
      (m : Types.WebSocketFrameMessage)
      → Conditions.Fits env (Types.web_socket_frame m)
      → Round 0x19
          (Types.web_socket_frame m)
          (Pack.pack_web_socket_frame env m)
          (Parse.parse_web_socket_frame env)
  web_socket_frame-Round m h =
      let rest = m.opcode ∷ long_bytes m.payload [] in
      let front = m.channel_id ++ (m.opcode ∷ []) in
      let front_len : length front ≡ 17 =
        omega (arith, length-append m.channel_id (m.opcode ∷ [])) in
      (
        m.channel_id ++ rest,
        unfold Pack.pack_web_socket_frame in ground arith,
        unfold Parse.parse_web_socket_frame in
            ground (
              arith,
              slice_at [] m.channel_id rest 0 16 refl (omega arith),
              env.uuid.from_bytes-eq m.channel_id,
              index_at m.channel_id m.opcode (long_bytes m.payload []) 16 (omega arith),
              append_assoc m.channel_id (m.opcode ∷ []) (long_bytes m.payload []),
              append_assoc front (u32_bytes (length m.payload % 2 ^ 32) []) (m.payload ++ []),
              append-nil m.payload,
              long_bytes-read front m.payload [] 17 front_len (omega arith),
              slice_last (front ++ u32_bytes (length m.payload % 2 ^ 32) []) m.payload 21
                  (length (m.channel_id ++ rest))
                  (omega (arith, length-append front (u32_bytes (length m.payload % 2 ^ 32) [])))
                  (omega (
                    arith,
                    length-append front (long_bytes m.payload []),
                    length-append m.channel_id rest,
                    length-append m.payload [],
                  )),
            ),
      )
