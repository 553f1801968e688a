-- ===== src/Message/RoundTrip/Responses.antt =====
-- Frames of linksocks/message.go that answer a request.
use linksocks.Prelude.{
  ◌%◌, refl, Bytes, Bool, true, false, [], ◌∷◌, ◌++◌, length, length-append, append_assoc, index_at,
  slice_at, arith, index_in,
}
use linksocks.Message.Packages.{Packages}
use linksocks.Message.Pack
use linksocks.Message.Pack.{short_text, long_bytes, flag}
use linksocks.Message.Parse
use linksocks.Message.RoundTrip.Parts.{parse_uuid-ok, channel_id_bytes-ok, short_text_at-ok}
use linksocks.Message.RoundTrip.Conditions
use linksocks.Message.RoundTrip.Conditions.{Round}
use linksocks.Message.Types
use linksocks.Message.Types.{Uuid, Message}
use linksocks.Message.Uuid.{IsUuid}

module _ (env : Packages) where
  connect_response_case :
      (success : Bool) (error : Bytes) (id : Uuid)
      → IsUuid id
      → Conditions.ResponseTexts success error []
      → let m : Types.ConnectResponseMessage = record {
        success = success;
        error = error;
        channel_id = id;
      } in
        Round 0x05
          (Types.connect_response m)
          (Pack.pack_connect_response env m)
          (Parse.parse_connect_response env)
  connect_response_case true error id h k = (
    1 ∷ (id ++ []),
    unfold Pack.pack_connect_response in rw (channel_id_bytes-ok env id h),
    unfold Parse.parse_connect_response in
        ground (
          arith,
          index_in (1 ∷ (id ++ [])) 0,
          length-append id [],
          slice_at (1 ∷ []) id [] 1 17 refl (omega arith),
          parse_uuid-ok env "invalid ChannelID" id h,
        ),
  )
  connect_response_case false error id h k =
      let n = length error % 256 in
      let rest = short_text error [] in
      (
        0 ∷ (id ++ rest),
        unfold Pack.pack_connect_response in rw (channel_id_bytes-ok env id h),
        unfold Parse.parse_connect_response in
            ground (
              arith,
              index_in (0 ∷ (id ++ rest)) 0,
              length-append id rest,
              slice_at (0 ∷ []) id rest 1 17 refl (omega arith),
              parse_uuid-ok env "invalid ChannelID" id h,
              short_text_at-ok env (0 ∷ id) error [] n 17 "invalid connect response message length"
                  (omega arith) (omega arith),
            ),
      )

  pub connect_response-Round :
      (m : Types.ConnectResponseMessage)
      → Conditions.Fits env (Types.connect_response m)
      → Round 0x05
          (Types.connect_response m)
          (Pack.pack_connect_response env m)
          (Parse.parse_connect_response env)
  connect_response-Round m h = connect_response_case m.success m.error m.channel_id h.0 h.1

  connector_response_case :
      (success : Bool) (error : Bytes) (id : Uuid) (token : Bytes)
      → IsUuid id
      → Conditions.ResponseTexts success error token
      → let m : Types.ConnectorResponseMessage = record {
        success = success;
        error = error;
        channel_id = id;
        connector_token = token;
      } in
        Round 0x08
          (Types.connector_response m)
          (Pack.pack_connector_response env m)
          (Parse.parse_connector_response env)
  connector_response_case true error id [] h k = (
    id ++ (1 ∷ []),
    unfold Pack.pack_connector_response in rw (channel_id_bytes-ok env id h),
    unfold Parse.parse_connector_response in
        ground (
          arith,
          length-append id (1 ∷ []),
          slice_at [] id (1 ∷ []) 0 16 refl (omega arith),
          index_at id 1 [] 16 (omega arith),
          parse_uuid-ok env "invalid ChannelID" id h,
        ),
  )
  connector_response_case true error id (c ∷ cs) h k =
      let rest = short_text (c ∷ cs) [] in
      (
        id ++ (1 ∷ rest),
        unfold Pack.pack_connector_response in rw (channel_id_bytes-ok env id h),
        unfold Parse.parse_connector_response in
            ground (
              arith,
              length-append id (1 ∷ rest),
              append_assoc id (1 ∷ []) rest,
              slice_at [] id (1 ∷ rest) 0 16 refl (omega arith),
              index_at id 1 rest 16 (omega arith),
              parse_uuid-ok env "invalid ChannelID" id h,
              short_text_at-ok env (id ++ (1 ∷ [])) (c ∷ cs) [] (length (c ∷ cs) % 256) 17
                  "invalid connector response token length"
                  (omega (arith, length-append id (1 ∷ []))) (omega arith),
            ),
      )
  connector_response_case false error id token h k =
      let rest = short_text error [] in
      (
        id ++ (0 ∷ rest),
        unfold Pack.pack_connector_response in rw (channel_id_bytes-ok env id h),
        unfold Parse.parse_connector_response in
            ground (
              arith,
              length-append id (0 ∷ rest),
              append_assoc id (0 ∷ []) rest,
              slice_at [] id (0 ∷ rest) 0 16 refl (omega arith),
              index_at id 0 rest 16 (omega arith),
              parse_uuid-ok env "invalid ChannelID" id h,
              short_text_at-ok env (id ++ (0 ∷ [])) error [] (length error % 256) 17
                  "invalid connector response message length"
                  (omega (arith, length-append id (0 ∷ []))) (omega arith),
            ),
      )

  pub connector_response-Round :
      (m : Types.ConnectorResponseMessage)
      → Conditions.Fits env (Types.connector_response m)
      → Round 0x08
          (Types.connector_response m)
          (Pack.pack_connector_response env m)
          (Parse.parse_connector_response env)
  connector_response-Round m h =
      connector_response_case m.success m.error m.channel_id m.connector_token h.0 h.1
