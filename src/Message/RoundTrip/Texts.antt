-- ===== src/Message/RoundTrip/Texts.antt =====
-- Frames of linksocks/message.go that carry texts and flags.
use linksocks.Prelude.{
  ◌+◌, ◌%◌, ◌<◌, ◌≡◌, refl, ◌⊎◌, inl, inr, Bytes, Bool, true, false, [], ◌∷◌, ◌++◌, String, str_eq,
  length, length-append, append_assoc, index_at, slice_at, slice_last, arith, index_in,
}
use linksocks.Message.Codes.{operation_to_bytes, bytes_to_operation, bool_to_byte}
use linksocks.Message.Packages.{Packages}
use linksocks.Message.Pack
use linksocks.Message.Pack.{short_text, long_bytes, flag}
use linksocks.Message.Parse
use linksocks.Message.RoundTrip.Parts.{
  parse_uuid-ok, channel_id_bytes-ok, instance_bytes-ok, short_text_at-ok, resume_at-flag,
}
use linksocks.Message.RoundTrip.Conditions
use linksocks.Message.RoundTrip.Conditions.{Round}
use linksocks.Message.Types
use linksocks.Message.Types.{Uuid, Message}
use linksocks.Message.Uuid.{IsUuid}

operation_code :
    (o : String)
    → (o ≡ "add") ⊎ (o ≡ "remove")
    → (bytes_to_operation (operation_to_bytes o) ≡ o) × (str_eq o "" ≡ false)
unfolding bytes_to_operation operation_to_bytes
operation_code o (inl e) = rw e (refl, refl)
operation_code o (inr e) = rw e (refl, refl)

module _ (env : Packages) where
  pub auth-Round :
      (m : Types.AuthMessage)
      → Conditions.Fits env (Types.auth m)
      → Round 0x01 (Types.auth m) (Pack.pack_auth env m) (Parse.parse_auth env)
  auth-Round m h =
      let id = m.instance_id in
      let n = length m.token % 256 in
      let r = bool_to_byte m.reverse in
      (
        short_text m.token (r ∷ id),
        unfold Pack.pack_auth in rw (instance_bytes-ok env id h.1),
        unfold Parse.parse_auth in
            ground (
              arith,
              index_in (short_text m.token (r ∷ id)) 0,
              slice_at (n ∷ []) m.token (r ∷ id) 1 (1 + n) refl (omega arith),
              index_at (n ∷ m.token) r id (1 + n) (omega arith),
              append_assoc m.token (r ∷ []) id,
              slice_last (n ∷ (m.token ++ (r ∷ []))) id (1 + n + 1) (1 + n + 1 + 16)
                  (omega (arith, length-append m.token (r ∷ []))) (omega arith),
              length-append m.token (r ∷ id),
              parse_uuid-ok env "invalid Instance" id h.1,
            ),
      )

  auth_response_case :
      (success : Bool) (error token : Bytes)
      → Conditions.ResponseTexts success error token
      → let m : Types.AuthResponseMessage = record {
        success = success;
        error = error;
        token = token;
      } in
        Round 0x02
          (Types.auth_response m)
          (Pack.pack_auth_response env m)
          (Parse.parse_auth_response env)
  auth_response_case true error [] h = (
    1 ∷ [],
    unfold Pack.pack_auth_response in refl,
    unfold Parse.parse_auth_response in ground (arith, index_in (1 ∷ []) 0),
  )
  auth_response_case true error (c ∷ cs) h =
      let n = length (c ∷ cs) % 256 in
      (
        1 ∷ short_text (c ∷ cs) [],
        unfold Pack.pack_auth_response in refl,
        unfold Parse.parse_auth_response in
            ground (
              arith,
              index_in (1 ∷ short_text (c ∷ cs) []) 0,
              short_text_at-ok env (1 ∷ []) (c ∷ cs) [] n 1 "invalid auth response token length"
                  refl (omega arith),
            ),
      )
  auth_response_case false error token h =
      let n = length error % 256 in
      (
        0 ∷ short_text error [],
        unfold Pack.pack_auth_response in refl,
        unfold Parse.parse_auth_response in
            ground (
              arith,
              index_in (0 ∷ short_text error []) 0,
              short_text_at-ok env (0 ∷ []) error [] n 1 "invalid auth response error length" refl
                  (omega arith),
            ),
      )

  pub auth_response-Round :
      (m : Types.AuthResponseMessage)
      → Conditions.Fits env (Types.auth_response m)
      → Round 0x02
          (Types.auth_response m)
          (Pack.pack_auth_response env m)
          (Parse.parse_auth_response env)
  auth_response-Round m h = auth_response_case m.success m.error m.token h

  pub channel_open-Round :
      (m : Types.ChannelOpenMessage)
      → Conditions.Fits env (Types.channel_open m)
      → Round 0x1a
          (Types.channel_open m)
          (Pack.pack_channel_open env m)
          (Parse.parse_channel_open env)
  channel_open-Round m h = (
    m.channel_id ++ flag m.resume,
    unfold Pack.pack_channel_open in rw (channel_id_bytes-ok env m.channel_id h),
    unfold Parse.parse_channel_open in
        ground (
          arith,
          slice_at [] m.channel_id (flag m.resume) 0 16 refl (omega arith),
          parse_uuid-ok env "invalid ChannelID" m.channel_id h,
          length-append m.channel_id (flag m.resume),
          resume_at-flag env m.channel_id m.resume 16,
        ),
  )

  pub connector-Round :
      (m : Types.ConnectorMessage)
      → Conditions.Fits env (Types.connector m)
      → Round 0x07 (Types.connector m) (Pack.pack_connector env m) (Parse.parse_connector env)
  connector-Round m h =
      let id = m.channel_id in
      let n = length m.connector_token % 256 in
      let op = operation_to_bytes m.operation in
      let rest = short_text m.connector_token (op ∷ []) in
      (
        id ++ rest,
        unfold Pack.pack_connector in rw (channel_id_bytes-ok env id h.0),
        unfold Parse.parse_connector in
            ground (
              arith,
              slice_at [] id rest 0 16 refl (omega arith),
              parse_uuid-ok env "invalid ChannelID" id h.0,
              slice_last id rest 16 (length (id ++ rest)) (omega arith)
                  (omega (arith, length-append id rest)),
              length-append id rest,
              length-append m.connector_token (op ∷ []),
              index_in rest 0,
              slice_at (n ∷ []) m.connector_token (op ∷ []) 1 (1 + n) refl (omega arith),
              index_at (n ∷ m.connector_token) op [] (1 + n) (omega arith),
              operation_code m.operation h.2,
            ),
      )

  disconnect_case :
      (id : Uuid) (error : Bytes)
      → IsUuid id
      → length error < 256
      → let m : Types.DisconnectMessage = record { channel_id = id; error = error } in
        Round 0x06 (Types.disconnect m) (Pack.pack_disconnect env m) (Parse.parse_disconnect env)
  disconnect_case id [] h k = (
    id ++ [],
    unfold Pack.pack_disconnect in rw (channel_id_bytes-ok env id h),
    unfold Parse.parse_disconnect in
        ground (
          arith,
          slice_at [] id [] 0 16 refl (omega arith),
          length-append id [],
          parse_uuid-ok env "invalid ChannelID" id h,
        ),
  )
  disconnect_case id (c ∷ cs) h k =
      let rest = short_text (c ∷ cs) [] in
      let n = length (c ∷ cs) % 256 in
      (
        id ++ rest,
        unfold Pack.pack_disconnect in rw (channel_id_bytes-ok env id h),
        unfold Parse.parse_disconnect in
            ground (
              arith,
              slice_at [] id rest 0 16 refl (omega arith),
              length-append id rest,
              parse_uuid-ok env "invalid ChannelID" id h,
              short_text_at-ok env id (c ∷ cs) [] n 16 "invalid disconnect message error length"
                  (omega arith) (omega arith),
            ),
      )

  pub disconnect-Round :
      (m : Types.DisconnectMessage)
      → Conditions.Fits env (Types.disconnect m)
      → Round 0x06 (Types.disconnect m) (Pack.pack_disconnect env m) (Parse.parse_disconnect env)
  disconnect-Round m h = disconnect_case m.channel_id m.error h.0 h.1
