-- ===== src/Message/RoundTrip/DataFrames.antt =====
-- Data frames of linksocks/message.go.
use linksocks.Prelude.{
  ℕ, ◌+◌, ◌%◌, ◌^◌, ◌≤◌, ◌<◌, ◌≡◌, ◌∙◌, refl, inl, inr, Bytes, false, [], ◌∷◌, ◌++◌, String, str_eq,
  ok, length, length-append, append_assoc, index_at, slice_at, slice_last, arith, index_in, ◌==◌,
  if◌then◌else◌,
}
use linksocks.Prelude.ByteOrder.{byte_at, u64_bytes, u32_bytes, u16_bytes, u16_of-u16_bytes}
use linksocks.Message.Codes
use linksocks.Message.Codes.{
  protocol_to_bytes, bytes_to_protocol, operation_to_bytes, bytes_to_operation, bool_to_byte,
  byte_to_bool,
}
use linksocks.Message.Packages.{Packages}
use linksocks.Message.Pack
use linksocks.Message.Pack.{short_text, long_bytes, flag}
use linksocks.Message.Parse
use linksocks.Message.RoundTrip.Parts.{
  read_u16_at, long_bytes-read, parse_uuid-ok, channel_id_bytes-ok, sequence_at-u64,
  decompress-compress,
}
use linksocks.Message.RoundTrip.Conditions
use linksocks.Message.RoundTrip.Conditions.{Round}
use linksocks.Message.Types
use linksocks.Message.Types.{Uuid, Message}
use linksocks.Message.Uuid.{IsUuid}
use linksocks.Message.RoundTrip.Protocols.{
  Named, tcp-Named, udp-Named, empty-Named, is_udp, tcp_is_not_udp, empty_is_not,
}

abbrev seq_bytes : ℕ → Bytes
seq_bytes n = if n == 0 then [] else u64_bytes n []

abbrev udp_tail : Bytes → ℕ → Bytes → ℕ → ℕ → Bytes
udp_tail address port target target_port seq =
    short_text address (u16_bytes port (short_text target (u16_bytes target_port (seq_bytes seq))))

module _ (env : Packages) (m : Types.DataMessage) (hseq : m.sequence < 2 ^ 64) where
  target_part : Bytes
  target_part = short_text m.target_addr (u16_bytes m.target_port (seq_bytes m.sequence))

  udp_addresses :
      (protocol : String)
      → protocol ≡ m.protocol
      → length m.address < 256
      → m.port < 2 ^ 16
      → length m.target_addr < 256
      → m.target_port < 2 ^ 16
      → Parse.parse_udp_data env protocol m.channel_id m.compression m.payload
          (udp_tail m.address m.port m.target_addr m.target_port m.sequence)
        ≡ ok (Types.data_message m)
  unfolding Parse.parse_udp_data
  udp_addresses protocol named ha hp ht hq =
      let n = length m.address % 256 in
      let k = length m.target_addr % 256 in
      let seq = seq_bytes m.sequence in
      let two = u16_bytes m.target_port seq in
      let target = short_text m.target_addr two in
      let mid = u16_bytes m.port target in
      let rest = short_text m.address mid in
      ground (
        arith,
        index_in rest 0,
        length-append m.address mid,
        slice_at (n ∷ []) m.address mid 1 (1 + n) refl (omega arith),
        read_u16_at (n ∷ m.address) target (byte_at m.port 8) (m.port % 256) (1 + n) (omega arith),
        u16_of-u16_bytes m.port hp,
        append_assoc m.address (u16_bytes m.port []) target,
        slice_last (n ∷ (m.address ++ u16_bytes m.port [])) target (1 + n + 2) (length rest)
            (omega (arith, length-append m.address (u16_bytes m.port [])))
            (omega (arith, length-append m.address mid)),
        index_in target 0,
        length-append m.target_addr two,
        slice_at (k ∷ []) m.target_addr two 1 (1 + k) refl (omega arith),
        read_u16_at (k ∷ m.target_addr) seq (byte_at m.target_port 8) (m.target_port % 256) (1 + k)
            (omega arith),
        u16_of-u16_bytes m.target_port hq,
        append_assoc m.target_addr (u16_bytes m.target_port []) seq,
        slice_last (k ∷ (m.target_addr ++ u16_bytes m.target_port [])) seq (1 + k + 2)
            (length target)
            (omega (arith, length-append m.target_addr (u16_bytes m.target_port [])))
            (omega (arith, length-append m.target_addr two)),
        sequence_at-u64 env [] m.sequence 0 refl hseq,
      )

module _ (env : Packages) (m : Types.DataMessage) (id_fits : IsUuid m.channel_id) where
  -- The frame of `m` whose payload is packed as `out`.
  frame : ℕ → Bytes → Bytes
  frame code out = code ∷ (m.channel_id ++ (m.compression ∷ long_bytes out (Pack.data_tail env m)))

  module _ (code : ℕ) (named : Named m.protocol code) (out : Bytes)
      (small : length m.payload ≤ Codes.max_web_socket_message_size)
      (packed : Pack.compress env m.compression m.payload ≡ ok out)
      (out_fits : length out + 22 < 2 ^ 32) where
    pack-frame : Pack.pack_data env m ≡ ok (4 ∷ frame code out)
    unfolding Pack.pack_data frame
    pack-frame = rw (channel_id_bytes-ok env m.channel_id id_fits, packed, named.code)

    parse_head : Parse.parse_data env (frame code out) ≡ (
        if str_eq m.protocol "udp"
        then Parse.parse_udp_data env m.protocol m.channel_id m.compression m.payload
            (Pack.data_tail env m)
        else Parse.parse_plain_data env m.protocol m.channel_id m.compression m.payload
            (frame code out)
            (22 + length out))
    unfolding Parse.parse_data frame
    parse_head =
        let id = m.channel_id in
        let c = m.compression in
        let tail = Pack.data_tail env m in
        let rest = c ∷ long_bytes out tail in
        ground (
          arith,
          index_in (code ∷ (id ++ rest)) 0,
          slice_at (code ∷ []) id rest 1 17 refl (omega arith),
          parse_uuid-ok env "invalid ChannelID" id id_fits,
          index_at (code ∷ id) c (long_bytes out tail) 17 (omega arith),
          append_assoc id (c ∷ []) (long_bytes out tail),
          long_bytes-read (code ∷ (id ++ (c ∷ []))) out tail 18
              (omega (arith, length-append id (c ∷ []))) (omega arith),
          decompress-compress env c m.payload out small packed,
          named,
        )

    udp_frame :
        m.protocol ≡ "udp"
        → length m.address < 256
        → m.port < 2 ^ 16
        → length m.target_addr < 256
        → m.target_port < 2 ^ 16
        → m.sequence < 2 ^ 64
        → Parse.parse_data env (frame code out) ≡ ok (Types.data_message m)
    udp_frame e ha hp ht hq hs =
        parse_head
        ∙ rw (is_udp m.protocol e) (
            unfold Pack.data_tail in
            rw (is_udp m.protocol e) (udp_addresses env m hs m.protocol refl ha hp ht hq))

    plain_frame :
        str_eq m.protocol "udp" ≡ false
        → m.address ≡ []
        → m.port ≡ 0
        → m.target_addr ≡ []
        → m.target_port ≡ 0
        → m.sequence < 2 ^ 64
        → Parse.parse_data env (frame code out) ≡ ok (Types.data_message m)
    plain_frame other ea ep et eq hs =
        let mid = m.compression ∷ u32_bytes (length out % 2 ^ 32) out in
        parse_head
        ∙ rw other (
            unfold Parse.parse_plain_data frame Pack.data_tail in
            rw other (
              ground (
                arith,
                append_assoc m.channel_id mid (seq_bytes m.sequence),
                sequence_at-u64 env (code ∷ (m.channel_id ++ mid)) m.sequence (22 + length out)
                    (omega (arith, length-append m.channel_id mid)) hs,
              )))

module _ (env : Packages) (m : Types.DataMessage) where
  pub data-Round :
      Conditions.Fits env (Types.data_message m)
      → Round 0x04 (Types.data_message m) (Pack.pack_data env m) (Parse.parse_data env)
  data-Round (h, inl (e, ha, hp, ht, hq), (small, out, packed, fits), hs) =
      let named = udp-Named m.protocol e in
      (
        frame env m h 2 out,
        pack-frame env m h 2 named out small packed fits,
        udp_frame env m h 2 named out small packed fits e ha hp ht hq hs,
      )
  data-Round (h, inr (inl e, ea, ep, et, eq), (small, out, packed, fits), hs) =
      let named = tcp-Named m.protocol e in
      (
        frame env m h 1 out,
        pack-frame env m h 1 named out small packed fits,
        plain_frame env m h 1 named out small packed fits (tcp_is_not_udp m.protocol e) ea ep et eq
            hs,
      )
  data-Round (h, inr (inr e, ea, ep, et, eq), (small, out, packed, fits), hs) =
      let named = empty-Named m.protocol e in
      (
        frame env m h 0 out,
        pack-frame env m h 0 named out small packed fits,
        plain_frame env m h 0 named out small packed fits (empty_is_not m.protocol "udp" e refl) ea
            ep et eq hs,
      )
