-- ===== src/Message/Parse/Steps.antt =====
-- The steps that the cases of `parseMessageBody` in linksocks/message.go share.
use linksocks.Prelude.{
  ℕ, ◌+◌, ◌*◌, ◌%◌, ◌^◌, Bool, false, not, String, ltb, leb, ◌==◌, if◌then◌else◌, Bytes, Result, ok,
  reject, annotate, ◌>>=◌, ◌>>◌, index, slice, length,
}
use linksocks.Prelude.ByteOrder.{u16_of, u32_of}
use linksocks.Message.Codes
use linksocks.Message.Codes.{bytes_to_protocol, bytes_to_operation, byte_to_bool}
use linksocks.Message.Packages.{Packages}
use linksocks.Message.Types.{Uuid}
use linksocks.Message.Uuid.{bytes_to_uuid}

-- `uint32(b[i])<<24 | uint32(b[i+1])<<16 | uint32(b[i+2])<<8 | uint32(b[i+3])`
unfoldable pub read_u32 : Bytes → ℕ → Result ℕ
read_u32 b i = do
  b0 ← index b i
  b1 ← index b (i + 1)
  b2 ← index b (i + 2)
  b3 ← index b (i + 3)
  ok (u32_of b0 b1 b2 b3)

-- `int(uint16(b[i])<<8 | uint16(b[i+1]))`
unfoldable pub read_u16 : Bytes → ℕ → Result ℕ
read_u16 b i = do b0 ← index b i; b1 ← index b (i + 1); ok (u16_of b0 b1)

unfoldable pub binary_uint64 : Bytes → Result ℕ
binary_uint64 b = do hi ← read_u32 b 0; lo ← read_u32 b 4; ok (hi * 2 ^ 32 + lo)

-- `payload[start : start+dataLen]`, whose bound is a `uint32` sum.
unfoldable pub slice_u32 : Bytes → ℕ → ℕ → Result Bytes
slice_u32 payload start data_len = slice payload start ((start + data_len) % 2 ^ 32)

-- `Len(1) + Text(Len)` at `start`.
unfoldable pub short_text_at : Bytes → ℕ → String → Result Bytes
short_text_at p start message = do
  n ← index p start
  reject (ltb (length p) (start + 1 + n)) message
  slice p (start + 1) (start + 1 + n)

-- The flag behind the address, if it is there.
unfoldable pub resume_at : Bytes → ℕ → Result Bool
resume_at rest i =
    if ltb i (length rest) then (do b ← index rest i; ok (not (b == 0))) else ok false

-- The sequence number at `i`, if eight bytes are left.
unfoldable pub sequence_at : Bytes → ℕ → Result ℕ
sequence_at p i =
    if leb (i + 8) (length p) then (do raw ← slice p i (i + 8); binary_uint64 raw) else ok 0

module _ (env : Packages) where
  unfoldable pub parse_uuid : String → Bytes → Result Uuid
  parse_uuid name raw = annotate name (env.uuid.parse (bytes_to_uuid raw))

  -- The `if compression == DataCompressionGzip` block.
  unfoldable pub decompress : ℕ → Bytes → Result Bytes
  decompress compression raw =
      if compression == Codes.data_compression_gzip
      then (do
        annotate "gzip reader creation failed" (env.gzip.new_reader raw)
        out ←
            annotate "gzip decompression failed"
              (env.gzip.read_limited raw (Codes.max_web_socket_message_size + 1))
        annotate "gzip close failed" (env.gzip.close_reader raw)
        reject (ltb Codes.max_web_socket_message_size (length out))
            "gzip decompression exceeded size limit"
        ok out)
      else ok raw
