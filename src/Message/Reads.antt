-- ===== src/Message/Reads.antt =====
-- The reading steps of linksocks/message.go, where their bounds hold.
use linksocks.Prelude.{
  ℕ, ◌+◌, ◌%◌, ◌^◌, ◌<◌, ◌≤◌, ◌≡◌, ◌≢◌, Bytes, Result, ok, panic, String, annotate, index_in,
  slice_in, length, length-piece, get_or, piece, arith,
}
use linksocks.Prelude.ByteOrder.{u16_of, u32_of}
use linksocks.Message.Codes
use linksocks.Message.Packages.{Packages}
use linksocks.Message.Parse.{
  read_u16, read_u32, slice_u32, short_text_at, resume_at, sequence_at, parse_uuid, decompress,
  binary_uint64,
}
use linksocks.Message.Uuid.{bytes_to_uuid}

abbrev pub u32_at : Bytes → ℕ → ℕ
u32_at p i = u32_of (get_or p i 0) (get_or p (i + 1) 0) (get_or p (i + 2) 0) (get_or p (i + 3) 0)

pub read_u32_in : (p : Bytes) (i : ℕ) → i + 4 ≤ length p → read_u32 p i ≡ ok (u32_at p i)
unfolding read_u32
read_u32_in p i h =
    ground (arith, index_in p i, index_in p (i + 1), index_in p (i + 2), index_in p (i + 3))

pub read_u16_in :
    (p : Bytes) (i : ℕ)
    → i + 2 ≤ length p
    → read_u16 p i ≡ ok (u16_of (get_or p i 0) (get_or p (i + 1) 0))
unfolding read_u16
read_u16_in p i h = ground (arith, index_in p i, index_in p (i + 1))

pub slice_u32_in :
    (p : Bytes) (lo n : ℕ)
    → lo + n ≤ length p
    → length p < 2 ^ 32
    → slice_u32 p lo n ≡ ok (piece p lo (lo + n))
unfolding slice_u32
slice_u32_in p lo n h k =
    let e : (lo + n) % 2 ^ 32 ≡ lo + n = omega arith in
    rw e (slice_in p lo (lo + n) (omega arith) h)

pub annotate-ne-panic {ℓ} :
    {A : Type ℓ} (name : String) (r : Result A) → r ≢ panic → annotate name r ≢ panic
annotate-ne-panic name r h e = ground (arith, h)

module _ (env : Packages) where
  pub short_text_at-ne-panic :
      (p : Bytes) (i : ℕ) (name : String) → i < length p → short_text_at p i name ≢ panic
  unfolding short_text_at
  short_text_at-ne-panic p i name h e =
      ground (arith, index_in p i, slice_in p (i + 1) (i + 1 + get_or p i 0))

  pub resume_at-ne-panic : (p : Bytes) (i : ℕ) → resume_at p i ≢ panic
  unfolding resume_at
  resume_at-ne-panic p i e = ground (arith, index_in p i)

  pub sequence_at-ne-panic : (p : Bytes) (i : ℕ) → sequence_at p i ≢ panic
  unfolding sequence_at binary_uint64
  sequence_at-ne-panic p i e = ground (
    arith,
    slice_in p i (i + 8),
    read_u32_in (piece p i (i + 8)) 0,
    read_u32_in (piece p i (i + 8)) 4,
    length-piece p i (i + 8),
  )

  pub parse_uuid-ne-panic : (name : String) (raw : Bytes) → parse_uuid env name raw ≢ panic
  unfolding parse_uuid
  parse_uuid-ne-panic name raw =
      annotate-ne-panic name _ (env.uuid.parse-ne-panic (bytes_to_uuid raw))

  pub decompress-ne-panic : (c : ℕ) (raw : Bytes) → decompress env c raw ≢ panic
  unfolding decompress
  decompress-ne-panic c raw e = ground (
    arith,
    env.gzip.new_reader-ne-panic raw,
    env.gzip.read_limited-ne-panic raw (Codes.max_web_socket_message_size + 1),
    env.gzip.close_reader-ne-panic raw,
  )
