-- ===== src/Message/RoundTrip/Parts.antt =====
-- The reading steps of linksocks/message.go on frames that are joined from known parts.
use linksocks.Prelude.{
  subst, slice, ℕ, ◌+◌, ◌*◌, ◌%◌, ◌^◌, ◌≤◌, ◌<◌, ◌≡◌, ap, sym, ◌∙◌, refl, Bytes, Bool, true, false,
  [], ◌∷◌, ◌++◌, String, ok, length, length-append, append-nil, append_assoc, index_at, slice_at,
  slice_last, arith, ◌==◌, if◌then◌else◌,
}
use linksocks.Prelude.ByteOrder.{u32_of-u32_bytes, u16_of, u32_of, byte_at, u64_bytes, u32_bytes}
use linksocks.Message.Codes
use linksocks.Message.Packages.{Packages}
use linksocks.Message.Pack.{long_bytes, channel_id_bytes, instance_bytes, flag, compress}
use linksocks.Message.Parse.{
  read_u16, read_u32, slice_u32, short_text_at, resume_at, sequence_at, binary_uint64, parse_uuid,
  decompress,
}
use linksocks.Message.Types.{Uuid}
use linksocks.Message.Uuid.{IsUuid}
use linksocks.Message.Uuid.RoundTrip.{uuid_to_bytes-bytes_to_uuid}

pub read_u32_at :
    (x z : Bytes) (a b c d i : ℕ)
    → length x ≡ i
    → read_u32 (x ++ (a ∷ b ∷ c ∷ d ∷ z)) i ≡ ok (u32_of a b c d)
unfolding read_u32
read_u32_at x z a b c d i e = ground (
  arith,
  index_at x a (b ∷ c ∷ d ∷ z) i e,
  index_at (x ++ (a ∷ [])) b (c ∷ d ∷ z) (i + 1) (omega (arith, length-append x (a ∷ []))),
  index_at (x ++ (a ∷ b ∷ [])) c (d ∷ z) (i + 2) (omega (arith, length-append x (a ∷ b ∷ []))),
  index_at (x ++ (a ∷ b ∷ c ∷ [])) d z (i + 3) (omega (arith, length-append x (a ∷ b ∷ c ∷ []))),
  append_assoc x (a ∷ []) (b ∷ c ∷ d ∷ z),
  append_assoc x (a ∷ b ∷ []) (c ∷ d ∷ z),
  append_assoc x (a ∷ b ∷ c ∷ []) (d ∷ z),
)

pub read_u16_at :
    (x z : Bytes) (a b i : ℕ) → length x ≡ i → read_u16 (x ++ (a ∷ b ∷ z)) i ≡ ok (u16_of a b)
unfolding read_u16
read_u16_at x z a b i e = ground (
  arith,
  index_at x a (b ∷ z) i e,
  index_at (x ++ (a ∷ [])) b z (i + 1) (omega (arith, length-append x (a ∷ []))),
  append_assoc x (a ∷ []) (b ∷ z),
)

pub slice_u32_at :
    (x y z : Bytes) (lo n : ℕ)
    → length x ≡ lo
    → length y ≡ n
    → lo + n < 2 ^ 32
    → slice_u32 (x ++ (y ++ z)) lo n ≡ ok y
unfolding slice_u32
slice_u32_at x y z lo n e f h =
    let d : (lo + n) % 2 ^ 32 ≡ lo + n = omega arith in
    rw d (slice_at x y z lo (lo + n) e (omega arith))

-- A 32-bit length, a payload and a rest behind `x`, in one block of facts.
pub long_bytes-read :
    (x payload rest : Bytes) (i : ℕ)
    → length x ≡ i
    → length payload + (i + 4) < 2 ^ 32
    → let frame = x ++ long_bytes payload rest in
      (read_u32 frame i ≡ ok (length payload))
      × (slice_u32 frame (i + 4) (length payload) ≡ ok payload)
      × (slice frame (i + 4 + length payload) (length frame) ≡ ok rest)
      × (length frame ≡ i + 4 + length payload + length rest)
long_bytes-read x payload rest i e h =
    let n = length payload % 2 ^ 32 in
    let len : n ≡ length payload = omega arith in
    let front = x ++ u32_bytes n [] in
    let front_len : length front ≡ i + 4 = omega (arith, length-append x (u32_bytes n [])) in
    let whole : front ++ (payload ++ rest) ≡ x ++ long_bytes payload rest =
      append_assoc x (u32_bytes n []) (payload ++ rest) in
    let whole' : (front ++ payload) ++ rest ≡ x ++ long_bytes payload rest =
      append_assoc front payload rest ∙ whole in
    let size : length (x ++ long_bytes payload rest) ≡ i + 4 + length payload + length rest =
      omega (arith, length-append x (long_bytes payload rest), length-append payload rest) in
    (
      read_u32_at x (payload ++ rest) _ _ _ _ i e
          ∙ ap (λ (k : ℕ). ok k) (u32_of-u32_bytes n (omega arith) ∙ len),
      rw (← whole)
          (slice_u32_at front payload rest (i + 4) (length payload) front_len refl (omega arith)),
      subst
          (λ (f : Bytes).
            slice f (i + 4 + length payload) (length (x ++ long_bytes payload rest)) ≡ ok rest)
          whole'
          (slice_last (front ++ payload) rest (i + 4 + length payload) _
            (omega (arith, length-append front payload)) (sym size)),
      size,
    )

u64_of-u64_bytes :
    (n : ℕ)
    → n < 2 ^ 64
    → u32_of (byte_at n 56) (byte_at n 48) (byte_at n 40) (byte_at n 32) * 2 ^ 32
        + u32_of (byte_at n 24) (byte_at n 16) (byte_at n 8) (n % 256)
      ≡ n
u64_of-u64_bytes n h = omega arith

module _ (env : Packages) where
  pub parse_uuid-ok : (name : String) (u : Uuid) → IsUuid u → parse_uuid env name u ≡ ok u
  unfolding parse_uuid
  parse_uuid-ok name u h = rw (env.uuid.parse-text u h)

  pub channel_id_bytes-ok : (u : Uuid) → IsUuid u → channel_id_bytes env u ≡ ok u
  unfolding channel_id_bytes
  channel_id_bytes-ok u h = rw (env.uuid.string_of-eq u h, uuid_to_bytes-bytes_to_uuid u h)

  pub instance_bytes-ok : (u : Uuid) → IsUuid u → instance_bytes env u ≡ ok u
  unfolding instance_bytes
  instance_bytes-ok u h = rw (env.uuid.string_of-eq u h, uuid_to_bytes-bytes_to_uuid u h)

  pub short_text_at-ok :
      (x s z : Bytes) (n i : ℕ) (message : String)
      → length x ≡ i
      → length s ≡ n
      → short_text_at (x ++ (n ∷ (s ++ z))) i message ≡ ok s
  unfolding short_text_at
  short_text_at-ok x s z n i message e f = ground (
    arith,
    index_at x n (s ++ z) i e,
    length-append x (n ∷ (s ++ z)),
    length-append s z,
    append_assoc x (n ∷ []) (s ++ z),
    slice_at (x ++ (n ∷ [])) s z (i + 1) (i + 1 + n) (omega (arith, length-append x (n ∷ [])))
        (omega arith),
  )

  pub resume_at-flag :
      (x : Bytes) (b : Bool) (i : ℕ) → length x ≡ i → resume_at (x ++ flag b) i ≡ ok b
  unfolding resume_at
  resume_at-flag x true i e = ground (arith, index_at x 1 [] i e, length-append x (1 ∷ []))
  resume_at-flag x false i e = ground (arith, append-nil x)

  pub sequence_at-u64 :
      (x : Bytes) (n i : ℕ)
      → length x ≡ i
      → n < 2 ^ 64
      → sequence_at (x ++ (if n == 0 then [] else u64_bytes n [])) i ≡ ok n
  unfolding sequence_at binary_uint64
  sequence_at-u64 x n i e h = ground (
    arith,
    append-nil x,
    length-append x (u64_bytes n []),
    slice_last x (u64_bytes n []) i (i + 8) e (omega arith),
    read_u32_at [] (u32_bytes n []) (byte_at n 56) (byte_at n 48) (byte_at n 40) (byte_at n 32) 0
        refl,
    read_u32_at (byte_at n 56 ∷ byte_at n 48 ∷ byte_at n 40 ∷ byte_at n 32 ∷ []) [] (byte_at n 24)
        (byte_at n 16) (byte_at n 8) (n % 256) 4 refl,
    u64_of-u64_bytes n h,
  )

  -- What was compressed is read back, if it was within the size limit.
  pub decompress-compress :
      (c : ℕ) (payload out : Bytes)
      → length payload ≤ Codes.max_web_socket_message_size
      → compress env c payload ≡ ok out
      → decompress env c out ≡ ok payload
  unfolding compress decompress
  decompress-compress c payload out h e = ground (
    arith,
    env.gzip.new_reader-writer payload out,
    env.gzip.read_limited-writer payload out (Codes.max_web_socket_message_size + 1),
    env.gzip.close_reader-writer payload out,
  )
