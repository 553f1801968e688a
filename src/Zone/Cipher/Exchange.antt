-- ===== src/Zone/Cipher/Exchange.antt =====
-- What one member writes, the other reads: the stream messages of zone/crypto.go.
use linksocks.Prelude.{
  ℕ, ◌+◌, ◌^◌, ◌<◌, ◌≤◌, ◌≡◌, inl, inr, refl, sym, ap, ◌∙◌, true, false, ◌||◌, none, some, [], ◌∷◌,
  ◌++◌, ltb, if◌then◌else◌, Bytes, ok, arith, length, take, take-all, index_in, slice_from,
  slice_last, Bool-cases, set, get_elem?,
}
use linksocks.Prelude.ByteOrder.{u16_bytes, u32_bytes, u32_of-u32_bytes}
use linksocks.Zone.Cipher.State.{
  nonce_of, Aead, PacketCipher, PeerCipher, is_current, seal, open_at, open_peer_message,
}
use linksocks.Zone.Cipher.Sealing.{
  numbered, seal_locked-numbered, open_from-sealed, sequence_of-numbered,
}
use linksocks.Zone.Cipher.Streams.{
  kind_stream, op_open, op_accept, op_refuse, op_close, op_reset, max_stream_reason, open_message,
  accept_message, refuse_message, close_message, reset_message, stream_op, max_stream_data,
  seal_stream_data, open_stream_data, bad_stream_size, validate_stream, stream_header,
}

stream_op-message :
    (op id : ℕ) (rest : Bytes)
    → op_open ≤ op
    → op ≤ op_reset
    → id < 2 ^ 32
    → stream_op (kind_stream ∷ op ∷ u32_bytes id rest) ≡ ok (op, id, rest)
unfolding stream_op
stream_op-message op id rest lo hi h =
    let raw = kind_stream ∷ op ∷ u32_bytes id rest in
    let long : ltb (length raw) 6 ≡ false = ground arith in
    let known : (ltb op op_open || ltb op_reset op) ≡ false = ground arith in
    let behind : slice_from raw 6 ≡ ok rest =
      slice_last (kind_stream ∷ op ∷ u32_bytes id []) rest 6 (length raw) refl (omega arith) in
    rw
      (
        long,
        index_in raw 0 (omega arith),
        index_in raw 1 (omega arith),
        known,
        index_in raw 2 (omega arith),
        index_in raw 3 (omega arith),
        index_in raw 4 (omega arith),
        index_in raw 5 (omega arith),
        behind,
      )
      (ap (λ (n : ℕ). ok (op, n, rest)) (u32_of-u32_bytes id h))

cut_short :
    (reason : Bytes)
    → (if ltb max_stream_reason (length reason) then take max_stream_reason reason else reason)
      ≡ take 64 reason
cut_short reason = elim (Bool-cases (ltb 64 (length reason))) [
  | inl e ↦ rw e refl
  | inr e ↦ rw e (sym (take-all 64 reason (ground arith)))
]

-- The five control messages of a stream are read back with their opcode, their identifier and
-- their fields, for every identifier of 32 bits; the reason of a refusal is cut to 64 bytes.
pub stream_op-messages :
    (id src dst port code : ℕ) (reason : Bytes)
    → id < 2 ^ 32
    → (stream_op (open_message id src dst port)
        ≡ ok (op_open, id, u32_bytes src (u32_bytes dst (u16_bytes port []))))
      × ((stream_op (accept_message id) ≡ ok (op_accept, id, []))
          × ((stream_op (refuse_message id code reason)
                ≡ ok (op_refuse, id, u16_bytes code (take 64 reason)))
              × ((stream_op (close_message id) ≡ ok (op_close, id, []))
                  × (stream_op (reset_message id code) ≡ ok (op_reset, id, u16_bytes code [])))))
unfolding open_message accept_message refuse_message close_message reset_message
stream_op-messages id src dst port code reason h = (
  stream_op-message op_open id _ (omega arith) (omega arith) h,
  (
    stream_op-message op_accept id _ (omega arith) (omega arith) h,
    (
      stream_op-message op_refuse id _ (omega arith) (omega arith) h
          ∙ ap (λ (t : Bytes). ok (op_refuse, id, u16_bytes code t)) (cut_short reason),
      (
        stream_op-message op_close id _ (omega arith) (omega arith) h,
        stream_op-message op_reset id _ (omega arith) (omega arith) h,
      ),
    ),
  ),
)

-- A message from one member to another: the sender holds the receiver at `peer`, and the receiver
-- the sender at `from`, with the same key and session, and a window that is not ahead.
abbrev pub AreConnected : PacketCipher → ℕ → PeerCipher → PacketCipher → ℕ → PeerCipher → Type 0
AreConnected c peer p c' from r =
    (get_elem? c.store peer ≡ some p)
    × ((is_current c p.ip peer ≡ true)
        × ((get_elem? c'.store from ≡ some r)
            × ((is_current c' r.ip from ≡ true)
                × ((r.receive ≡ p.send)
                    × ((r.session ≡ c.session)
                        × ((r.last ≤ c.next) × (c.next < 18446744073709551615)))))))

good_stream_size :
    (payload : Bytes)
    → 0 < length payload
    → length payload ≤ max_stream_data
    → (bad_stream_size payload ≡ false) × (validate_stream payload ≡ none)
unfolding bad_stream_size validate_stream
good_stream_size payload h k = ground arith

-- The header of a stream message with its number, and the whole message.
abbrev numbered_header : ℕ → ℕ → Bytes
numbered_header id n = numbered (stream_header id) 6 n

seal_stream_data-connected :
    (aead : Aead) (c : PacketCipher) (peer : ℕ) (p : PeerCipher) (id : ℕ) (payload : Bytes)
    → get_elem? c.store peer ≡ some p
    → is_current c p.ip peer ≡ true
    → bad_stream_size payload ≡ false
    → c.next < 18446744073709551615
    → let h = numbered_header id (c.next + 1) in
      seal_stream_data aead c peer id payload ≡ (
        record c { next = c.next + 1 },
        ok (h ++ aead.seal p.send (nonce_of c.session h 6) payload h),
      )
unfolding seal_stream_data seal
seal_stream_data-connected aead c peer p id payload held current good room =
    rw (good, held)
      (rw (current, held)
        (seal_locked-numbered aead c p (stream_header id) 6 payload (omega arith) room))

open_stream_data-connected :
    (aead : Aead) (c : PacketCipher) (from : ℕ) (r : PeerCipher) (id n : ℕ) (payload : Bytes)
    → get_elem? c.store from ≡ some r
    → is_current c r.ip from ≡ true
    → r.last < n
    → n < 2 ^ 64
    → id < 2 ^ 32
    → 0 < length payload
    → length payload ≤ max_stream_data
    → let h = numbered_header id n in
      open_stream_data aead c from (h ++ aead.seal r.receive (nonce_of r.session h 6) payload h)
      ≡ (record c { store = set c.store from (record r { last = n }) }, ok (id, payload))
unfolding open_stream_data open_peer_message open_at
open_stream_data-connected aead c from r id n payload held current above small idh some_bytes few =
    let h = numbered_header id n in
    let sealed = aead.seal r.receive (nonce_of r.session h 6) payload h in
    let size = aead.length-seal r.receive (nonce_of r.session h 6) payload h in
    let long : ltb (length (h ++ sealed)) 30 ≡ false = ground (arith, size) in
    let fits : ltb 16414 (length (h ++ sealed)) ≡ false = ground (arith, size) in
    let opened =
      open_from-sealed aead r h 6 n payload validate_stream
        (sequence_of-numbered (stream_header id) 6 n (omega arith) small) above
        (good_stream_size payload some_bytes few).1 in
    rw (long, fits, held)
      (rw (current, held)
        (rw (opened) (
          ap
            (λ (k : ℕ).
              (record c { store = set c.store from (record r { last = n }) }, ok (k, payload)))
            (u32_of-u32_bytes id idh))))

-- The payload of a stream travels from one member to the other: whatever a connected member
-- seals for a stream, 1 to 16384 bytes, the other opens as the same stream and the same bytes,
-- moving its window to the number that the sender used.
pub open_stream_data-seal_stream_data :
    (aead : Aead) (c : PacketCipher) (peer : ℕ) (p : PeerCipher) (c' : PacketCipher) (from : ℕ)
    (r : PeerCipher) (id : ℕ) (payload : Bytes)
    → AreConnected c peer p c' from r
    → id < 2 ^ 32
    → 0 < length payload
    → length payload ≤ max_stream_data
    → (message : Bytes) × ((seal_stream_data aead c peer id payload
          ≡ (record c { next = c.next + 1 }, ok message))
        × (open_stream_data aead c' from message ≡ (
          record c' { store = set c'.store from (record r { last = c.next + 1 }) },
          ok (id, payload),
        )))
open_stream_data-seal_stream_data aead c peer p c' from r id payload
      (held, (current, (held', (current', (key, (session, (behind, room))))))) idh some_bytes few =
    let h = numbered_header id (c.next + 1) in
    (
      h ++ aead.seal p.send (nonce_of c.session h 6) payload h,
      (
        seal_stream_data-connected aead c peer p id payload held current
            (good_stream_size payload some_bytes few).0 room,
        rw (← key, ← session)
            (open_stream_data-connected aead c' from r id (c.next + 1) payload held' current'
              (omega arith) (omega arith) idh some_bytes few),
      ),
    )
