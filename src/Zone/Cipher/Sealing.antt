-- ===== src/Zone/Cipher/Sealing.antt =====
-- A message of zone/crypto.go that was sealed by one member and opened by another.
use linksocks.Prelude.{
  ℕ, ◌+◌, ◌^◌, ◌<◌, ◌≤◌, ◌≡◌, refl, sym, ap, ◌∙◌, false, Option, none, some, ◌++◌, leb, ◌==◌, Bytes,
  ok, Error, arith, length, take, drop, length-take, length-drop, length-append, drop-append,
}
use linksocks.Prelude.ByteOrder.{u64_bytes}
use linksocks.Zone.Cipher.State.{
  Aead, PacketCipher, PeerCipher, big_endian, sequence_bytes, sequence_of, put_sequence, nonce_of,
  seal_header, seal_locked, accept_plain, open_from,
}

pub big_endian-u64_bytes :
    (n : ℕ) (rest : Bytes) → n < 2 ^ 64 → big_endian 0 (take 8 (u64_bytes n rest)) ≡ n
unfolding big_endian
big_endian-u64_bytes n rest h = omega (arith, h)

-- The header with the number `n` written at `offset`.
abbrev pub numbered : Bytes → ℕ → ℕ → Bytes
numbered header offset n = take offset header ++ u64_bytes n (drop (offset + 8) header)

put_sequence-fits :
    (header : Bytes) (offset n : ℕ)
    → offset + 8 ≤ length header
    → put_sequence header offset n ≡ some (numbered header offset n)
unfolding put_sequence
put_sequence-fits header offset n h = ground arith

drop-numbered :
    (header : Bytes) (offset n : ℕ)
    → offset + 8 ≤ length header
    → drop offset (numbered header offset n) ≡ u64_bytes n (drop (offset + 8) header)
drop-numbered header offset n h =
    let e : length (take offset header) ≡ offset = omega (arith, length-take offset header) in
    ap (λ k. drop k (numbered header offset n)) (sym e)
    ∙ drop-append (take offset header) (u64_bytes n (drop (offset + 8) header))

length-numbered :
    (header : Bytes) (offset n : ℕ)
    → offset + 8 ≤ length header
    → length (numbered header offset n) ≡ length header
length-numbered header offset n h = omega (
  arith,
  length-append (take offset header) (u64_bytes n (drop (offset + 8) header)),
  length-take offset header,
  length-drop (offset + 8) header,
)

-- Reading back the number that was written into a header.
pub sequence_of-numbered :
    (header : Bytes) (offset n : ℕ)
    → offset + 8 ≤ length header
    → n < 2 ^ 64
    → sequence_of (numbered header offset n) offset ≡ some n
unfolding sequence_of
sequence_of-numbered header offset n h k =
    let e = drop-numbered header offset n h in
    let v : big_endian 0 (sequence_bytes (numbered header offset n) offset) ≡ n =
      rw e (big_endian-u64_bytes n (drop (offset + 8) header) k) in
    ground (arith, length-numbered header offset n h, v)

pub seal_locked-numbered :
    (aead : Aead) (c : PacketCipher) (peer : PeerCipher) (header : Bytes) (offset : ℕ)
    (payload : Bytes)
    → offset + 8 ≤ length header
    → c.next < 18446744073709551615
    → let h = numbered header offset (c.next + 1) in
      seal_locked aead c peer header offset payload ≡ (
        record c { next = c.next + 1 },
        ok (h ++ aead.seal peer.send (nonce_of c.session h offset) payload h),
      )
unfolding seal_locked seal_header
seal_locked-numbered aead c peer header offset payload fits room =
    let z : (c.next == 18446744073709551615) ≡ false = ground arith in
    rw (z, put_sequence-fits header offset (c.next + 1) fits) refl

pub open_from-sealed :
    (aead : Aead) (r : PeerCipher) (header : Bytes) (offset n : ℕ) (payload : Bytes)
    (validate : Bytes → Option Error)
    → sequence_of header offset ≡ some n
    → r.last < n
    → validate payload ≡ none
    → open_from aead r header offset
        (aead.seal r.receive (nonce_of r.session header offset) payload header)
        validate
      ≡ (record r { last = n }, ok payload)
unfolding open_from accept_plain
open_from-sealed aead r header offset n payload validate at_n above valid =
    let new : leb n r.last ≡ false = ground arith in
    rw (at_n, open_from)
      (rw (new, aead.open_sealed-seal r.receive (nonce_of r.session header offset) payload header)
        (rw (valid, accept_plain) refl))

-- What one member seals for another, the other opens: when the header has room for the number,
-- the numbers are not used up, the receiver's key and session are the sender's, its window is
-- not ahead of the sender, and the text passes the receiver's test, the message is the header
-- with the next number, of the same length, then the sealed text, and opening it gives the text
-- back and moves the window to that number.
pub open_from-seal_locked :
    (aead : Aead) (c : PacketCipher) (peer receiver : PeerCipher) (header : Bytes) (offset : ℕ)
    (payload : Bytes) (validate : Bytes → Option Error)
    → offset + 8 ≤ length header
    → c.next < 18446744073709551615
    → receiver.receive ≡ peer.send
    → receiver.session ≡ c.session
    → receiver.last ≤ c.next
    → validate payload ≡ none
    → (h : Bytes) × ((sealed : Bytes) × ((seal_locked aead c peer header offset payload
            ≡ (record c { next = c.next + 1 }, ok (h ++ sealed)))
          × ((length h ≡ length header)
              × (open_from aead receiver h offset sealed validate
                  ≡ (record receiver { last = c.next + 1 }, ok payload)))))
open_from-seal_locked aead c peer receiver header offset payload validate fits room key session
      behind valid =
    let h = numbered header offset (c.next + 1) in
    let sealed = aead.seal peer.send (nonce_of c.session h offset) payload h in
    (
      h,
      (
        sealed,
        (
          seal_locked-numbered aead c peer header offset payload fits room,
          (
            length-numbered header offset (c.next + 1) fits,
            rw (← key, ← session)
                (open_from-sealed aead receiver h offset (c.next + 1) payload validate
                  (sequence_of-numbered header offset (c.next + 1) fits (omega arith)) (omega arith)
                  valid),
          ),
        ),
      ),
    )
