-- ===== src/Message/Uuid/RoundTrip.antt =====
-- The text of an identifier gives its 16 bytes back.
use linksocks.Prelude.{
  ℕ, ◌+◌, ◌*◌, ◌/◌, ◌%◌, ◌<◌, ◌≡◌, ◌≢◌, refl, ap, ◌∙◌, false, some, [], ◌∷◌, ◌++◌, ◌==◌, ==_iff,
  Bytes, ok, panic, length, take, drop, take-append-drop, drop-drop, All, arith,
}
use linksocks.Prelude.ByteOrder.{IsByte}
use linksocks.Message.Uuid.{
  hex_digit, from_hex, hex_pair, hex_encode, hex_decode, remove_hyphens, hyphenate, uuid_to_bytes,
  bytes_to_uuid, IsUuid,
}

remove_hyphens-append :
    (s t : Bytes) → remove_hyphens (s ++ t) ≡ remove_hyphens s ++ remove_hyphens t
unfolding remove_hyphens
remove_hyphens-append [] t = refl
remove_hyphens-append (c ∷ s) t = ground (arith, remove_hyphens-append s t)

hex_digit-ne-hyphen : (d : ℕ) → d < 16 → (hex_digit d == 45) ≡ false
unfolding hex_digit
hex_digit-ne-hyphen d h = ground arith

remove_hyphens-keep :
    (c : ℕ) (s : Bytes) → (c == 45) ≡ false → remove_hyphens (c ∷ s) ≡ c ∷ remove_hyphens s
unfolding remove_hyphens
remove_hyphens-keep c s h = rw h

remove_hyphens-hyphen : (s : Bytes) → remove_hyphens (45 ∷ s) ≡ remove_hyphens s
unfolding remove_hyphens
remove_hyphens-hyphen s = refl

remove_hyphens-hex_encode :
    (b : Bytes) → All IsByte b → remove_hyphens (hex_encode b) ≡ hex_encode b
unfolding hex_encode
remove_hyphens-hex_encode [] h = unfold remove_hyphens in refl
remove_hyphens-hex_encode (b ∷ bs) h =
    remove_hyphens-keep _ _ (hex_digit-ne-hyphen (b / 16) (omega arith))
    ∙ ap (λ (r : Bytes). hex_digit (b / 16) ∷ r)
        (remove_hyphens-keep _ _ (hex_digit-ne-hyphen (b % 16) (omega arith))
          ∙ ap (λ (r : Bytes). hex_digit (b % 16) ∷ r) (remove_hyphens-hex_encode bs h.1))

next_piece : (k : ℕ) (u : Bytes) → take 4 (drop k u) ++ drop (k + 4) u ≡ drop k u
next_piece k u = rw (← drop-drop k 4 u) (take-append-drop 4 (drop k u))

pieces :
    (u : Bytes)
    → take 8 u ++ (take 4 (drop 8 u) ++ (take 4 (drop 12 u) ++ (take 4 (drop 16 u) ++ drop 20 u)))
      ≡ u
pieces u = rw (next_piece 16 u, next_piece 12 u, next_piece 8 u) (take-append-drop 8 u)

-- Between any pieces of a text that has no hyphen, hyphens vanish again.
remove_hyphens-hyphenate : (u : Bytes) → remove_hyphens (hyphenate u) ≡ remove_hyphens u
unfolding hyphenate
remove_hyphens-hyphenate u =
    simp (remove_hyphens-append, remove_hyphens-hyphen)
      (simp (← remove_hyphens-append) (ap remove_hyphens (pieces u)))

from_hex-hex_digit : (d : ℕ) → d < 16 → from_hex (hex_digit d) ≡ some d
unfolding from_hex hex_digit
from_hex-hex_digit d h = ground arith

hex_encode-cons :
    (b : ℕ) (bs : Bytes)
    → hex_encode (b ∷ bs) ≡ hex_digit (b / 16) ∷ hex_digit (b % 16) ∷ hex_encode bs
unfolding hex_encode
hex_encode-cons b bs = refl

hex_decode_step :
    (a d : ℕ) (s v : Bytes)
    → a < 16
    → d < 16
    → hex_decode s ≡ ok v
    → hex_decode (hex_digit a ∷ hex_digit d ∷ s) ≡ ok ((a * 16 + d) ∷ v)
unfolding hex_decode hex_pair
hex_decode_step a d s v ha hd e = rw (from_hex-hex_digit a ha, from_hex-hex_digit d hd, e)

hex_decode-hex_encode : (b : Bytes) → All IsByte b → hex_decode (hex_encode b) ≡ ok b
hex_decode-hex_encode [] h = unfold hex_decode hex_encode in refl
hex_decode-hex_encode (b ∷ bs) h = rw hex_encode-cons (
    hex_decode_step (b / 16) (b % 16) _ _ (omega arith) (omega arith) (hex_decode-hex_encode bs h.1)
    ∙ ap (λ (c : ℕ). ok (c ∷ bs)) (let e : b / 16 * 16 + b % 16 ≡ b = omega arith in e))

length-hex_encode : (b : Bytes) → length (hex_encode b) ≡ 2 * length b
unfolding hex_encode
length-hex_encode [] = refl
length-hex_encode (b ∷ bs) = omega (arith, length-hex_encode bs)

bytes_to_uuid-eq : (u : Bytes) → length u ≡ 16 → bytes_to_uuid u ≡ hyphenate (hex_encode u)
unfolding bytes_to_uuid
bytes_to_uuid-eq u h = rw ((==_iff (length u) 16).1 h)

uuid_to_bytes-digits :
    (s d v : Bytes)
    → remove_hyphens s ≡ d
    → length d ≡ 32
    → hex_decode d ≡ ok v
    → uuid_to_bytes s ≡ ok v
unfolding uuid_to_bytes
uuid_to_bytes-digits s d v e l h = rw (e, (==_iff (length d) 32).1 l) h

-- `uuidToBytes(bytesToUUID(u))` gives `u` back, for 16 bytes `u`.
pub uuid_to_bytes-bytes_to_uuid : (u : Bytes) → IsUuid u → uuid_to_bytes (bytes_to_uuid u) ≡ ok u
uuid_to_bytes-bytes_to_uuid u h = rw (bytes_to_uuid-eq u h.0) (
    uuid_to_bytes-digits _ _ u
      (remove_hyphens-hyphenate (hex_encode u) ∙ remove_hyphens-hex_encode u h.1)
      (omega (arith, length-hex_encode u, h.0)) (hex_decode-hex_encode u h.1))

hex_decode-ne-panic : (s : Bytes) → hex_decode s ≢ panic
unfolding hex_decode hex_pair
hex_decode-ne-panic [] e = cc
hex_decode-ne-panic (a ∷ []) e = cc
hex_decode-ne-panic (a ∷ b ∷ s) e = ground (arith, hex_decode-ne-panic s)

pub uuid_to_bytes-ne-panic : (s : Bytes) → uuid_to_bytes s ≢ panic
unfolding uuid_to_bytes
uuid_to_bytes-ne-panic s e = ground (arith, hex_decode-ne-panic (remove_hyphens s))
