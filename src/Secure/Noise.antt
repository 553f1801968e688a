-- ===== src/Secure/Noise.antt =====
-- What linksocks/secure_channel.go uses of github.com/flynn/noise. The handshake state and the
-- cipher states are the library's. Its documented behaviour: in the XX pattern three messages
-- complete the handshake and split it into one cipher for each direction, which both sides share,
-- and what was encrypted with one copy of a cipher is decrypted by the other copy, in order.
use linksocks.Prelude.{◌≡◌, Bool, true, false, Option, none, some, Bytes, Error}

-- A call of the library returns what it was asked for or an error.
pub data Answer (A : Type 0) : Type 0 where
  given : A → Answer A
  refused : Error → Answer A

pub record Noise : Type 1 where
  pub Handshake : Type 0
  pub Cipher : Type 0
  -- A static key pair from random bytes, and a handshake state for one of the two roles.
  pub generate_keypair : Bytes → Answer Bytes
  pub new_handshake_state : Bool → Bytes → Answer Handshake
  -- The message or nothing, and the two ciphers once the handshake is complete.
  pub write_message : Handshake → Handshake × Answer (Bytes × Option (Cipher × Cipher))
  pub read_message : Handshake → Bytes → Handshake × Answer (Option (Cipher × Cipher))
  pub encrypt : Cipher → Bytes → Cipher × Answer Bytes
  pub decrypt : Cipher → Bytes → Cipher × Answer Bytes
  -- The two copies of a cipher have the same key and have counted as many messages.
  pub InStep : Cipher → Cipher → Type 0
  pub decrypt-encrypt :
      (s r s' : Cipher) (text sealed : Bytes)
      → InStep s r
      → encrypt s text ≡ (s', given sealed)
      → (r' : Cipher) × (decrypt r sealed ≡ (r', given text)) × InStep s' r'
  -- A cipher that refuses to encrypt has not counted the message.
  pub encrypt-refused :
      (s r s' : Cipher) (text : Bytes) (e : Error)
      → InStep s r
      → encrypt s text ≡ (s', refused e)
      → InStep s' r
  pub xx_completes :
      (k l : Bytes) (i r : Handshake)
      → new_handshake_state true k ≡ given i
      → new_handshake_state false l ≡ given r
      → (i1 : Handshake) × (i2 : Handshake) × (i3 : Handshake) × (r1 : Handshake) × (r2 : Handshake)
        × (r3 : Handshake) × (m1 : Bytes) × (m2 : Bytes) × (m3 : Bytes) × (a : Cipher)
        × (b : Cipher) × (a' : Cipher) × (b' : Cipher) × (write_message i ≡ (i1, given (m1, none)))
        × (read_message r m1 ≡ (r1, given none))
        × (write_message r1 ≡ (r2, given (m2, none)))
        × (read_message i1 m2 ≡ (i2, given none))
        × (write_message i2 ≡ (i3, given (m3, some (a, b))))
        × (read_message r2 m3 ≡ (r3, given (some (a', b'))))
        × (InStep a a' × InStep b' b)
