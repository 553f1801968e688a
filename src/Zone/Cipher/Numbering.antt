-- ===== src/Zone/Cipher/Numbering.antt =====
-- The sequence numbers, and with them the nonces, that `seal` of zone/crypto.go uses.
use linksocks.Prelude.{ℕ, ◌+◌, ◌<◌, ◌≡◌, some, List, [], ◌∷◌, Bytes, Result, ok, err, panic}
use linksocks.Zone.Cipher.State.{Aead, PacketCipher, PeerCipher, sequence_of, seal_locked}

-- One call of `seal`: the peer, the header with the place of its number, and the payload.
pub record Request : Type 0 where
  pub peer : PeerCipher
  pub header : Bytes
  pub offset : ℕ
  pub payload : Bytes

-- A message and the place of its number.
abbrev pub NumberedMessage : Type 0
NumberedMessage = Bytes × ℕ

-- The messages that a run of calls makes; a call that fails makes none.
unfoldable pub seal_all : Aead → PacketCipher → List Request → List NumberedMessage
seal_all aead c [] = []
seal_all aead c (q ∷ rest) =
    let (c', r) = seal_locked aead c q.peer q.header q.offset q.payload in
    let later = seal_all aead c' rest in
    elim r [ ok message ↦ (message, q.offset) ∷ later | err e ↦ later | panic ↦ later ]

-- The messages carry numbers above `n` that increase from one to the next.
abbrev pub NumbersAbove : ℕ → List NumberedMessage → Type 0
NumbersAbove n [] = Unit
NumbersAbove n ((m, offset) ∷ rest) =
    (k : ℕ) × ((sequence_of m offset ≡ some k) × ((n < k) × NumbersAbove k rest))

-- The exhausted counter, or the next number in a message and in the counter.
abbrev Numbers : ℕ → PacketCipher → PacketCipher × Result Bytes → Type 0
Numbers offset c (c', ok message) =
    (sequence_of message offset ≡ some (c.next + 1))
    × ((c.next < 18446744073709551615) × (c'.next ≡ c.next + 1))
Numbers offset c (c', err e) = c' ≡ c
Numbers offset c (c', panic) = ⊥
