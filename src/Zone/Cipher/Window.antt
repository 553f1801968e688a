-- ===== src/Zone/Cipher/Window.antt =====
-- The replay window of `open` in zone/crypto.go.
use linksocks.Prelude.{
  ℕ, ◌<◌, ◌≡◌, inl, inr, refl, Option, none, some, List, [], ◌∷◌, leb, Bytes, Result, ok, err,
  panic, Error, arith, Option-cases, Bool-cases,
}
use linksocks.Zone.Cipher.State.{Aead, PeerCipher, sequence_of, accept_plain, open_from}

-- A message as it arrives: the header, where its number stands, the sealed text behind it, and
-- what is asked of the text. A frame has its number at 14, a stream message at 6, a datagram at 13,
-- and each kind its own test; all of them share the window of the peer.
pub record Arrival : Type 0 where
  pub header : Bytes
  pub offset : ℕ
  pub payload : Bytes
  pub validate : Bytes → Option Error

-- The messages of one peer, of any kinds, opened one after the other: the sequence numbers of the
-- ones that were accepted.
unfoldable pub open_all : Aead → PeerCipher → List Arrival → List ℕ
open_all aead peer [] = []
open_all aead peer (m ∷ rest) =
    let (peer', r) = open_from aead peer m.header m.offset m.payload m.validate in
    let later = open_all aead peer' rest in
    elim r [ ok text ↦ peer'.last ∷ later | err e ↦ later | panic ↦ later ]

-- Every number is greater than the ones before it, and than `n`.
abbrev pub IsIncreasing : ℕ → List ℕ → Type 0
IsIncreasing n [] = Unit
IsIncreasing n (x ∷ rest) = (n < x) × IsIncreasing x rest

-- An opened message either moves the window up to its own number, or leaves the peer as it is.
abbrev pub Moves : PeerCipher → Option ℕ → PeerCipher × Result Bytes → Type 0
Moves peer seq (peer', ok text) =
    (n : ℕ) × ((seq ≡ some n) × ((peer.last < n) × (peer' ≡ record peer { last = n })))
Moves peer seq (peer', err e) = peer' ≡ peer
Moves peer seq (peer', panic) = peer' ≡ peer

accept_plain-Moves :
    (peer : PeerCipher) (seq : ℕ) (validate : Bytes → Option Error) (text : Option Bytes)
    → peer.last < seq
    → Moves peer (some seq) (accept_plain peer seq validate text)
unfolding accept_plain
accept_plain-Moves peer seq validate none h = refl
accept_plain-Moves peer seq validate (some text) h = elim (Option-cases (validate text)) [
  | inl e ↦ rw (e, accept_plain) (seq, (refl, (h, refl)))
  | inr (x, e) ↦ rw (e, accept_plain) refl
]

-- A message is accepted only with a sequence number above the window, which it moves to that
-- number; a message that is refused, for its number, its seal or its content, changes nothing.
pub open_from-Moves :
    (aead : Aead) (peer : PeerCipher) (header : Bytes) (offset : ℕ) (payload : Bytes)
    (validate : Bytes → Option Error)
    → Moves peer (sequence_of header offset) (open_from aead peer header offset payload validate)
unfolding open_from
open_from-Moves aead peer header offset payload validate =
    elim (Option-cases (sequence_of header offset)) [
      | inl e ↦ rw (e, open_from) refl
      | inr (seq, e) ↦ elim (Bool-cases (leb seq peer.last)) [
        | inl old ↦ rw (e, open_from) (rw old refl)
        | inr new ↦
            rw (e, open_from)
              (rw new (accept_plain-Moves peer seq validate _ (ground (arith, new))))
      ]
    ]
