-- ===== src/Zone/Cipher/State.antt =====
-- `packetCipher` and `peerCipher` of zone/crypto.go. Both of its maps point to the same peers, so
-- the peers are a store, and the maps hold positions in it. The cipher XChaCha20-Poly1305 is a
-- parameter, with what the code relies on: opening what was sealed gives the text back.
use linksocks.Prelude.{
  ℕ, ◌+◌, ◌*◌, ◌≡◌, Bool, true, false, Option, none, some, List, [], ◌∷◌, ◌++◌, ◌==◌, leb,
  if◌then◌else◌, Bytes, length, take, drop, Result, ok, err, panic, plain, Error, set, get_elem?,
}
use linksocks.Prelude.ByteOrder.{bytes_eq, u64_bytes}
use linksocks.Zone.Addresses.{Addr}

-- A key is what `chacha20poly1305.NewX` was given. `seal` and `open` take the key, the nonce, the
-- text and the additional data.
pub record Aead : Type 0 where
  pub seal : Bytes → Bytes → Bytes → Bytes → Bytes
  pub open_sealed : Bytes → Bytes → Bytes → Bytes → Option Bytes
  pub open_sealed-seal :
      (key nonce text additional : Bytes)
      → open_sealed key nonce (seal key nonce text additional) additional ≡ some text
  pub length-seal :
      (key nonce text additional : Bytes)
      → length (seal key nonce text additional) ≡ length text + 16

pub record PeerCipher : Type 0 where
  pub mac : Bytes
  pub session : Bytes
  pub send : Bytes
  pub receive : Bytes
  pub last : ℕ
  pub ip : Addr

pub record PacketCipher : Type 0 where
  pub self : Addr
  pub mac : Bytes
  pub session : Bytes
  pub next : ℕ
  pub store : List PeerCipher
  pub peers : List (Addr × ℕ)
  pub macs : List (Bytes × ℕ)

-- `c.peers[addr]` and `c.macs[mac]`: the position of the peer.
unfoldable pub peer_at : List (Addr × ℕ) → Addr → Option ℕ
peer_at [] addr = none
peer_at ((a, p) ∷ rest) addr = if a == addr then some p else peer_at rest addr

unfoldable pub mac_at : List (Bytes × ℕ) → Bytes → Option ℕ
mac_at [] mac = none
mac_at ((m, p) ∷ rest) mac = if bytes_eq m mac then some p else mac_at rest mac

-- `c.peers[addr] == peer`
unfoldable pub is_current : PacketCipher → Addr → ℕ → Bool
is_current c addr peer = elim (peer_at c.peers addr) [ none ↦ false | some p ↦ p == peer ]

unfoldable pub big_endian : ℕ → Bytes → ℕ
big_endian n [] = n
big_endian n (b ∷ bytes) = big_endian (n * 256 + b) bytes

-- The eight bytes at `offset`.
abbrev pub sequence_bytes : Bytes → ℕ → Bytes
sequence_bytes header offset = take 8 (drop offset header)

-- `binary.BigEndian.Uint64(header[offset:])`; `none` where it panics.
unfoldable pub sequence_of : Bytes → ℕ → Option ℕ
sequence_of header offset =
    if leb (offset + 8) (length header)
    then some (big_endian 0 (sequence_bytes header offset))
    else none

-- `binary.BigEndian.PutUint64(header[offset:], n)`
unfoldable pub put_sequence : Bytes → ℕ → ℕ → Option Bytes
put_sequence header offset n =
    if leb (offset + 8) (length header)
    then some (take offset header ++ u64_bytes n (drop (offset + 8) header))
    else none

-- The session of the sender, then the sequence number: the headers end with it.
abbrev pub nonce_of : Bytes → Bytes → ℕ → Bytes
nonce_of session header offset = session ++ sequence_bytes header offset

unfoldable pub accept_plain :
    PeerCipher → ℕ → (Bytes → Option Error) → Option Bytes → PeerCipher × Result Bytes
accept_plain peer seq validate none = (peer, err (plain "message authentication failed"))
accept_plain peer seq validate (some text) = elim (validate text) [
  | some e ↦ (peer, err e)
  | none ↦ (record peer { last = seq }, ok text)
]

unfoldable pub open_at : PacketCipher → ℕ → PeerCipher × Result Bytes → PacketCipher × Result Bytes
open_at c peer (p, r) = (record c { store = set c.store peer p }, r)

module _ (aead : Aead) where
  unfoldable pub seal_header :
      PacketCipher → PeerCipher → Option Bytes → ℕ → Bytes → PacketCipher × Result Bytes
  seal_header c peer none offset payload = (c, panic)
  seal_header c peer (some header) offset payload =
      (c, ok (header ++ aead.seal peer.send (nonce_of c.session header offset) payload header))

  -- `sealLocked`
  unfoldable pub seal_locked :
      PacketCipher → PeerCipher → Bytes → ℕ → Bytes → PacketCipher × Result Bytes
  seal_locked c peer header offset payload =
      if c.next == 18446744073709551615
      then (c, err (plain "zone message sequence exhausted"))
      else seal_header (record c { next = c.next + 1 }) peer
          (put_sequence header offset (c.next + 1)) offset payload

  -- `seal`; `none` is the zero address, which skips the test.
  unfoldable pub seal :
      PacketCipher → ℕ → Option Addr → Bytes → ℕ → Bytes → PacketCipher × Result Bytes
  seal c peer addr header offset payload =
      let current : Bool = elim addr [ none ↦ true | some a ↦ is_current c a peer ] in
      if current
      then elim (get_elem? c.store peer) [
        | none ↦ (c, panic)
        | some p ↦ seal_locked c p header offset payload
      ]
      else (c, err (plain "zone peer state changed"))

  -- The part of `open` behind the test of the peer.
  unfoldable pub open_from :
      PeerCipher → Bytes → ℕ → Bytes → (Bytes → Option Error) → PeerCipher × Result Bytes
  open_from peer header offset payload validate = elim (sequence_of header offset) [
    | none ↦ (peer, panic)
    | some seq ↦
        if leb seq peer.last
        then (peer, err (plain "replayed or out-of-order zone message"))
        else accept_plain peer seq validate
            (aead.open_sealed peer.receive (nonce_of peer.session header offset) payload header)
  ]

  -- `open`
  unfoldable pub open_peer_message :
      PacketCipher
      → ℕ
      → Addr
      → Bytes
      → ℕ
      → Bytes
      → (Bytes → Option Error)
      → PacketCipher × Result Bytes
  open_peer_message c peer addr header offset payload validate =
      if is_current c addr peer
      then elim (get_elem? c.store peer) [
        | none ↦ (c, panic)
        | some p ↦ open_at c peer (open_from p header offset payload validate)
      ]
      else (c, err (plain "zone peer state changed"))
