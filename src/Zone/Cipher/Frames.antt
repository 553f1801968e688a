-- ===== src/Zone/Cipher/Frames.antt =====
-- The Ethernet frames of zone/crypto.go: sealed once for each member they go to.
use linksocks.Prelude.{
  ℕ, ◌+◌, ◌%◌, Bool, not, ◌&&◌, ◌||◌, Option, none, some, List, [], ◌∷◌, ◌++◌, map, ◌==◌, ltb,
  if◌then◌else◌, Bytes, length, take, drop, replicate, Result, ok, err, panic, plain, Error,
  get_elem?, get_or, piece,
}
use linksocks.Prelude.ByteOrder.{bytes_eq}
use linksocks.Zone.Rules.Frames.{min_frame_size}
use linksocks.Zone.Cipher.State.{Aead, PacketCipher, mac_at, seal_locked, open_peer_message}
use linksocks.Zone.Cipher.Streams.{overhead, map_ok}

abbrev pub kind_frame : ℕ
kind_frame = 1

abbrev pub frame_version : ℕ
frame_version = 2

abbrev pub frame_header_size : ℕ
frame_header_size = 22

abbrev pub max_frame_size : ℕ
max_frame_size = 1514

-- `isGroupMAC`; the last bit is the remainder by 2.
unfoldable pub is_group_mac : Bytes → Bool
is_group_mac mac = get_or mac 0 0 % 2 == 1

-- `len(frame) < minFrameSize || len(frame) > maxFrameSize`
unfoldable pub bad_frame_size : Bytes → Bool
bad_frame_size frame = ltb (length frame) min_frame_size || ltb max_frame_size (length frame)

-- The members that a frame goes to. The order in which Go walks over the map is open; here it is
-- the order of the entries.
unfoldable pub targets_of : PacketCipher → Bytes → Result (List ℕ)
targets_of c dst =
    if bytes_eq dst c.mac
    then err (plain "Ethernet frame is addressed to this member")
    else if is_group_mac dst
    then ok (map (λ e. e.1) c.peers)
    else elim (mac_at c.macs dst) [
      | some peer ↦ ok (peer ∷ [])
      | none ↦ err (plain "Ethernet frame has no destination member")
    ]

-- The test of an opened frame against the addresses of its header.
unfoldable pub validate_frame : Bytes → Bytes → Bytes → Option Error
validate_frame src dst frame =
    if bad_frame_size frame
      || (not (bytes_eq (take 6 frame) dst) || not (bytes_eq (piece frame 6 12) src))
    then some (plain "zone frame inner MAC mismatch")
    else none

-- Joining the message of one target to those of the rest, unless there was an error.
unfoldable pub add_message :
    Bytes → PacketCipher × Result (List Bytes) → PacketCipher × Result (List Bytes)
add_message m (c, r) = (c, map_ok (λ l. m ∷ l) r)

abbrev pub frame_header : Bytes → Bytes → Bytes
frame_header src dst = kind_frame ∷ frame_version ∷ (src ++ (dst ++ replicate 8 0))

module _ (aead : Aead) where
  -- The loop over the targets.
  unfoldable pub seal_targets :
      PacketCipher → List ℕ → Bytes → Bytes → PacketCipher × Result (List Bytes)
  seal_targets c [] header frame = (c, ok [])
  seal_targets c (peer ∷ rest) header frame = elim (get_elem? c.store peer) [
    | none ↦ (c, panic)
    | some p ↦
        let (c', r) = seal_locked aead c p header 14 frame in
        elim r [
          | ok m ↦ add_message m (seal_targets c' rest header frame)
          | err e ↦ (c', err e)
          | panic ↦ (c', panic)
        ]
  ]

  unfoldable pub seal_to :
      PacketCipher → Result (List ℕ) → Bytes → Bytes → PacketCipher × Result (List Bytes)
  seal_to c (ok targets) header frame = seal_targets c targets header frame
  seal_to c (err e) header frame = (c, err e)
  seal_to c panic header frame = (c, panic)

  unfoldable pub seal_frame : PacketCipher → Bytes → PacketCipher × Result (List Bytes)
  seal_frame c frame =
      let dst = take 6 frame in
      let src = piece frame 6 12 in
      if bad_frame_size frame
      then (c, err (plain "invalid Ethernet frame length"))
      else if not (bytes_eq src c.mac)
      then (c, err (plain "Ethernet frame source MAC is not this member"))
      else seal_to c (targets_of c dst) (frame_header src dst) frame

  -- The part of `openFrame` behind its tests.
  unfoldable pub open_frame_from : PacketCipher → ℕ → Bytes → PacketCipher × Result (ℕ × Bytes)
  open_frame_from c peer raw = elim (get_elem? c.store peer) [
    | none ↦ (c, panic)
    | some p ↦
        let (c', r) =
          open_peer_message aead c peer p.ip (take frame_header_size raw) 14
            (drop frame_header_size raw) (validate_frame (piece raw 2 8) (piece raw 8 14)) in
        (c', map_ok (λ frame. (peer, frame)) r)
  ]

  unfoldable pub open_frame : PacketCipher → Bytes → PacketCipher × Result (ℕ × Bytes)
  open_frame c raw =
      if ltb (length raw) (frame_header_size + min_frame_size + overhead)
        || (ltb (frame_header_size + max_frame_size + overhead) (length raw)
            || (not (get_or raw 0 0 == kind_frame) || not (get_or raw 1 0 == frame_version)))
      then (c, err (plain "invalid zone frame message"))
      else elim (mac_at c.macs (piece raw 2 8)) [
        | none ↦ (c, err (plain "zone frame from an unknown source MAC"))
        | some peer ↦
            if not (bytes_eq (piece raw 8 14) c.mac) && not (is_group_mac (piece raw 8 14))
            then (c, err (plain "zone frame is not addressed to this member"))
            else open_frame_from c peer raw
      ]
