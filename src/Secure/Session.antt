-- ===== src/Secure/Session.antt =====
-- `secureSession` of linksocks/secure_channel.go: its state, its end, and how it seals, sends and
-- decrypts. A link is named by a number. `run` is a goroutine: `phase` says where it stands.
use linksocks.Prelude.{
  ℕ, ◌+◌, Bool, true, not, Option, none, some, List, [], ◌∷◌, ◌++◌, ltb, length, if◌then◌else◌,
  Bytes, Result, ok, err, panic, Error, plain, wrapped,
}
use linksocks.Message.Types.{Uuid, Message, DisconnectMessage, disconnect, sealed}
use linksocks.Message.Packages.{Packages}
use linksocks.Message.Pack.{pack_message_with_version}
use linksocks.Message.Body.{parse_message_with_version}
use linksocks.Message.Version.{protocol_version_v2}
use linksocks.Secure.Noise.{Noise, Answer, given, refused}
use linksocks.Secure.Grace.{
  Environment, landed, down, broken, Written, written, write_failed, out_of_fuel, crashed,
  write_with_grace, session_closed,
}

-- `ended` is a `run` that returned, `panicked` one that panicked.
pub data Phase : Type 0 where
  starting awaiting_first awaiting_second awaiting_third transport ended panicked : Phase

pub record Session (n : Noise) : Type 0 where
  pub channel_id : Uuid
  pub initiator : Bool
  pub link : ℕ
  pub has_queue : Bool
  pub hs : n.Handshake
  pub send : Option n.Cipher
  pub recv : Option n.Cipher
  pub established : Bool
  pub ready : Bool
  pub closed : Bool
  pub done : Bool
  pub failed : Option Error
  pub inbound : List Bytes
  pub phase : Phase

abbrev pub secure_inbound_queue : ℕ
secure_inbound_queue = 512

unfoldable pub keep_first : Option Error → Option Error → Option Error
keep_first none e = e
keep_first (some first) e = some first

-- `_, ok := msg.(DisconnectMessage)`
unfoldable pub as_disconnect : Message → Option DisconnectMessage
as_disconnect (disconnect m) = some m
as_disconnect m = none

-- What `receive` and `deliver` answer.
pub data Received : Type 0 where
  frame : Bytes → Received
  no_frame wait_frame : Received

pub data Delivered : Type 0 where
  buffered dropped wait_room : Delivered

module _ (n : Noise) where
  -- `finish`, which `close` and `fail` call.
  unfoldable pub finish : Session n → Option Error → Session n
  finish s e = record s { failed = keep_first s.failed e; done = true; closed = true }

  unfoldable pub result_err : Session n → Error
  result_err s = elim s.failed [ none ↦ session_closed | some e ↦ e ]

  unfoldable pub set_link : Session n → ℕ → Session n
  set_link s link = record s { link = link }

  -- `deliver`: buffering is tried before the end of the session is considered.
  unfoldable pub deliver : Session n → Bytes → Session n × Delivered
  deliver s payload =
      if ltb (length s.inbound) secure_inbound_queue
      then (record s { inbound = s.inbound ++ (payload ∷ []) }, buffered)
      else (s, if s.done then dropped else wait_room)

  unfoldable pub receive : Session n → Session n × Received
  receive s = elim s.inbound [
    | [] ↦ (s, if s.done then no_frame else wait_frame)
    | ◌∷◌ ct rest ↦ (record s { inbound = rest }, frame ct)
  ]

  -- `installCiphers`: the first cipher is the one from the initiator to the responder.
  unfoldable pub install_ciphers : Session n → Option (n.Cipher × n.Cipher) → Session n
  install_ciphers s none = record s { send = none; recv = none }
  install_ciphers s (some (a, b)) =
      if s.initiator
      then record s { send = some a; recv = some b }
      else record s { send = some b; recv = some a }

  -- A session, what went out on its link, the time, and how the write ended.
  abbrev pub Output : Type 0
  Output = Session n × List Message × ℕ × Written

  -- One write that is tried again while the link is down.
  unfoldable pub on_wire : Message → ℕ × Written → List Message × ℕ × Written
  on_wire m (now, written) = (m ∷ [], now, written)
  on_wire m (now, write_failed e) = ([], now, write_failed e)
  on_wire m (now, out_of_fuel) = ([], now, out_of_fuel)
  on_wire m (now, crashed) = ([], now, crashed)

  unfoldable pub write_ciphertext : Environment → Session n → ℕ → Bytes → List Message × ℕ × Written
  write_ciphertext env s now ct =
      on_wire (sealed (record { channel_id = s.channel_id; payload = ct }))
        (write_with_grace env now)

  -- One try, with no grace.
  unfoldable pub write_plain : Environment → Session n → ℕ → Message → Output
  write_plain env s now m = elim (env.attempt now) [
    | landed ↦ (s, m ∷ [], now + env.took now, written)
    | down e ↦ (s, [], now + env.took now, write_failed (wrapped "transport down" e))
    | broken e ↦ (s, [], now + env.took now, write_failed e)
  ]

  -- The end of `WriteMessage`: a frame that could not be delivered closes the session.
  unfoldable pub after_ciphertext : Session n → List Message × ℕ × Written → Output
  after_ciphertext s (out, now, written) = (s, out, now, written)
  after_ciphertext s (out, now, write_failed e) =
      (finish s (some (wrapped "secure channel write" e)), out, now, write_failed e)
  after_ciphertext s (out, now, out_of_fuel) = (s, out, now, out_of_fuel)
  after_ciphertext s (out, now, crashed) = (s, out, now, crashed)

  unfoldable pub after_encrypt : Environment → Session n → ℕ → n.Cipher × Answer Bytes → Output
  after_encrypt env s now (c, given ct) =
      let s' : Session n = record s { send = some c } in
      after_ciphertext s' (write_ciphertext env s' now ct)
  after_encrypt env s now (c, refused e) =
      (record s { send = some c }, [], now, write_failed (wrapped "secure channel encrypt" e))

  unfoldable pub write_packed : Environment → Session n → ℕ → Result Bytes → Output
  write_packed env s now (err e) = (s, [], now, write_failed e)
  write_packed env s now panic = (s, [], now, crashed)
  write_packed env s now (ok text) =
      if s.closed
      then (s, [], now, write_failed session_closed)
      else if not s.established
      then (s, [], now, write_failed (plain "secure channel: handshake not complete"))
      else elim s.send [
        | none ↦ (s, [], now, write_failed (plain "secure channel: handshake not complete"))
        | some c ↦ after_encrypt env s now (n.encrypt c text)
      ]

  module _ (packages : Packages) where
    unfoldable pub write_message : Environment → Session n → ℕ → Message → Output
    write_message env s now m = elim (as_disconnect m) [
      | some d ↦ write_plain env s now (disconnect d)
      | none ↦ write_packed env s now (pack_message_with_version packages m protocol_version_v2)
    ]

    -- The step of `run` on one transport frame up to `dispatch`: the message to dispatch.
    unfoldable pub parsed : Session n → Result Message → Session n × Option Message
    parsed s (ok m) = (s, some m)
    parsed s (err e) = (
      finish (record s { phase = ended }) (some (wrapped "secure channel payload parse" e)),
      none,
    )
    parsed s panic = (record s { phase = panicked }, none)

    unfoldable pub decrypted : Session n → n.Cipher × Answer Bytes → Session n × Option Message
    decrypted s (c, given text) =
        parsed (record s { recv = some c }) (parse_message_with_version packages text).0
    decrypted s (c, refused e) = (
      finish (record s { recv = some c; phase = ended })
          (some (wrapped "secure channel decrypt" e)),
      none,
    )

    unfoldable pub transport_frame : Session n → Bytes → Session n × Option Message
    transport_frame s ct = elim s.recv [
      | none ↦ (
        finish (record s { phase = ended }) (some (plain "secure channel: transport key missing")),
        none,
      )
      | some c ↦ decrypted s (n.decrypt c ct)
    ]

    -- The loop of `run` on the frames it receives: the messages it dispatches. A frame that cannot
    -- be decrypted or parsed ends it.
    unfoldable pub run_frames : Session n → List Bytes → Session n × List Message
    run_frames s [] = (s, [])
    run_frames s (ct ∷ cts) =
        let (s', dispatched) = transport_frame s ct in
        let (s'', later) = run_frames s' cts in
        elim dispatched [ none ↦ (s', []) | some m ↦ (s'', m ∷ later) ]
