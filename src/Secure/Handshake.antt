-- ===== src/Secure/Handshake.antt =====
-- `newSession` of linksocks/secure_channel.go, and `run` up to the end of the handshake: what it
-- does before its first wait, and what it does when a wait for a frame ends.
use linksocks.Prelude.{
  ℕ, Bool, true, false, Option, none, some, [], ◌∷◌, List, Bytes, if◌then◌else◌, plain, wrapped,
  String, Error,
}
use linksocks.Message.Types.{Uuid, Message}
use linksocks.Secure.Noise.{Noise, Answer, given, refused}
use linksocks.Secure.Grace.{
  Environment, Written, written, write_failed, out_of_fuel, crashed, session_closed,
}
use linksocks.Secure.Session.{
  Session, Phase, starting, awaiting_first, awaiting_second, awaiting_third, transport, ended,
  finish, install_ciphers, write_ciphertext, Output,
}

-- How a wait of `awaitFrame` ends.
pub data Wakeup : Type 0 where
  frame_came session_ended step_timed_out : Wakeup

module _ (n : Noise) where
  unfoldable pub fresh : ℕ → Uuid → Bool → n.Handshake → Session n
  fresh link id initiator hs = record {
    channel_id = id;
    initiator = initiator;
    link = link;
    has_queue = false;
    hs = hs;
    send = none;
    recv = none;
    established = false;
    ready = false;
    closed = false;
    done = false;
    failed = none;
    inbound = [];
    phase = starting;
  }

  unfoldable pub with_state : ℕ → Uuid → Bool → Answer n.Handshake → Answer (Session n)
  with_state link id initiator (given hs) = given (fresh link id initiator hs)
  with_state link id initiator (refused e) = refused (wrapped "secure channel handshake" e)

  unfoldable pub with_keypair : ℕ → Uuid → Bool → Answer Bytes → Answer (Session n)
  with_keypair link id initiator (given keypair) =
      with_state link id initiator (n.new_handshake_state initiator keypair)
  with_keypair link id initiator (refused e) = refused (wrapped "secure channel keypair" e)

  -- `random` is what `rand.Reader` gives.
  unfoldable pub new_session : Bytes → ℕ → Uuid → Bool → Answer (Session n)
  new_session random link id initiator = with_keypair link id initiator (n.generate_keypair random)

  -- `s.fail(err); return`
  unfoldable pub run_failed : Session n → Error → Session n
  run_failed s e = finish n (record s { phase = ended }) (some e)

  unfoldable pub establish : Session n → Session n
  establish s = record s { established = true; ready = true; phase = transport }

  unfoldable pub await_frame : Session n → Wakeup → Option (Session n × Answer Bytes)
  await_frame s frame_came = elim s.inbound [
    | [] ↦ none
    | ◌∷◌ ct rest ↦ some (record s { inbound = rest }, given ct)
  ]
  await_frame s session_ended = if s.done then some (s, refused session_closed) else none
  await_frame s step_timed_out =
      some (s, refused (plain "secure channel: handshake step timed out"))

  -- What follows a handshake message that was written.
  abbrev pub Onward : Type 0
  Onward = Session n → Option (n.Cipher × n.Cipher) → Session n

  unfoldable pub after_flight :
      Onward → Session n → Option (n.Cipher × n.Cipher) → List Message × ℕ × Written → Output n
  after_flight onward s ciphers (out, now, written) = (onward s ciphers, out, now, written)
  after_flight onward s ciphers (out, now, write_failed e) =
      (run_failed s e, out, now, write_failed e)
  after_flight onward s ciphers (out, now, out_of_fuel) = (s, out, now, out_of_fuel)
  after_flight onward s ciphers (out, now, crashed) = (s, out, now, crashed)

  unfoldable pub fly :
      Environment
      → ℕ
      → String
      → Onward
      → Session n
      → n.Handshake × Answer (Bytes × Option (n.Cipher × n.Cipher))
      → Output n
  fly env now step onward s (hs, given (m, ciphers)) =
      let s' : Session n = record s { hs = hs } in
      after_flight onward s' ciphers (write_ciphertext n env s' now m)
  fly env now step onward s (hs, refused e) =
      (run_failed (record s { hs = hs }) (wrapped step e), [], now, write_failed (wrapped step e))

  -- `hs.WriteMessage` and `writeCiphertext`.
  unfoldable pub flight : Environment → ℕ → String → Onward → Session n → Output n
  flight env now step onward s = fly env now step onward s (n.write_message s.hs)

  -- `run` before its first wait.
  unfoldable pub begin : Environment → ℕ → Session n → Output n
  begin env now s =
      if s.initiator
      then flight env now "secure channel handshake write 1"
          (λ t ciphers. record t { phase = awaiting_second }) s
      else (record s { phase = awaiting_first }, [], now, written)

  -- After `hs.ReadMessage` of the frame that `phase` waited for.
  unfoldable pub onward_from :
      Environment → ℕ → Phase → Session n → Option (n.Cipher × n.Cipher) → Output n
  onward_from env now awaiting_first s ciphers =
      flight env now "secure channel handshake write 2"
        (λ t ciphers. record t { phase = awaiting_third }) s
  onward_from env now awaiting_second s ciphers =
      flight env now "secure channel handshake write 3"
        (λ t ciphers. establish (install_ciphers n t ciphers)) s
  onward_from env now awaiting_third s ciphers =
      (establish (install_ciphers n s ciphers), [], now, written)
  onward_from env now phase s ciphers = (s, [], now, written)

  abbrev pub read_step : Phase → String
  read_step awaiting_first = "secure channel handshake read 1"
  read_step awaiting_second = "secure channel handshake read 2"
  read_step phase = "secure channel handshake read 3"

  unfoldable pub on_read :
      Environment → ℕ → Session n → n.Handshake × Answer (Option (n.Cipher × n.Cipher)) → Output n
  on_read env now s (hs, given ciphers) = onward_from env now s.phase (record s { hs = hs }) ciphers
  on_read env now s (hs, refused e) =
      (run_failed (record s { hs = hs }) (wrapped (read_step s.phase) e), [], now, write_failed e)

  unfoldable pub on_awaited : Environment → ℕ → Session n × Answer Bytes → Output n
  on_awaited env now (s, given ct) = on_read env now s (n.read_message s.hs ct)
  on_awaited env now (s, refused e) = (run_failed s e, [], now, write_failed e)

  -- The next part of `run` when a wait of the handshake ends, if it can end that way.
  unfoldable pub wake : Environment → ℕ → Session n → Wakeup → Option (Output n)
  wake env now s w = elim (await_frame s w) [ none ↦ none | some a ↦ some (on_awaited env now a) ]
