-- ===== src/Secure/Tests.antt =====
-- Runs of the secure channel of linksocks/secure_channel.go with a simple handshake and cipher, and
-- the theorems at concrete inputs.
use linksocks.Prelude.{
  ℕ, suc, ◌==◌, ◌≡◌, ◌↔◌, refl, Bool, true, false, Option, none, some, List, [], ◌∷◌, Bytes, plain,
  if◌then◌else◌, arith, leb, inl,
}
use linksocks.Message.Sample.{packages, some_id, some_request}
use linksocks.Message.Types.{Uuid, Message, connect}
use linksocks.Secure.Noise.{Noise, Answer, given, refused}
use linksocks.Secure.Grace.{Environment, written, grace_loop, landed, down, write_with_grace}
use linksocks.Secure.Session.{Session, run_frames, transport}
use linksocks.Secure.Handshake.{new_session, with_keypair, with_state, fresh}
use linksocks.Secure.Agreement.{ciphertexts, Paired, exchange, handshake-Paired}
use linksocks.Secure.Dispatch.{
  Side, dispatch, DialsInOrder, dialled, to_dial, dispatch-DialInOrder, dispatch_connect,
  dial_allowed, verdict, access_denied, reserve_queue, dial, reply,
}
use linksocks.Secure.Hub.{
  HubOp, accepts, delivers, closes, run_ends, run_hub, new_hub, remove_session,
}
use linksocks.Secure.Registry.{WellFormed, hub-in_order}
use linksocks.Secure.Transport.{
  open_channel_transport, plaintext, GetsPlaintext, open_channel_transport-plaintext,
}
use linksocks.Prelude.Table.{empty_table}
use linksocks.Prelude.ByteOrder.{codes}
use linksocks.Secure.Delivery.{write_all, write_all-dispatched}

-- A handshake that only counts its flights, and a cipher that writes its counter before the text.
data Stage : Type 0 where
  i0 i1 i2 i3 r0 r1 r2 r3 lost : Stage

abbrev toy_write : Stage → Stage × Answer (Bytes × Option (ℕ × ℕ))
toy_write i0 = (i1, given (1 ∷ [], none))
toy_write r1 = (r2, given (2 ∷ [], none))
toy_write i2 = (i3, given (3 ∷ [], some (0, 100)))
toy_write hs = (lost, refused (plain "unexpected write"))

abbrev toy_read : Stage → Bytes → Stage × Answer (Option (ℕ × ℕ))
toy_read r0 m = (r1, given none)
toy_read i1 m = (i2, given none)
toy_read r2 m = (r3, given (some (0, 100)))
toy_read hs m = (lost, refused (plain "unexpected read"))

abbrev toy_start : Bool → Stage
toy_start true = i0
toy_start false = r0

abbrev toy_encrypt : ℕ → Bytes → ℕ × Answer Bytes
toy_encrypt c text = (suc c, given (c ∷ text))

abbrev toy_decrypt : ℕ → Bytes → ℕ × Answer Bytes
toy_decrypt c [] = (c, refused (plain "short"))
toy_decrypt c (k ∷ text) =
    if k == c then (suc c, given text) else (c, refused (plain "authentication failed"))

abbrev Completes : Stage → Stage → Type 0
Completes i r =
    (a1 : Stage) × (a2 : Stage) × (a3 : Stage) × (b1 : Stage) × (b2 : Stage) × (b3 : Stage)
    × (m1 : Bytes) × (m2 : Bytes) × (m3 : Bytes) × (a : ℕ) × (b : ℕ) × (a' : ℕ) × (b' : ℕ)
    × (toy_write i ≡ (a1, given (m1, none)))
    × (toy_read r m1 ≡ (b1, given none))
    × (toy_write b1 ≡ (b2, given (m2, none)))
    × (toy_read a1 m2 ≡ (a2, given none))
    × (toy_write a2 ≡ (a3, given (m3, some (a, b))))
    × (toy_read b2 m3 ≡ (b3, given (some (a', b'))))
    × ((a ≡ a') × (b' ≡ b))

toy-Completes : Completes i0 r0
toy-Completes = (
  i1,
  i2,
  i3,
  r1,
  r2,
  r3,
  1 ∷ [],
  2 ∷ [],
  3 ∷ [],
  0,
  100,
  0,
  100,
  refl,
  refl,
  refl,
  refl,
  refl,
  refl,
  (refl, refl),
)

toy_start-Completes :
    (i r : Stage)
    → given (toy_start true) ≡ given i
    → given (toy_start false) ≡ given r
    → Completes i r
toy_start-Completes i r e f =
    let p : i0 ≡ i = cc in let q : r0 ≡ r = cc in rw (← p, ← q) toy-Completes

toy_opens :
    (s r s' : ℕ) (text ct : Bytes)
    → s ≡ r
    → toy_encrypt s text ≡ (s', given ct)
    → (r' : ℕ) × (toy_decrypt r ct ≡ (r', given text)) × (s' ≡ r')
toy_opens s r s' text ct e f =
    let same : s ∷ text ≡ ct = cc in
    let now : (s == r) ≡ true = ground arith in (suc r, rw (← same, now) refl, cc)

abbrev toy : Noise
toy = record {
  Handshake = Stage;
  Cipher = ℕ;
  generate_keypair = λ random. given random;
  new_handshake_state = λ initiator k. given (toy_start initiator);
  write_message = toy_write;
  read_message = toy_read;
  encrypt = toy_encrypt;
  decrypt = toy_decrypt;
  InStep = λ s r. s ≡ r;
  decrypt-encrypt = toy_opens;
  encrypt-refused = λ s r s' text e h f. cc;
  xx_completes = λ k l i r e f. toy_start-Completes i r e f;
}

-- A link that is down for the first second, and one that is always up.
abbrev late : Environment
late = record {
  attempt = λ now. if leb 1000 now then landed else down (plain "transport down");
  took = λ now. 10;
  ended = λ now. false;
  grace = 30000;
}

abbrev up : Environment
up = record { attempt = λ now. landed; took = λ now. 10; ended = λ now. false; grace = 30000 }

up-written : (now : ℕ) → (write_with_grace up now).1 ≡ written
unfolding write_with_grace grace_loop
up-written now = refl

late-written : write_with_grace late 0 ≡ (1110, written)
unfolding write_with_grace grace_loop
late-written = refl

abbrev initiator : Session toy
initiator = record (fresh toy 1 some_id true i3) {
  send = some 0;
  recv = some 100;
  established = true;
  ready = true;
  phase = transport;
}

abbrev responder : Session toy
responder = record (fresh toy 2 some_id false r3) {
  send = some 100;
  recv = some 0;
  established = true;
  ready = true;
  phase = transport;
}

opened : new_session toy (7 ∷ []) 1 some_id true ≡ given (fresh toy 1 some_id true i0)
unfolding new_session with_keypair with_state
opened = refl

accepted : new_session toy (8 ∷ []) 2 some_id false ≡ given (fresh toy 2 some_id false r0)
unfolding new_session with_keypair with_state
accepted = refl

handshake-Paired_example :
    (i' : Session toy) × (r' : Session toy) × (exchange toy up 0
        (fresh toy 1 some_id true i0)
        (fresh toy 2 some_id false r0)
      ≡ some (i', r'))
    × Paired toy i' r'
    × Paired toy r' i'
    × (i'.established ≡ true)
    × (r'.established ≡ true)
    × (i'.phase ≡ transport)
    × (r'.phase ≡ transport)
handshake-Paired_example =
    handshake-Paired toy up 0 1 2 (7 ∷ []) (8 ∷ []) some_id (fresh toy 1 some_id true i0)
      (fresh toy 2 some_id false r0) up-written opened accepted

abbrev some_writes : List (ℕ × Message)
some_writes = (0, connect some_request) ∷ (5, connect some_request) ∷ []

paired : Paired toy initiator responder
unfolding fresh
paired = (0, 0, refl, refl, refl)

write_all-dispatched_example :
    (run_frames toy packages responder
      (ciphertexts (write_all toy packages late initiator some_writes).1)).1
    ≡ (write_all toy packages late initiator some_writes).2
write_all-dispatched_example =
    write_all-dispatched toy packages late initiator responder some_writes paired (
      (omega arith, inl (refl, omega arith, omega arith)),
      ((omega arith, inl (refl, omega arith, omega arith)), tt),
    )

-- A relay that dials, with a rule that lets every request pass, and one with a rule against every
-- request.
abbrev lenient : Side
lenient = record { has_client = false; access_check = some (λ m. none) }

abbrev strict : Side
strict = record { has_client = false; access_check = some (λ m. some (codes "blocked")) }

dispatch-DialInOrder_example :
    DialsInOrder toy lenient responder
      (connect some_request)
      empty_table
      (dispatch toy lenient empty_table responder (connect some_request))
    × (dialled (dispatch toy lenient empty_table responder (connect some_request))
        ≡ to_dial toy lenient responder (connect some_request))
dispatch-DialInOrder_example =
    dispatch-DialInOrder toy lenient empty_table responder (connect some_request)

dials :
    dispatch toy lenient empty_table responder (connect some_request)
    ≡ reserve_queue some_request.channel_id ∷ dial some_request ∷ []
unfolding dispatch dispatch_connect dial_allowed verdict fresh
dials = refl

refuses_dial :
    dispatch toy strict empty_table responder (connect some_request)
    ≡ reply (access_denied some_request (codes "blocked")) ∷ []
unfolding dispatch dispatch_connect dial_allowed verdict fresh
refuses_dial = refl

abbrev some_ops : List (HubOp toy)
some_ops =
    accepts (7 ∷ []) 1 (record { channel_id = some_id; resume = false })
    ∷ delivers some_id (1 ∷ [])
    ∷ closes some_id
    ∷ accepts (8 ∷ []) 2 (record { channel_id = some_id; resume = false })
    ∷ run_ends 0
    ∷ []

hub-in_order_example :
    WellFormed toy (run_hub toy (new_hub toy none) some_ops)
    × ((id : Uuid) (p q : ℕ) (s : Session toy)
        → (run_hub toy (new_hub toy none) some_ops).sessions id ≡ some q
        → (run_hub toy (new_hub toy none) some_ops).heap p ≡ some s
        → (remove_session toy (run_hub toy (new_hub toy none) some_ops) p s).sessions id
          ≡ (if p == q then none else some q))
hub-in_order_example = hub-in_order toy none some_ops

open_channel_transport-plaintext_example :
    (open_channel_transport (some true) (some 0) ≡ plaintext) ↔ GetsPlaintext true (some 0)
open_channel_transport-plaintext_example = open_channel_transport-plaintext true (some 0)
