-- ===== src/Secure/Dispatch.antt =====
-- `dispatch` of linksocks/secure_channel.go: what becomes of a message that was decrypted. What it
-- does outside the session is a list of actions, in their order.
use linksocks.Prelude.{
  Bool, true, false, Option, none, some, List, [], ◌∷◌, Bytes, ◌≡◌, if◌then◌else◌, String, arith,
  not, ◌||◌, ◌&&◌,
}
use linksocks.Prelude.Table.{Table, store, is_some, load-store}
use linksocks.Message.Types.{
  Message, ConnectMessage, DataMessage, DisconnectMessage, connect, connect_response, data_message,
  disconnect,
}
use linksocks.Secure.Noise.{Noise}
use linksocks.Secure.Session.{Session}

-- Where a decrypted message or a dial goes. `reserve_queue` is the `Store` of a new
-- queue of the channel in `relay.messageQueues`, `flush_orphans` is `flushOrphanData` of the client,
-- `dial` starts `HandleNetworkConnection`, and `reply` is `s.WriteMessage`.
pub data Action : Type 0 where
  queue_message to_relay_queue : Message → Action
  reserve_queue flush_orphans : Bytes → Action
  dial : ConnectMessage → Action
  reply : Message → Action
  deliver_data : DataMessage → Action
  peer_disconnect : DisconnectMessage → Action
  warn : String → Action

-- `hub.client != nil`, and `accessCheck` with the text of its error.
pub record Side : Type 0 where
  pub has_client : Bool
  pub access_check : Option (ConnectMessage → Option Bytes)

-- What an action does to the channels that have a queue in `relay.messageQueues`.
abbrev pub act : Table (Unit {0}) → Action → Table (Unit {0})
act queues (reserve_queue id) = store id tt queues
act queues a = queues

-- The requests that the actions dial.
abbrev pub dialled : List Action → List ConnectMessage
dialled [] = []
dialled (dial m ∷ actions) = m ∷ dialled actions
dialled (a ∷ actions) = dialled actions

-- `handleSecureConnect` of linksocks/client.go.
unfoldable pub handle_secure_connect : Table (Unit {0}) → ConnectMessage → List Action
handle_secure_connect queues m =
    if is_some (queues m.channel_id)
    then dial m ∷ []
    else reserve_queue m.channel_id ∷ flush_orphans m.channel_id ∷ dial m ∷ []

abbrev pub access_denied : ConnectMessage → Bytes → Message
access_denied m reason =
    connect_response (record { success = false; error = reason; channel_id = m.channel_id })

unfoldable pub dial_allowed : Table (Unit {0}) → ConnectMessage → Option Bytes → List Action
dial_allowed queues m (some reason) = reply (access_denied m reason) ∷ []
dial_allowed queues m none =
    if is_some (queues m.channel_id) then dial m ∷ [] else reserve_queue m.channel_id ∷ dial m ∷ []

-- What `accessCheck` says of a request.
unfoldable pub verdict : Side → ConnectMessage → Option Bytes
verdict side m = elim side.access_check [ none ↦ none | some check ↦ check m ]

-- What the access check of a relay lets through.
abbrev pub Permits : Option (ConnectMessage → Option Bytes) → ConnectMessage → Type 0
Permits none m = Unit
Permits (some check) m = check m ≡ none

verdict-Permits :
    (side : Side) (m : ConnectMessage) → verdict side m ≡ none → Permits side.access_check m
unfolding verdict
verdict-Permits side m e = by side.access_check e
  where
    by :
        (o : Option (ConnectMessage → Option Bytes))
        → (elim o [ none ↦ none | some check ↦ check m ]) ≡ none
        → Permits o m
    by none e = tt
    by (some check) e = e

module _ (n : Noise) where
  -- `deliverToQueue`
  unfoldable pub deliver_to_queue : Session n → Message → List Action
  deliver_to_queue s m = if s.has_queue then queue_message m ∷ [] else []

  unfoldable pub dispatch_connect :
      Side → Table (Unit {0}) → Session n → ConnectMessage → List Action
  dispatch_connect side queues s m =
      if s.initiator
      then warn "Dropping unexpected connect on the entry side" ∷ []
      else if side.has_client
      then handle_secure_connect queues m
      else dial_allowed queues m (verdict side m)

  unfoldable pub dispatch_data : Side → Table (Unit {0}) → Session n → DataMessage → List Action
  dispatch_data side queues s m =
      if s.initiator
      then deliver_to_queue s (data_message m)
      else if side.has_client
      then deliver_data m ∷ []
      else if is_some (queues m.channel_id)
      then to_relay_queue (data_message m) ∷ []
      else warn "Dropping sealed data without a channel queue" ∷ []

  unfoldable pub dispatch : Side → Table (Unit {0}) → Session n → Message → List Action
  dispatch side queues s (connect m) = dispatch_connect side queues s m
  dispatch side queues s (connect_response m) =
      if s.initiator
      then deliver_to_queue s (connect_response m)
      else warn "Dropping unexpected connect response on the dialer side" ∷ []
  dispatch side queues s (data_message m) = dispatch_data side queues s m
  dispatch side queues s (disconnect m) =
      if s.initiator
      then deliver_to_queue s (disconnect m)
      else if side.has_client
      then peer_disconnect m ∷ []
      else []
  dispatch side queues s m = warn "Dropping unexpected sealed message" ∷ []

  -- A dial that is in order when the channels with a queue are these: of the request itself, on the
  -- responder, allowed where the relay dials, and with the channel's queue reserved.
  abbrev pub DialInOrder : Side → Session n → Message → Table (Unit {0}) → Action → Type 0
  DialInOrder side s m queues (dial c) =
      (m ≡ connect c)
      × (s.initiator ≡ false)
      × (side.has_client ≡ false → Permits side.access_check c)
      × (is_some (queues c.channel_id) ≡ true)
  DialInOrder side s m queues a = Unit

  -- Every dial is in order at the time it starts, after the actions in front of it.
  abbrev pub DialsInOrder : Side → Session n → Message → Table (Unit {0}) → List Action → Type 0
  DialsInOrder side s m queues [] = Unit
  DialsInOrder side s m queues (a ∷ actions) =
      DialInOrder side s m queues a × DialsInOrder side s m (act queues a) actions

  -- The requests that are to be dialled: on the responder the one that was decrypted, on the relay
  -- when nothing is said against it.
  abbrev pub to_dial : Side → Session n → Message → List ConnectMessage
  to_dial side s (connect m) =
      if s.initiator || (not side.has_client && is_some (verdict side m)) then [] else m ∷ []
  to_dial side s m = []

  -- Whatever was decrypted, a dial is of the connect request itself, happens on the responder only,
  -- happens on the relay only when the access check passes, and starts when its channel has a queue:
  -- it had one, or one was stored before. A connect request on the responder that the access check of
  -- a relay does not refuse is dialled exactly once.
  pub dispatch-DialInOrder :
      (side : Side) (queues : Table (Unit {0})) (s : Session n) (m : Message)
      → DialsInOrder side s m queues (dispatch side queues s m)
        × (dialled (dispatch side queues s m) ≡ to_dial side s m)
  unfolding dispatch dispatch_connect dispatch_data dial_allowed handle_secure_connect
      deliver_to_queue
  dispatch-DialInOrder side queues s (connect m) =
      (ground (arith, load-store m.channel_id tt queues, verdict-Permits side m), ground arith)
  dispatch-DialInOrder side queues s (connect_response m) = (ground arith, ground arith)
  dispatch-DialInOrder side queues s (data_message m) = (ground arith, ground arith)
  dispatch-DialInOrder side queues s (disconnect m) = (ground arith, ground arith)
  dispatch-DialInOrder side queues s m = (ground arith, ground arith)
