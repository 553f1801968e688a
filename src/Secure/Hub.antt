-- ===== src/Secure/Hub.antt =====
-- `secureHub` of linksocks/secure_channel.go: the sessions of one relay by their channel. A session
-- is named by a number, as the code names it by its pointer; so is a waiter of `awaitChannel`.
use linksocks.Prelude.{
  ℕ, suc, ◌==◌, Bool, true, false, Option, none, some, List, [], ◌∷◌, ◌++◌, Bytes, if◌then◌else◌,
  Error, plain,
}
use linksocks.Prelude.ByteOrder.{codes, bytes_eq}
use linksocks.Prelude.Table.{Table, store, erase, is_some, empty_table}
use linksocks.Message.Types.{
  Uuid, Message, ChannelOpenMessage, disconnect, channel_open, connect_response,
}
use linksocks.Secure.Noise.{Noise, Answer, given, refused}
use linksocks.Secure.Grace.{
  Environment, Written, written, write_failed, out_of_fuel, crashed, write_with_grace,
  session_closed,
}
use linksocks.Secure.Session.{Session, deliver, finish, set_link, on_wire, result_err}
use linksocks.Secure.Handshake.{new_session}

-- `relay_writer` is `newClientRelayWriter(h.client)` of a hub with a client.
pub record Hub (n : Noise) : Type 0 where
  pub relay_writer : Option ℕ
  pub sessions : Table ℕ
  pub heap : ℕ → Option (Session n)
  pub next : ℕ
  pub waiters : Table (List ℕ)
  pub next_waiter : ℕ
  pub woken : List ℕ

unfoldable pub listed : Option (List ℕ) → List ℕ
listed none = []
listed (some ws) = ws

-- The list without the first `w`.
unfoldable pub without : ℕ → List ℕ → List ℕ
without w [] = []
without w (v ∷ ws) = let rest = without w ws in if v == w then ws else v ∷ rest

-- What `acceptChannel` did: the session it started, if any, and the messages it wrote.
pub data Accepted : Type 0 where
  resumed expired : Accepted
  not_started : Error → Accepted
  started : ℕ → Accepted

-- How `openChannel` stands.
pub data Opening : Type 0 where
  opened : ℕ → Opening
  refused_open : Error → Opening
  refused_by_relay : Bytes → Opening
  waiting : Opening
  requeue : Message → Opening

-- What ends one round of the wait of `openChannel`.
pub data OpenEvent : Type 0 where
  became_ready became_done timer_fired : OpenEvent
  from_queue : Message → OpenEvent

unfoldable pub refusal : Bytes → Bytes
refusal reason = if bytes_eq reason [] then codes "channel open refused by relay" else reason

unfoldable pub points_to : Option ℕ → ℕ → Bool
points_to none p = false
points_to (some q) p = q == p

-- `resp, ok := msg.(ConnectResponseMessage); ok && !resp.Success`
unfoldable pub as_refusal : Message → Option Bytes
as_refusal (connect_response m) = if m.success then none else some m.error
as_refusal m = none

module _ (n : Noise) where
  unfoldable pub new_hub : Option ℕ → Hub n
  new_hub writer = record {
    relay_writer = writer;
    sessions = empty_table;
    heap = λ p. none;
    next = 0;
    waiters = empty_table;
    next_waiter = 0;
    woken = [];
  }

  unfoldable pub has : Hub n → Uuid → Bool
  has h id = is_some (h.sessions id)

  -- Writing through a pointer.
  unfoldable pub update : Hub n → ℕ → Session n → Hub n
  update h p s = record h { heap = λ q. if p == q then some s else h.heap q }

  -- A session that `newSession` made.
  unfoldable pub allocate_session : Hub n → Session n → Hub n × ℕ
  allocate_session h s = (record (update h h.next s) { next = suc h.next }, h.next)

  unfoldable pub wake_waiters : Hub n → Uuid → Hub n
  wake_waiters h id = record h {
    waiters = erase id h.waiters;
    woken = h.woken ++ listed (h.waiters id);
  }

  unfoldable pub register : Hub n → ℕ → Session n → Hub n
  register h p s =
      wake_waiters (record h { sessions = store s.channel_id p h.sessions }) s.channel_id

  -- `awaitChannel` up to its wait: `none` when the session is there.
  unfoldable pub await_channel : Hub n → Uuid → Hub n × Option ℕ
  await_channel h id = if has h id then (h, none) else (
    record h {
      waiters = store id (listed (h.waiters id) ++ (h.next_waiter ∷ [])) h.waiters;
      next_waiter = suc h.next_waiter;
    },
    some h.next_waiter,
  )

  -- `awaitChannel` after its timer fired, with its answer.
  unfoldable pub await_timeout : Hub n → Uuid → ℕ → Hub n × Bool
  await_timeout h id w =
      let left = without w (listed (h.waiters id)) in
      let waiters : Table (List ℕ) = elim left [
        | [] ↦ erase id h.waiters
        | ◌∷◌ v vs ↦ store id (v ∷ vs) h.waiters
      ] in
      (record h { waiters = waiters }, has h id)

  -- `remove`: `CompareAndDelete`.
  unfoldable pub remove_session : Hub n → ℕ → Session n → Hub n
  remove_session h p s =
      if points_to (h.sessions s.channel_id) p
      then record h { sessions = erase s.channel_id h.sessions }
      else h

  unfoldable pub on_session : Hub n → Uuid → (ℕ → Session n → Hub n) → Hub n
  on_session h id f = elim (h.sessions id) [
    | none ↦ h
    | some p ↦ elim (h.heap p) [ none ↦ h | some s ↦ f p s ]
  ]

  -- `close`
  unfoldable pub close_channel : Hub n → Uuid → Hub n
  close_channel h id = on_session h id (λ p s.
      update (record h { sessions = erase id h.sessions }) p (finish n s (some session_closed)))

  -- `deliver`
  unfoldable pub deliver_sealed : Hub n → Uuid → Bytes → Hub n
  deliver_sealed h id ct = on_session h id (λ p s. update h p (deliver n s ct).0)

  unfoldable pub accept_new : Hub n → Answer (Session n) → Hub n × List Message × Accepted
  accept_new h (refused e) = (h, [], not_started e)
  accept_new h (given s) = let (h', p) = allocate_session h s in (register h' p s, [], started p)

  -- `acceptChannel`, whose session is to `run` when it started one.
  unfoldable pub accept_channel :
      Hub n → Bytes → ℕ → ChannelOpenMessage → Hub n × List Message × Accepted
  accept_channel h random link m =
      let writer : ℕ = elim h.relay_writer [ none ↦ link | some w ↦ w ] in
      elim (h.sessions m.channel_id) [
        | some p ↦
            (on_session h m.channel_id (λ q s. update h q (set_link n s writer)), [], resumed)
        | none ↦
            if m.resume
            then (
              h,
              disconnect (record { channel_id = m.channel_id; error = codes "channel expired" })
                  ∷ [],
              expired,
            )
            else accept_new h (new_session n random writer m.channel_id false)
      ]

  unfoldable pub sent_open :
      Hub n → Uuid → ℕ → List Message × ℕ × Written → Hub n × List Message × Opening
  sent_open h id p (out, now, written) = (h, out, waiting)
  sent_open h id p (out, now, write_failed e) = (close_channel h id, out, refused_open e)
  sent_open h id p (out, now, out_of_fuel) = (h, out, waiting)
  sent_open h id p (out, now, crashed) = (h, out, waiting)

  unfoldable pub open_new :
      Environment → Hub n → ℕ → Answer (Session n) → Hub n × List Message × Opening
  open_new env h now (refused e) = (h, [], refused_open e)
  open_new env h now (given s) =
      let s' : Session n = record s { has_queue = true } in
      let (h', p) = allocate_session h s' in
      sent_open (register h' p s') s.channel_id p (
        on_wire n (channel_open (record { channel_id = s.channel_id; resume = false }))
          (write_with_grace env now))

  -- `openChannel` before its wait.
  unfoldable pub open_channel :
      Environment → Hub n → Bytes → ℕ → ℕ → Uuid → Hub n × List Message × Opening
  open_channel env h random now link id = open_new env h now (new_session n random link id true)

  -- One round of the wait for session `p` of the channel.
  unfoldable pub open_round : Hub n → Uuid → ℕ → OpenEvent → Hub n × Opening
  open_round h id p became_ready = (h, opened p)
  open_round h id p became_done = (
    h,
    elim (h.heap p) [ none ↦ refused_open session_closed | some s ↦ refused_open (result_err n s) ],
  )
  open_round h id p timer_fired =
      (close_channel h id, refused_open (plain "secure channel handshake timeout"))
  open_round h id p (from_queue m) = elim (as_refusal m) [
    | none ↦ (h, requeue m)
    | some reason ↦ (close_channel h id, refused_by_relay (refusal reason))
  ]

  unfoldable pub at_pointer : Hub n → ℕ → (Session n → Hub n) → Hub n
  at_pointer h p f = elim (h.heap p) [ none ↦ h | some s ↦ f s ]

  -- What can happen to a hub: its operations, a change of a session by the session's own code,
  -- which never assigns the channel, and the end of the session's `run`.
  pub data HubOp : Type 0 where
    opens : Environment → Bytes → ℕ → ℕ → Uuid → HubOp
    open_waits : Uuid → ℕ → OpenEvent → HubOp
    accepts : Bytes → ℕ → ChannelOpenMessage → HubOp
    delivers : Uuid → Bytes → HubOp
    closes awaits : Uuid → HubOp
    await_ends : Uuid → ℕ → HubOp
    moves : ℕ → Session n → HubOp
    run_ends : ℕ → HubOp

  unfoldable pub hub_step : Hub n → HubOp → Hub n
  hub_step h (opens env random now link id) = (open_channel env h random now link id).0
  hub_step h (open_waits id p ev) = (open_round h id p ev).0
  hub_step h (accepts random link m) = (accept_channel h random link m).0
  hub_step h (delivers id ct) = deliver_sealed h id ct
  hub_step h (closes id) = close_channel h id
  hub_step h (awaits id) = (await_channel h id).0
  hub_step h (await_ends id w) = (await_timeout h id w).0
  hub_step h (moves p s') =
      at_pointer h p (λ s. update h p (record s' { channel_id = s.channel_id }))
  hub_step h (run_ends p) = at_pointer h p (λ s. remove_session h p s)

  unfoldable pub run_hub : Hub n → List HubOp → Hub n
  run_hub h [] = h
  run_hub h (op ∷ ops) = run_hub (hub_step h op) ops
