-- ===== src/Secure/Registry.antt =====
-- The table of sessions of `secureHub` in linksocks/secure_channel.go stays in order.
use linksocks.Prelude.{
  ℕ, ◌==◌, ◌<◌, ◌≡◌, refl, sym, subst, ◌∙◌, true, false, Option, none, some, List, [], ◌∷◌, Bytes,
  if◌then◌else◌, arith, Option-cases, Bool-cases, inl, inr, if_ind,
}
use linksocks.Prelude.ByteOrder.{bytes_eq, bytes_eq_refl, bytes_eq→eq}
use linksocks.Prelude.Table.{erase}
use linksocks.Message.Types.{Uuid, Message, ChannelOpenMessage}
use linksocks.Secure.Noise.{Noise, Answer, given, refused}
use linksocks.Secure.Grace.{Environment, Written, written, write_failed, out_of_fuel, crashed}
use linksocks.Secure.Session.{Session, Delivered, deliver, finish, set_link}
use linksocks.Secure.Hub.{
  Hub, new_hub, update, allocate_session, wake_waiters, register, points_to, as_refusal,
  remove_session, on_session, close_channel, deliver_sealed, accept_new, accept_channel, sent_open,
  open_new, open_channel, at_pointer, HubOp, opens, open_waits, accepts, delivers, closes, awaits,
  await_ends, moves, run_ends, hub_step, run_hub, has, await_channel, await_timeout, became_ready,
  became_done, timer_fired, from_queue, OpenEvent, open_round, Accepted,
}

module _ (n : Noise) where
  -- The session behind a pointer, if it is a session of the channel.
  abbrev pub Holds : Uuid → Option (Session n) → Type 0
  Holds id none = ⊥
  Holds id (some s) = s.channel_id ≡ id

  -- A registered session exists and is a session of its channel.
  abbrev pub WellFormed : Hub n → Type 0
  WellFormed h = (id : Uuid) (p : ℕ) → h.sessions id ≡ some p → (p < h.next) × Holds id (h.heap p)

  update-WellFormed :
      (h : Hub n) (p : ℕ) (s s' : Session n)
      → WellFormed h
      → h.heap p ≡ some s
      → s'.channel_id ≡ s.channel_id
      → WellFormed (update n h p s')
  unfolding update
  update-WellFormed h p s s' w e f id q registered =
      let (lo, k) = w id q registered in
      (
        lo,
        elim (Bool-cases (p == q)) [
          | inl same ↦
              let eq : p ≡ q = ground arith in
              rw same (
                f
                ∙ subst (λ (o : Option (Session n)). Holds id o) e
                    (subst (λ (r : ℕ). Holds id (h.heap r)) (sym eq) k))
          | inr other ↦ rw other k
        ],
      )

  erase-WellFormed :
      (h : Hub n) (id : Uuid)
      → WellFormed h
      → WellFormed (record h { sessions = erase id h.sessions })
  erase-WellFormed h id w id' q registered = elim (Bool-cases (bytes_eq id id')) [
    | inl same ↦ ground arith
    | inr other ↦ w id' q (rw other at registered)
  ]

  register-WellFormed :
      (h : Hub n) (s : Session n)
      → WellFormed h
      → WellFormed (register n (allocate_session n h s).0 h.next s)
  unfolding register allocate_session wake_waiters update
  register-WellFormed h s w id q registered = elim (Bool-cases (bytes_eq s.channel_id id)) [
    | inl same ↦
        let eq : h.next ≡ q = ground arith in
        let at_next : (h.next == q) ≡ true = ground arith in
        (omega arith, rw at_next (bytes_eq→eq s.channel_id id same))
    | inr other ↦
        let (lo, k) = w id q (rw other at registered) in
        let older : (h.next == q) ≡ false = ground arith in (omega arith, rw older k)
  ]

  on_session-WellFormed :
      (h : Hub n) (id : Uuid) (f : ℕ → Session n → Hub n)
      → WellFormed h
      → ((p : ℕ) (s : Session n) → h.heap p ≡ some s → WellFormed (f p s))
      → WellFormed (on_session n h id f)
  unfolding on_session
  on_session-WellFormed h id f w k = elim (Option-cases (h.sessions id)) [
    | inl e ↦ rw (e, on_session) w
    | inr (p, e) ↦ elim (Option-cases (h.heap p)) [
      | inl g ↦ rw (e, on_session, g) w
      | inr (s, g) ↦ rw (e, on_session, g) (k p s g)
    ]
  ]

  close_channel-WellFormed :
      (h : Hub n) (id : Uuid) → WellFormed h → WellFormed (close_channel n h id)
  unfolding close_channel finish
  close_channel-WellFormed h id w = on_session-WellFormed h id _ w (λ p s e.
      update-WellFormed (record h { sessions = erase id h.sessions }) p s _
        (erase-WellFormed h id w) e refl)

  deliver_sealed-WellFormed :
      (h : Hub n) (id : Uuid) (ct : Bytes) → WellFormed h → WellFormed (deliver_sealed n h id ct)
  unfolding deliver_sealed deliver
  deliver_sealed-WellFormed h id ct w =
      on_session-WellFormed h id _ w
        (λ p s e. update-WellFormed h p s _ w e (deliver-channel_id s ct))
    where
      deliver-channel_id :
          (s : Session n) (ct : Bytes) → (deliver n s ct).0.channel_id ≡ s.channel_id
      deliver-channel_id s ct =
          if_ind (λ (x : Session n × Delivered). x.0.channel_id ≡ s.channel_id) _ refl refl

  accept_new-WellFormed :
      (h : Hub n) (a : Answer (Session n)) → WellFormed h → WellFormed (accept_new n h a).0
  unfolding accept_new allocate_session
  accept_new-WellFormed h (given s) w = register-WellFormed h s w
  accept_new-WellFormed h (refused e) w = w

  accept_channel-WellFormed :
      (h : Hub n) (random : Bytes) (link : ℕ) (m : ChannelOpenMessage)
      → WellFormed h
      → WellFormed (accept_channel n h random link m).0
  unfolding accept_channel set_link
  accept_channel-WellFormed h random link m w = elim (Option-cases (h.sessions m.channel_id)) [
    | inl e ↦
        rw (e, accept_channel)
          (if_ind (λ (x : Hub n × List Message × Accepted). WellFormed x.0) m.resume w
            (accept_new-WellFormed h _ w))
    | inr (p, e) ↦
        rw (e, accept_channel)
          (on_session-WellFormed h m.channel_id _ w (λ q s g. update-WellFormed h q s _ w g refl))
  ]

  sent_open-WellFormed :
      (h : Hub n) (id : Uuid) (p : ℕ) (o : List Message × ℕ × Written)
      → WellFormed h
      → WellFormed (sent_open n h id p o).0
  unfolding sent_open
  sent_open-WellFormed h id p (out, now, written) w = w
  sent_open-WellFormed h id p (out, now, write_failed e) w = close_channel-WellFormed h id w
  sent_open-WellFormed h id p (out, now, out_of_fuel) w = w
  sent_open-WellFormed h id p (out, now, crashed) w = w

  open_new-WellFormed :
      (env : Environment) (h : Hub n) (now : ℕ) (a : Answer (Session n))
      → WellFormed h
      → WellFormed (open_new n env h now a).0
  unfolding open_new allocate_session
  open_new-WellFormed env h now (refused e) w = w
  open_new-WellFormed env h now (given s) w =
      sent_open-WellFormed _ _ _ _ (register-WellFormed h (record s { has_queue = true }) w)

  remove_session-WellFormed :
      (h : Hub n) (p : ℕ) (s : Session n) → WellFormed h → WellFormed (remove_session n h p s)
  unfolding remove_session
  remove_session-WellFormed h p s w =
      if_ind WellFormed (points_to (h.sessions s.channel_id) p) (erase-WellFormed h s.channel_id w)
        w

  at_pointer-WellFormed :
      (h : Hub n) (p : ℕ) (f : Session n → Hub n)
      → WellFormed h
      → ((s : Session n) → h.heap p ≡ some s → WellFormed (f s))
      → WellFormed (at_pointer n h p f)
  unfolding at_pointer
  at_pointer-WellFormed h p f w k = elim (Option-cases (h.heap p)) [
    | inl g ↦ rw (g, at_pointer) w
    | inr (s, g) ↦ rw (g, at_pointer) (k s g)
  ]

  open_round-WellFormed :
      (h : Hub n) (id : Uuid) (p : ℕ) (ev : OpenEvent)
      → WellFormed h
      → WellFormed (open_round n h id p ev).0
  unfolding open_round
  open_round-WellFormed h id p became_ready w = w
  open_round-WellFormed h id p became_done w = w
  open_round-WellFormed h id p timer_fired w = close_channel-WellFormed h id w
  open_round-WellFormed h id p (from_queue m) w = elim (Option-cases (as_refusal m)) [
    | inl e ↦ rw (e, open_round) w
    | inr (reason, e) ↦ rw (e, open_round) (close_channel-WellFormed h id w)
  ]

  hub_step-WellFormed : (h : Hub n) (op : HubOp n) → WellFormed h → WellFormed (hub_step n h op)
  unfolding hub_step open_channel await_channel await_timeout
  hub_step-WellFormed h (opens env random now link id) w = open_new-WellFormed env h now _ w
  hub_step-WellFormed h (open_waits id p ev) w = open_round-WellFormed h id p ev w
  hub_step-WellFormed h (accepts random link m) w = accept_channel-WellFormed h random link m w
  hub_step-WellFormed h (delivers id ct) w = deliver_sealed-WellFormed h id ct w
  hub_step-WellFormed h (closes id) w = close_channel-WellFormed h id w
  hub_step-WellFormed h (awaits id) w =
      if_ind (λ (x : Hub n × Option ℕ). WellFormed x.0) (has n h id) w w
  hub_step-WellFormed h (await_ends id v) w = w
  hub_step-WellFormed h (moves p s') w =
      at_pointer-WellFormed h p _ w (λ s g. update-WellFormed h p s _ w g refl)
  hub_step-WellFormed h (run_ends p) w =
      at_pointer-WellFormed h p _ w (λ s g. remove_session-WellFormed h p s w)

  run_hub-WellFormed :
      (h : Hub n) (ops : List (HubOp n)) → WellFormed h → WellFormed (run_hub n h ops)
  unfolding run_hub
  run_hub-WellFormed h [] w = w
  run_hub-WellFormed h (op ∷ ops) w =
      run_hub-WellFormed (hub_step n h op) ops (hub_step-WellFormed h op w)

  -- Removing a session leaves a newer one of its channel registered.
  remove_session-sessions :
      (h : Hub n) (id : Uuid) (p q : ℕ) (s : Session n)
      → WellFormed h
      → h.sessions id ≡ some q
      → h.heap p ≡ some s
      → (remove_session n h p s).sessions id ≡ (if p == q then none else some q)
  unfolding remove_session points_to
  remove_session-sessions h id p q s w registered held = elim (Bool-cases (p == q)) [
    | inl same ↦
        let eq : p ≡ q = ground arith in
        let k : Holds id (h.heap p) =
          subst (λ (r : ℕ). Holds id (h.heap r)) (sym eq) (w id q registered).1 in
        let c : s.channel_id ≡ id = subst (Holds id) held k in
        let back : (q == p) ≡ true = ground arith in
        let there : points_to (h.sessions s.channel_id) p ≡ true = rw (c, registered) back in
        let mine : bytes_eq s.channel_id id ≡ true = rw c (bytes_eq_refl id) in
        rw (same, there, mine) refl
    | inr other ↦
        let back : (q == p) ≡ false = ground arith in
        elim (Bool-cases (bytes_eq s.channel_id id)) [
          | inl e ↦
              let c : s.channel_id ≡ id = bytes_eq→eq s.channel_id id e in
              let elsewhere : points_to (h.sessions s.channel_id) p ≡ false =
                rw (c, registered) back in
              rw (other, elsewhere) registered
          | inr d ↦ rw other (
              if_ind (λ (h' : Hub n). h'.sessions id ≡ some q)
                (points_to (h.sessions s.channel_id) p) (rw d registered) registered)
        ]
  ]

  -- Whatever a hub does from its start on, a registered session exists and is a session of its
  -- channel, and the end of a session's `run` unregisters that session and no other one.
  pub hub-in_order :
      (writer : Option ℕ) (ops : List (HubOp n))
      → WellFormed (run_hub n (new_hub n writer) ops)
        × ((id : Uuid) (p q : ℕ) (s : Session n)
            → (run_hub n (new_hub n writer) ops).sessions id ≡ some q
            → (run_hub n (new_hub n writer) ops).heap p ≡ some s
            → (remove_session n (run_hub n (new_hub n writer) ops) p s).sessions id
              ≡ (if p == q then none else some q))
  unfolding new_hub
  hub-in_order writer ops =
      let h = run_hub n (new_hub n writer) ops in
      let w : WellFormed h = run_hub-WellFormed (new_hub n writer) ops (λ id p e. ground arith) in
      (w, λ id p q s. remove_session-sessions h id p q s w)
