-- ===== src/Relay/Settling.antt =====
-- `writeWithTransportGrace` of linksocks/relay.go ends.
use linksocks.Prelude.{
  ℕ, zero, suc, ◌+◌, ◌*◌, ◌/◌, ◌<◌, ◌≤◌, ◌≡◌, inl, inr, refl, sym, ap, ◌∙◌, true, not, ◌||◌, Option,
  none, some, ◌==◌, arith, Bool-cases, Option-cases,
}
use linksocks.Channel.State.{Channel, Network}
use linksocks.Channel.Sending.{Outcome, write_message}
use linksocks.Channel.Receiving.{suspend, resume, suspended}
use linksocks.Channel.Grace.{suspend-again, suspend-first}
use linksocks.Channel.Suspension.{write_message-HoldsSince, suspend-late}
use linksocks.Message.Types.{Message}
use linksocks.Relay.Grace.{
  Surroundings, GraceOutcome, is_transport_down, transport_round, transport_loop,
  write_with_transport_grace, Settles, IsPast, IsSane, IsCalm,
}

transport_round-Settles :
    (env : Surroundings) (after : ℕ) (o : Outcome) (again : Channel → GraceOutcome)
    → ((suspend (env.others after o.0) after env.grace).1 ≡ true
        → Settles env
            (again (env.others (after + 200) (suspend (env.others after o.0) after env.grace).0)))
    → Settles env (transport_round env after o again)
unfolding transport_round resume suspended
transport_round-Settles env after (c1, n, none) again more = refl
transport_round-Settles env after (c1, n, some e) again more =
    elim (Bool-cases (not (is_transport_down e) || (env.grace == 0))) [
      | inl other ↦ elim (Bool-cases (is_transport_down e)) [
        | inr f ↦ ground (arith, other, f)
        | inl f ↦ rw other (inr (inr (inl (ground (arith, other, f)))))
      ]
      | inr link ↦ elim (Bool-cases (suspend (env.others after c1) after env.grace).1) [
        | inr late ↦
            let (since, (held, gone)) = suspend-late (env.others after c1) after env.grace late in
            rw (link, late) (inr (inr (inr (since, (held, gone)))))
        | inl lasts ↦ elim (Bool-cases (env.ended after)) [
          | inl over ↦ rw (link, lasts, over) (inl (refl, refl))
          | inr still ↦ rw (link, lasts, still) (more lasts)
        ]
      ]
    ]

-- One round of the loop settles if the rounds behind it do, whatever the channel then is.
transport_loop-round :
    (env : Surroundings) (m : Message) (fuel : ℕ) (c : Channel) (n : Network) (now : ℕ)
    → ((c2 : Channel) (n' : Network)
        → c2 ≡ env.others (now + env.took now) (write_message env.up c n (some m)).0
        → (suspend c2 (now + env.took now) env.grace).1 ≡ true
        → Settles env (
            transport_loop env m fuel
              (env.others (now + env.took now + 200) (suspend c2 (now + env.took now) env.grace).0)
              n'
              (now + env.took now + 200)))
    → Settles env (transport_loop env m (suc fuel) c n now)
unfolding transport_loop
transport_loop-round env m fuel c n now more =
    transport_round-Settles env (now + env.took now) (write_message env.up c n (some m)) _
      (λ lasts. more _ (write_message env.up c n (some m)).1 refl lasts)

-- The suspension after a write, when the others leave it alone.
calm-suspend_since :
    (env : Surroundings) (m : Message) (calm : ℕ) (c : Channel) (n : Network) (now : ℕ)
    (x : Option ℕ) (c2 : Channel)
    → IsCalm env calm
    → calm ≤ now
    → c.suspend_since ≡ x
    → c2 ≡ env.others (now + env.took now) (write_message env.up c n (some m)).0
    → c2.suspend_since ≡ x
calm-suspend_since env m calm c n now x c2 quiet late e same =
    ap (λ (y : Channel). y.suspend_since) same
    ∙ (quiet (now + env.took now) (write_message env.up c n (some m)).0 (omega (arith, late))
        ∙ (write_message-HoldsSince env.up c n m ∙ e))

-- Once the others leave a suspended channel alone, the window runs out.
transport_loop-held :
    (env : Surroundings) (m : Message) (calm since left : ℕ) (c : Channel) (n : Network) (now : ℕ)
    → IsCalm env calm
    → calm ≤ now
    → c.suspend_since ≡ some since
    → since + env.grace < now + 200 * left
    → Settles env (transport_loop env m (suc left) c n now)
transport_loop-held env m calm since zero c n now quiet late e h =
    transport_loop-round env m zero c n now (λ c2 n' same lasts.
      let after = now + env.took now in
      let again =
        suspend-again c2 since after env.grace
          (calm-suspend_since env m calm c n now (some since) c2 quiet late e same) in
      absurd (ground (arith, lasts, again, h)))
transport_loop-held env m calm since (suc left) c n now quiet late e h =
    transport_loop-round env m (suc left) c n now (λ c2 n' same lasts.
      let after = now + env.took now in
      let held = calm-suspend_since env m calm c n now (some since) c2 quiet late e same in
      let kept : (suspend c2 after env.grace).0.suspend_since ≡ some since =
        rw (suspend-again c2 since after env.grace held) held in
      transport_loop-held env m calm since left
        (env.others (after + 200) (suspend c2 after env.grace).0) n' (after + 200) quiet
        (omega (arith, late))
        (quiet (after + 200) (suspend c2 after env.grace).0 (omega (arith, late)) ∙ kept)
        (omega (arith, h)))

-- From the time on at which the others leave the suspension alone.
transport_loop-calm :
    (env : Surroundings) (m : Message) (calm left : ℕ) (c : Channel) (n : Network) (now : ℕ)
    → IsCalm env calm
    → calm ≤ now
    → IsPast now c
    → env.grace < 200 * left
    → Settles env (transport_loop env m (suc (suc left)) c n now)
transport_loop-calm env m calm left c n now quiet late past h =
    elim (Option-cases c.suspend_since) [
      | inr (since, e) ↦
          transport_loop-held env m calm since (suc left) c n now quiet late e
            (omega (arith, past since e, h))
      | inl e ↦ transport_loop-round env m (suc left) c n now (λ c2 n' same lasts.
          let after = now + env.took now in
          let unheld = calm-suspend_since env m calm c n now none c2 quiet late e same in
          let kept : (suspend c2 after env.grace).0.suspend_since ≡ some after =
            rw (suspend-first c2 after env.grace unheld) refl in
          transport_loop-held env m calm after left
            (env.others (after + 200) (suspend c2 after env.grace).0) n' (after + 200) quiet
            (omega (arith, late))
            (quiet (after + 200) (suspend c2 after env.grace).0 (omega (arith, late)) ∙ kept)
            (omega (arith, h)))
    ]

later-IsPast : (t u : ℕ) (c : Channel) → t ≤ u → IsPast t c → IsPast u c
later-IsPast t u c h past since e = omega (arith, past since e, h)

suspend-IsPast : (c : Channel) (now grace : ℕ) → IsPast now c → IsPast now (suspend c now grace).0
suspend-IsPast c now grace past since e = elim (Option-cases c.suspend_since) [
  | inl none_yet ↦ ground (arith, e, suspend-first c now grace none_yet)
  | inr (first, held) ↦
      ground (arith, e, suspend-again c first now grace held, past first held, held)
]

-- Up to that time a suspension may begin anew in every round.
transport_loop-Settles :
    (env : Surroundings) (m : Message) (calm left rounds : ℕ) (c : Channel) (n : Network) (now : ℕ)
    → IsSane env
    → IsCalm env calm
    → IsPast now c
    → env.grace < 200 * left
    → calm ≤ now + 200 * rounds
    → Settles env (transport_loop env m (rounds + suc (suc left)) c n now)
transport_loop-Settles env m calm left zero c n now sane quiet past h k =
    let fuel : zero + suc (suc left) ≡ suc (suc left) = omega arith in
    rw fuel (transport_loop-calm env m calm left c n now quiet (omega (arith, k)) past h)
transport_loop-Settles env m calm left (suc rounds) c n now sane quiet past h k =
    let fuel : suc rounds + suc (suc left) ≡ suc (rounds + suc (suc left)) = omega arith in
    rw fuel (
      transport_loop-round env m (rounds + suc (suc left)) c n now (λ c2 n' same lasts.
        let after = now + env.took now in
        let written_at : IsPast after (write_message env.up c n (some m)).0 =
          λ since e. omega (arith, past since (sym (write_message-HoldsSince env.up c n m) ∙ e)) in
        let then_at : IsPast after c2 =
          rw same (sane after (write_message env.up c n (some m)).0 written_at) in
        transport_loop-Settles env m calm left rounds
          (env.others (after + 200) (suspend c2 after env.grace).0) n' (after + 200) sane quiet
          (sane (after + 200) (suspend c2 after env.grace).0 (
            later-IsPast after (after + 200) (suspend c2 after env.grace).0 (omega arith)
              (suspend-IsPast c2 after env.grace then_at)))
          h (omega (arith, k))))

-- A write on a channel whose suspension other goroutines leave alone from some time on ends, whatever
-- its link does and whatever they did before: the fuel of one round for each 200 milliseconds up to
-- that time, one for each 200 milliseconds of the grace window, and four more is enough. It ends with
-- the data landed and the channel not suspended, or with an error: the context ended, the link was
-- not the reason, there is no window, or the channel is suspended for longer than the window.
pub write_with_transport_grace-Settles :
    (env : Surroundings) (calm : ℕ) (m : Message) (c : Channel) (n : Network) (now : ℕ)
    → IsSane env
    → IsCalm env calm
    → IsPast now c
    → Settles env (write_with_transport_grace env calm m c n now)
unfolding write_with_transport_grace
write_with_transport_grace-Settles env calm m c n now sane quiet past =
    transport_loop-Settles env m calm (env.grace / 200 + 1) (suc (calm / 200)) c n now sane quiet
      past (omega arith) (omega arith)
