-- ===== src/Secure/Agreement.antt =====
-- The handshake of linksocks/secure_channel.go between two sessions, over a link that may drop.
use linksocks.Prelude.{
  ℕ, ◌≡◌, refl, ap, Bool, true, false, Option, none, some, List, [], ◌∷◌, ◌++◌, Bytes, ◌∙◌, subst,
  arith, String,
}
use linksocks.Message.Types.{Uuid, Message, sealed}
use linksocks.Secure.Noise.{Noise, Answer, given, refused}
use linksocks.Secure.Grace.{Environment, Written, written, write_with_grace}
use linksocks.Secure.Session.{
  Session, awaiting_first, awaiting_second, awaiting_third, transport, deliver, Output,
  install_ciphers, write_ciphertext, on_wire,
}
use linksocks.Secure.Handshake.{
  Onward, fresh, with_state, with_keypair, new_session, establish, frame_came, await_frame,
  after_flight, fly, flight, begin, onward_from, on_read, on_awaited, wake,
}

unfoldable pub sealed_payload : Message → List Bytes
sealed_payload (sealed m) = m.payload ∷ []
sealed_payload m = []

-- The ciphertexts among the messages on a link.
unfoldable pub ciphertexts : List Message → List Bytes
ciphertexts [] = []
ciphertexts (m ∷ ms) = sealed_payload m ++ ciphertexts ms

module _ (n : Noise) where
  -- What one of two sessions seals the other one can decrypt.
  abbrev pub Paired : Session n → Session n → Type 0
  Paired s r =
      (c : n.Cipher) × (d : n.Cipher) × (s.send ≡ some c) × (r.recv ≡ some d) × n.InStep c d

  unfoldable pub deliver_all : Session n → List Bytes → Session n
  deliver_all s [] = s
  deliver_all s (ct ∷ cts) = deliver_all (deliver n s ct).0 cts

  -- The frames of one session reach the other one, which is woken.
  unfoldable pub woken_by : Environment → Output n → Session n → Option (Output n)
  woken_by env o r = wake n env o.2 (deliver_all r (ciphertexts o.1)) frame_came

  unfoldable pub last_flight : Environment → Output n → Output n → Option (Session n × Session n)
  last_flight env a r = elim (woken_by env a r.0) [ none ↦ none | some b ↦ some (a.0, b.0) ]

  unfoldable pub second_flight : Environment → Session n → Output n → Option (Session n × Session n)
  second_flight env i r = elim (woken_by env r i) [ none ↦ none | some a ↦ last_flight env a r ]

  unfoldable pub first_flight : Environment → Output n → Output n → Option (Session n × Session n)
  first_flight env a r = elim (woken_by env a r.0) [
    | none ↦ none
    | some b ↦ second_flight env a.0 b
  ]

  -- The two sessions run their handshakes, and each message reaches the other side.
  unfoldable pub exchange : Environment → ℕ → Session n → Session n → Option (Session n × Session n)
  exchange env now i r = first_flight env (begin n env now i) (begin n env now r)

  new_session-inv :
      (random : Bytes) (link : ℕ) (id : Uuid) (b : Bool) (s : Session n)
      → new_session n random link id b ≡ given s
      → (k : Bytes) × (hs : n.Handshake) × (n.new_handshake_state b k ≡ given hs)
        × (fresh n link id b hs ≡ s)
  unfolding new_session with_keypair with_state
  new_session-inv random link id b s h = by-keypair (n.generate_keypair random) h
    where
      by-state :
          (k : Bytes) (a : Answer n.Handshake)
          → n.new_handshake_state b k ≡ a
          → with_state n link id b a ≡ given s
          → (k : Bytes) × (hs : n.Handshake) × (n.new_handshake_state b k ≡ given hs)
            × (fresh n link id b hs ≡ s)
      by-state k (given hs) e h = (k, hs, e, ground arith)
      by-state k (refused e') e h = ground arith

      by-keypair :
          (a : Answer Bytes)
          → with_keypair n link id b a ≡ given s
          → (k : Bytes) × (hs : n.Handshake) × (n.new_handshake_state b k ≡ given hs)
            × (fresh n link id b hs ≡ s)
      by-keypair (given k) h = by-state k (n.new_handshake_state b k) refl h
      by-keypair (refused e) h = ground arith

  lands :
      (env : Environment) (now : ℕ)
      → (write_with_grace env now).1 ≡ written
      → (t : ℕ) × (write_with_grace env now ≡ (t, written))
  lands env now h = by (write_with_grace env now) h
    where
      by : (w : ℕ × Written) → w.1 ≡ written → (t : ℕ) × (w ≡ (t, written))
      by (t, w) h = (t, rw h refl)

  flight-lands :
      (env : Environment) (now t : ℕ) (step : String) (onward : Onward n) (s : Session n)
      (hs : n.Handshake) (m : Bytes) (cs : Option (n.Cipher × n.Cipher))
      → n.write_message s.hs ≡ (hs, given (m, cs))
      → write_with_grace env now ≡ (t, written)
      → flight n env now step onward s ≡ (
        onward (record s { hs = hs }) cs,
        sealed (record { channel_id = s.channel_id; payload = m }) ∷ [],
        t,
        written,
      )
  unfolding flight fly after_flight write_ciphertext on_wire
  flight-lands env now t step onward s hs m cs e w = rw e (rw w refl)

  -- A waiting session with nothing buffered is woken by one frame, which it reads.
  woken_by-reads :
      (env : Environment) (s r : Session n) (id : Uuid) (m : Bytes) (t : ℕ) (hs : n.Handshake)
      (cs : Option (n.Cipher × n.Cipher))
      → r.inbound ≡ []
      → n.read_message r.hs m ≡ (hs, given cs)
      → woken_by env (s, sealed (record { channel_id = id; payload = m }) ∷ [], t, written) r
        ≡ some (onward_from n env t r.phase (record r { hs = hs; inbound = [] }) cs)
  unfolding woken_by wake deliver_all deliver await_frame on_awaited on_read ciphertexts
      sealed_payload
  woken_by-reads env s r id m t hs cs empty e = rw empty (rw e refl)

  exchange-steps :
      (env : Environment) (now : ℕ) (i r : Session n) (a r1 b c d : Output n)
      → begin n env now i ≡ a
      → begin n env now r ≡ r1
      → woken_by env a r1.0 ≡ some b
      → woken_by env b a.0 ≡ some c
      → woken_by env c b.0 ≡ some d
      → exchange env now i r ≡ some (c.0, d.0)
  unfolding exchange first_flight second_flight last_flight
  exchange-steps env now i r a r1 b c d e f g h k =
      rw (e, f) (rw (g, first_flight) (rw (h, second_flight) (rw (k, last_flight) refl)))

  -- The pair of sessions that the flights of one handshake leave.
  exchange-flights :
      (env : Environment) (now t1 t2 t3 link_i link_r : ℕ) (id : Uuid)
      (hi i1 i2 i3 hr r1 r2 r3 : n.Handshake) (m1 m2 m3 : Bytes) (a b a' b' : n.Cipher)
      → n.write_message hi ≡ (i1, given (m1, none))
      → n.read_message hr m1 ≡ (r1, given none)
      → n.write_message r1 ≡ (r2, given (m2, none))
      → n.read_message i1 m2 ≡ (i2, given none)
      → n.write_message i2 ≡ (i3, given (m3, some (a, b)))
      → n.read_message r2 m3 ≡ (r3, given (some (a', b')))
      → write_with_grace env now ≡ (t1, written)
      → write_with_grace env t1 ≡ (t2, written)
      → write_with_grace env t2 ≡ (t3, written)
      → exchange env now (fresh n link_i id true hi) (fresh n link_r id false hr)
        ≡ some (
          establish n (install_ciphers n (fresh n link_i id true i3) (some (a, b))),
          establish n (install_ciphers n (fresh n link_r id false r3) (some (a', b'))),
        )
  unfolding exchange begin onward_from establish install_ciphers second_flight last_flight fresh
  exchange-flights env now t1 t2 t3 link_i link_r id hi i1 i2 i3 hr r1 r2 r3 m1 m2 m3 a b a' b'
        write1 read1 write2 read2 write3 read3 w1 w2 w3 =
      let si : Session n = fresh n link_i id true hi in
      let sr : Session n = fresh n link_r id false hr in
      let si1 : Session n = record si { hs = i1; phase = awaiting_second } in
      let sr1 : Session n = record sr { phase = awaiting_first } in
      let sr2 : Session n = record sr { hs = r2; phase = awaiting_third } in
      let frame : Bytes → List Message =
        λ m. sealed (record { channel_id = id; payload = m }) ∷ [] in
      let i' : Session n =
        establish n (install_ciphers n (fresh n link_i id true i3) (some (a, b))) in
      let r' : Session n =
        establish n (install_ciphers n (fresh n link_r id false r3) (some (a', b'))) in
      exchange-steps env now si sr (si1, frame m1, t1, written) (sr1, [], now, written)
        (sr2, frame m2, t2, written) (i', frame m3, t3, written) (r', [], t3, written)
        (flight-lands env now t1 _ _ si i1 m1 none write1 w1) refl
        (woken_by-reads env si1 sr1 id m1 t1 r1 none refl read1
          ∙ ap (λ (o : Output n). some o)
              (flight-lands env t1 t2 _ _ (record sr1 { hs = r1 }) r2 m2 none write2 w2))
        (woken_by-reads env sr2 si1 id m2 t2 i2 none refl read2
          ∙ ap (λ (o : Output n). some o)
              (flight-lands env t2 t3 _ _ (record si1 { hs = i2 }) i3 m3 (some (a, b)) write3 w3))
        (woken_by-reads env i' sr2 id m3 t3 r3 (some (a', b')) refl read3)

  pub handshake-Paired :
      (env : Environment) (now link_i link_r : ℕ) (p q : Bytes) (id : Uuid) (i r : Session n)
      → ((t : ℕ) → (write_with_grace env t).1 ≡ written)
      → new_session n p link_i id true ≡ given i
      → new_session n q link_r id false ≡ given r
      → (i' : Session n) × (r' : Session n) × (exchange env now i r ≡ some (i', r'))
        × Paired i' r'
        × Paired r' i'
        × (i'.established ≡ true)
        × (r'.established ≡ true)
        × (i'.phase ≡ transport)
        × (r'.phase ≡ transport)
  unfolding fresh establish install_ciphers
  handshake-Paired env now link_i link_r p q id i r writes opened accepted =
      let (k, hi, made_i, is_i) = new_session-inv p link_i id true i opened in
      let (l, hr, made_r, is_r) = new_session-inv q link_r id false r accepted in
      let (
        i1,
        i2,
        i3,
        r1,
        r2,
        r3,
        m1,
        m2,
        m3,
        a,
        b,
        a',
        b',
        write1,
        read1,
        write2,
        read2,
        write3,
        read3,
        (step_a, step_b),
      ) =
        n.xx_completes k l hi hr made_i made_r in
      let (t1, w1) = lands env now (writes now) in
      let (t2, w2) = lands env t1 (writes t1) in
      let (t3, w3) = lands env t2 (writes t2) in
      let i' : Session n = record (fresh n link_i id true i3) {
        send = some a;
        recv = some b;
        established = true;
        ready = true;
        phase = transport;
      } in
      let r' : Session n = record (fresh n link_r id false r3) {
        send = some b';
        recv = some a';
        established = true;
        ready = true;
        phase = transport;
      } in
      (
        i',
        r',
        subst (λ (x : Session n). exchange env now x r ≡ some (i', r')) is_i
            (subst
              (λ (y : Session n). exchange env now (fresh n link_i id true hi) y ≡ some (i', r'))
              is_r
              (exchange-flights env now t1 t2 t3 link_i link_r id hi i1 i2 i3 hr r1 r2 r3 m1 m2 m3 a
                b a' b' write1 read1 write2 read2 write3 read3 w1 w2 w3)),
        (a, a', refl, refl, step_a),
        (b', b, refl, refl, step_b),
        refl,
        refl,
        refl,
        refl,
      )
