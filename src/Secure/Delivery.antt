-- ===== src/Secure/Delivery.antt =====
-- The messages that one session of linksocks/secure_channel.go writes and the other dispatches.
use linksocks.Prelude.{
  ℕ, ◌≡◌, refl, sym, ap, true, Option, none, some, List, [], ◌∷◌, ◌++◌, Bytes, ◌∙◌, append_assoc,
  subst, Result, ok, err, panic, All, not, if_ind, ◌⊎◌, inl, inr, Option-cases, ◌+◌, wrapped,
}
use linksocks.Message.Types.{Uuid, Message, sealed, disconnect, DisconnectMessage}
use linksocks.Message.Packages.{Packages}
use linksocks.Message.Body.{parse_message_with_version}
use linksocks.Message.Pack.{pack_message_with_version}
use linksocks.Message.RoundTrip.{Fits, parse-pack}
use linksocks.Message.Version.{protocol_version_v2, protocol_major_supported}
use linksocks.Secure.Noise.{Noise, Answer, given, refused}
use linksocks.Secure.Grace.{
  Environment, Attempt, landed, down, broken, Written, written, write_failed, out_of_fuel, crashed,
  write_with_grace, write_with_grace-Ends, Ends,
}
use linksocks.Secure.Session.{
  Session, as_disconnect, Output, finish, on_wire, write_ciphertext, after_ciphertext,
  after_encrypt, write_packed, write_message, write_plain, parsed, decrypted, transport_frame,
  run_frames,
}
use linksocks.Secure.Agreement.{ciphertexts, sealed_payload, Paired}

ciphertexts-append : (x y : List Message) → ciphertexts (x ++ y) ≡ ciphertexts x ++ ciphertexts y
unfolding ciphertexts
ciphertexts-append [] y = refl
ciphertexts-append (m ∷ x) y =
    ap (λ (t : List Bytes). sealed_payload m ++ t) (ciphertexts-append x y)
    ∙ sym (append_assoc (sealed_payload m) (ciphertexts x) (ciphertexts y))

module _ (n : Noise) (packages : Packages) where
  abbrev pub reported : Message → Written → List Message
  reported m written = elim (as_disconnect m) [ some d ↦ [] | none ↦ m ∷ [] ]
  reported m w = []

  -- Writes one after the other, each from its own time on: the session after them, the messages
  -- on the link, and the sealed messages whose write reported success.
  unfoldable pub write_all :
      Environment → Session n → List (ℕ × Message) → Session n × List Message × List Message
  write_all env s [] = (s, [], [])
  write_all env s ((now, m) ∷ ms) =
      let o = write_message n packages env s now m in
      let rest = write_all env o.0 ms in (rest.0, o.1 ++ rest.1, reported m o.3 ++ rest.2)

  -- What one write does to a pair of sessions: nothing was sealed and the pair is intact or the
  -- writer is closed, or one frame was written that the peer decrypts and parses to the message.
  abbrev Step : Message → Session n → Output n → Type 0
  Step m r (s, out, now, w) =
      ((ciphertexts out ≡ []) × (reported m w ≡ []) × (Paired n s r ⊎ (s.closed ≡ true)))
      ⊎ ((ct : Bytes) × (r' : Session n) × (ciphertexts out ≡ ct ∷ [])
          × (reported m w ≡ m ∷ [])
          × (transport_frame n packages r ct ≡ (r', some m))
          × Paired n s r')

  frame-dispatched :
      (r : Session n) (d d' : n.Cipher) (ct text : Bytes) (m : Message) (version : ℕ)
      → r.recv ≡ some d
      → n.decrypt d ct ≡ (d', given text)
      → parse_message_with_version packages text ≡ (ok m, version)
      → transport_frame n packages r ct ≡ (record r { recv = some d' }, some m)
  unfolding transport_frame decrypted parsed
  frame-dispatched r d d' ct text m version e f g = rw e (rw f (rw g refl))

  on_wire-Step :
      (s r r' : Session n) (m : Message) (id : Uuid) (ct : Bytes) (w : ℕ × Written)
      → Ends w.1
      → as_disconnect m ≡ none
      → transport_frame n packages r ct ≡ (r', some m)
      → Paired n s r'
      → Step m r
          (after_ciphertext n s (on_wire n (sealed (record { channel_id = id; payload = ct })) w))
  unfolding after_ciphertext on_wire finish ciphertexts sealed_payload
  on_wire-Step s r r' m id ct (now, written) ends d e p =
      inr (ct, r', refl, rw (d, reported) refl, e, p)
  on_wire-Step s r r' m id ct (now, write_failed f) ends d e p = inl (refl, refl, inr refl)
  on_wire-Step s r r' m id ct (now, out_of_fuel) ends d e p = absurd ends
  on_wire-Step s r r' m id ct (now, crashed) ends d e p = absurd ends

  after_encrypt-Step :
      (env : Environment) (s r : Session n) (now : ℕ) (m : Message) (c d : n.Cipher) (text : Bytes)
      (version : ℕ) (a : n.Cipher × Answer Bytes)
      → n.encrypt c text ≡ a
      → as_disconnect m ≡ none
      → parse_message_with_version packages text ≡ (ok m, version)
      → r.recv ≡ some d
      → n.InStep c d
      → Step m r (after_encrypt n env s now a)
  unfolding after_encrypt write_ciphertext ciphertexts
  after_encrypt-Step env s r now m c d text version (c', given ct) e plain parses recv step =
      let (d', decrypts, step') = n.decrypt-encrypt c d c' text ct step e in
      on_wire-Step (record s { send = some c' }) r (record r { recv = some d' }) m s.channel_id ct
        (write_with_grace env now) (write_with_grace-Ends env now) plain
        (frame-dispatched r d d' ct text m version recv decrypts parses) (c', d', refl, refl, step')
  after_encrypt-Step env s r now m c d text version (c', refused f) e plain parses recv step =
      inl (refl, refl, inl (c', d, refl, recv, n.encrypt-refused c d c' text f step e))

  write_packed-Step :
      (env : Environment) (s r : Session n) (now : ℕ) (m : Message) (text : Bytes) (version : ℕ)
      → as_disconnect m ≡ none
      → parse_message_with_version packages text ≡ (ok m, version)
      → Paired n s r
      → Step m r (write_packed n env s now (ok text))
  unfolding write_packed ciphertexts
  write_packed-Step env s r now m text version plain parses (c, d, send, recv, step) =
      let intact : Paired n s r = (c, d, send, recv, step) in
      if_ind (Step m r) s.closed (inl (refl, refl, inl intact)) (
        if_ind (Step m r) (not s.established) (inl (refl, refl, inl intact)) (
          rw send (
            after_encrypt-Step env s r now m c d text version (n.encrypt c text) refl plain parses
              recv step)))

  attempt-Step :
      (env : Environment) (s r : Session n) (now : ℕ) (m : Message) (d : DisconnectMessage)
      → as_disconnect m ≡ some d
      → Paired n s r
      → Step m r (write_plain n env s now (disconnect d))
  unfolding write_plain ciphertexts sealed_payload
  attempt-Step env s r now m d e p = by (env.attempt now)
    where
      by :
          (a : Attempt)
          → Step m r (elim a [
            | landed ↦ (s, disconnect d ∷ [], now + env.took now, written)
            | down f ↦ (s, [], now + env.took now, write_failed (wrapped "transport down" f))
            | broken f ↦ (s, [], now + env.took now, write_failed f)
          ])
      by landed = inl (refl, rw (e, reported) refl, inl p)
      by (down f) = inl (refl, refl, inl p)
      by (broken f) = inl (refl, refl, inl p)

  write_message-sealed :
      (env : Environment) (s : Session n) (now : ℕ) (m : Message) (text : Result Bytes)
      → as_disconnect m ≡ none
      → pack_message_with_version packages m protocol_version_v2 ≡ text
      → write_message n packages env s now m ≡ write_packed n env s now text
  unfolding write_message
  write_message-sealed env s now m text e packs = rw (e, write_message) (rw packs refl)

  write_message-disconnect :
      (env : Environment) (s : Session n) (now : ℕ) (m : Message) (d : DisconnectMessage)
      → as_disconnect m ≡ some d
      → write_message n packages env s now m ≡ write_plain n env s now (disconnect d)
  unfolding write_message
  write_message-disconnect env s now m d e = rw (e, write_message) refl

  write_message-Step :
      (env : Environment) (s r : Session n) (now : ℕ) (m : Message)
      → Fits packages m
      → Paired n s r
      → Step m r (write_message n packages env s now m)
  unfolding protocol_major_supported
  write_message-Step env s r now m h p = elim (Option-cases (as_disconnect m)) [
    | inl e ↦
        let (text, packs, parses) = parse-pack packages m protocol_version_v2 h refl in
        subst (Step m r) (sym (write_message-sealed env s now m (ok text) e packs))
          (write_packed-Step env s r now m text protocol_version_v2 e parses p)
    | inr (d, e) ↦
        subst (Step m r) (sym (write_message-disconnect env s now m d e))
          (attempt-Step env s r now m d e p)
  ]

  -- A session that is closed seals nothing more.
  abbrev Silent : Message → Output n → Type 0
  Silent m o = (ciphertexts o.1 ≡ []) × (reported m o.3 ≡ []) × (o.0.closed ≡ true)

  write_packed-Silent :
      (env : Environment) (s : Session n) (now : ℕ) (m : Message) (text : Result Bytes)
      → s.closed ≡ true
      → Silent m (write_packed n env s now text)
  unfolding write_packed ciphertexts
  write_packed-Silent env s now m (ok text) e = simp e (refl, refl, refl)
  write_packed-Silent env s now m (err f) e = (refl, refl, e)
  write_packed-Silent env s now m panic e = (refl, refl, e)

  write_plain-Silent :
      (env : Environment) (s : Session n) (now : ℕ) (m : Message) (d : DisconnectMessage)
      → as_disconnect m ≡ some d
      → s.closed ≡ true
      → Silent m (write_plain n env s now (disconnect d))
  unfolding write_plain ciphertexts sealed_payload
  write_plain-Silent env s now m d e c = by (env.attempt now)
    where
      by :
          (a : Attempt)
          → Silent m (elim a [
            | landed ↦ (s, disconnect d ∷ [], now + env.took now, written)
            | down f ↦ (s, [], now + env.took now, write_failed (wrapped "transport down" f))
            | broken f ↦ (s, [], now + env.took now, write_failed f)
          ])
      by landed = (refl, rw (e, reported) refl, c)
      by (down f) = (refl, refl, c)
      by (broken f) = (refl, refl, c)

  write_message-Silent :
      (env : Environment) (s : Session n) (now : ℕ) (m : Message)
      → s.closed ≡ true
      → Silent m (write_message n packages env s now m)
  write_message-Silent env s now m c = elim (Option-cases (as_disconnect m)) [
    | inl e ↦ subst (Silent m) (sym (write_message-sealed env s now m _ e refl)) (
        write_packed-Silent env s now m (pack_message_with_version packages m protocol_version_v2)
          c)
    | inr (d, e) ↦
        subst (Silent m) (sym (write_message-disconnect env s now m d e))
          (write_plain-Silent env s now m d e c)
  ]

  write_all-closed :
      (env : Environment) (s : Session n) (ms : List (ℕ × Message))
      → s.closed ≡ true
      → (ciphertexts (write_all env s ms).1 ≡ []) × ((write_all env s ms).2 ≡ [])
  unfolding write_all ciphertexts
  write_all-closed env s [] c = (refl, refl)
  write_all-closed env s ((now, m) ∷ ms) c =
      let o = write_message n packages env s now m in
      let (e, f, c') = write_message-Silent env s now m c in
      let (g, h) = write_all-closed env o.0 ms c' in
      (ciphertexts-append o.1 (write_all env o.0 ms).1 ∙ rw (e, g) refl, rw (f, h) refl)

  run_frames-write :
      (o : Output n) (m : Message) (r : Session n) (outs done : List Message)
      → Step m r o
      → ((r' : Session n)
          → Paired n o.0 r'
          → (run_frames n packages r' (ciphertexts outs)).1 ≡ done)
      → (o.0.closed ≡ true → (ciphertexts outs ≡ []) × (done ≡ []))
      → (run_frames n packages r (ciphertexts (o.1 ++ outs))).1 ≡ reported m o.3 ++ done
  unfolding run_frames
  run_frames-write o m r outs done (inl (e, f, inl p)) ih closed =
      rw (ciphertexts-append o.1 outs, e, f) (ih r p)
  run_frames-write o m r outs done (inl (e, f, inr c)) ih closed =
      rw (ciphertexts-append o.1 outs, e, f, (closed c).0, (closed c).1) refl
  run_frames-write o m r outs done (inr (ct, r', e, f, t, p)) ih closed =
      rw (ciphertexts-append o.1 outs, e, f)
        (rw (ap (λ (x : Session n × Option Message). x.1) t, run_frames)
          (rw (ap (λ (x : Session n × Option Message). x.0) t)
            (ap (λ (l : List Message). m ∷ l) (ih r' p))))

  -- The messages that are dispatched are the ones whose write reported success.
  pub write_all-dispatched :
      (env : Environment) (s r : Session n) (ms : List (ℕ × Message))
      → Paired n s r
      → All (λ m. Fits packages m.1) ms
      → (run_frames n packages r (ciphertexts (write_all env s ms).1)).1 ≡ (write_all env s ms).2
  unfolding write_all run_frames ciphertexts
  write_all-dispatched env s r [] p h = refl
  write_all-dispatched env s r ((now, m) ∷ ms) p (fits, h) =
      let o = write_message n packages env s now m in
      run_frames-write o m r (write_all env o.0 ms).1 (write_all env o.0 ms).2
        (write_message-Step env s r now m fits p) (λ r' p'. write_all-dispatched env o.0 r' ms p' h)
        (write_all-closed env o.0 ms)
