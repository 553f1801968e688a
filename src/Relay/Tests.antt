-- ===== src/Relay/Tests.antt =====
-- Concrete arrivals, credentials and dialogues.
use linksocks.Prelude.{
  if_ind, ltb, if◌then◌else◌, false, Option, ok, err, plain, index, slice, read_full, true, ℕ, ◌*◌,
  ◌/◌, ◌+◌, ◌-◌, ◌≡◌, refl, none, some, List, [], ◌∷◌, ◌++◌, length, take, false, Bytes, All, arith,
}
use linksocks.Prelude.ByteOrder.{IsByte, codes, bytes_eq}
use linksocks.Message.Types.{DataMessage, Uuid, data_message}
use linksocks.Relay.Orphans.{no_buffers, flush_orphan_data}
use linksocks.Relay.Arrivals.{Event, arrives, expires, run, waiting, flush_orphan_data-in_order}
use linksocks.Relay.Entry.{
  Target, accept_socks, read_request, has_method, read_methods, authenticate, require_credentials,
  read_credentials, read_counted, read_open_request, read_target, read_ip,
}
use linksocks.Relay.Upstream.{dial_via_socks5}
use linksocks.Relay.Credentials.{greeting_bytes, credential_bytes, accept_socks-Authenticated}
use linksocks.Relay.Reading.{target_of}
use linksocks.Relay.Dialogue.{granted, dial_via_socks5-accept_socks}
use linksocks.Channel.State.{Channel, Network, direct}
use linksocks.Channel.Receiving.{resume}
use linksocks.Relay.Grace.{
  Surroundings, Settles, IsPast, IsSane, IsCalm, write_with_transport_grace,
}
use linksocks.Relay.Settling.{write_with_transport_grace-Settles}
use linksocks.Relay.Base64.{base64_encode}
use linksocks.Relay.Decoding.{base64_decode, base64_decode-base64_encode}

abbrev early : Uuid → ℕ → DataMessage
early id byte = record {
  protocol = "tcp";
  channel_id = id;
  payload = byte ∷ [];
  compression = 0;
  address = [];
  port = 0;
  target_addr = [];
  target_port = 0;
  sequence = 1;
}

abbrev busy : Uuid
busy = 1 ∷ []

abbrev other : Uuid
other = 2 ∷ []

abbrev happened : List Event
happened =
    arrives (early busy 65)
    ∷ expires busy
    ∷ arrives (early busy 66)
    ∷ arrives (early other 67)
    ∷ arrives (early busy 68)
    ∷ []

flush_orphan_data-in_order_example :
    ((flush_orphan_data (run no_buffers happened) busy 1000 []).1
      ≡ [] ++ take (1000 - 0) (take 1000 (waiting busy [] happened)))
    × (((flush_orphan_data (run no_buffers happened) busy 1000 []).0 busy ≡ none)
        × (bytes_eq busy other ≡ false
            → (flush_orphan_data (run no_buffers happened) busy 1000 []).0 other
              ≡ run no_buffers happened other))
flush_orphan_data-in_order_example =
    flush_orphan_data-in_order happened busy other 1000 [] (omega arith)

waits : waiting busy [] happened ≡ early busy 66 ∷ early busy 68 ∷ []
unfolding waiting
waits = refl

abbrev credentials : Bytes
credentials = codes "user:pass"

credentials-IsByte : All IsByte credentials
credentials-IsByte = ground arith

base64_decode-base64_encode_example :
    (base64_decode (base64_encode credentials) ≡ some credentials)
    × (length (base64_encode credentials) ≡ (length credentials + 2) / 3 * 4)
base64_decode-base64_encode_example = base64_decode-base64_encode credentials credentials-IsByte

encodes : base64_encode (codes "user:pass1") ≡ codes "dXNlcjpwYXNzMQ=="
unfolding base64_encode
encodes = refl

abbrev user : Bytes
user = codes "user"

abbrev pass : Bytes
pass = codes "pass"

abbrev host_name : Bytes
host_name = codes "example.org"

-- Every host is taken for a name.
abbrev no_ip : Bytes → Option Bytes
no_ip host = none

abbrev as_bytes : Bytes → Bytes
as_bytes ip = ip

abbrev bound_anywhere : Bytes
bound_anywhere = 0 ∷ 0 ∷ 0 ∷ 0 ∷ 0 ∷ 0 ∷ []

dial_via_socks5-accept_socks_example :
    let client =
      dial_via_socks5 no_ip user pass host_name 443
        ((5 ∷ 2 ∷ 1 ∷ 0 ∷ []) ++ granted bound_anywhere (7 ∷ [])) in
    (client.1 ≡ ok (7 ∷ []))
    × (accept_socks as_bytes user pass (client.0 ++ (9 ∷ []))
        ≡ (5 ∷ 2 ∷ 1 ∷ 0 ∷ [], ok (some (target_of as_bytes none host_name 443, 9 ∷ []))))
dial_via_socks5-accept_socks_example =
    dial_via_socks5-accept_socks as_bytes no_ip user pass host_name bound_anywhere (7 ∷ []) (9 ∷ [])
      443 refl (omega arith) (omega arith) (omega arith) tt (omega arith) refl

-- A client that asks for port 80 of four bytes.
abbrev known_client : Bytes
known_client =
    greeting_bytes (0 ∷ 2 ∷ [])
      (credential_bytes user pass (5 ∷ 1 ∷ 0 ∷ 1 ∷ 10 ∷ 0 ∷ 0 ∷ 2 ∷ 0 ∷ 80 ∷ []))

abbrev web_target : Target
web_target = record { command = 1; address = 10 ∷ 0 ∷ 0 ∷ 2 ∷ []; port = 80 }

is_let_in : (accept_socks as_bytes user pass known_client).1 ≡ ok (some (web_target, []))
unfolding accept_socks read_methods authenticate require_credentials read_credentials read_counted
    read_request read_open_request read_target read_ip has_method read_full index slice
is_let_in = refl

accept_socks-Authenticated_example :
    (methods : Bytes) × ((rest : Bytes) × ((known_client
          ≡ greeting_bytes methods (credential_bytes user pass rest))
        × ((has_method 2 methods ≡ true)
            × ((read_request as_bytes rest).1 ≡ ok (some (web_target, []))))))
accept_socks-Authenticated_example =
    accept_socks-Authenticated as_bytes user pass known_client (some (web_target, [])) refl
      is_let_in

-- A wrong password is answered and the request is not read.
shuts_out :
    accept_socks as_bytes user user known_client
    ≡ (5 ∷ 2 ∷ 1 ∷ 1 ∷ [], err (plain "authentication failed"))
unfolding accept_socks read_methods authenticate require_credentials read_credentials read_counted
    has_method read_full index
shuts_out = refl

abbrev live_channel : Channel
live_channel = record {
  id = busy;
  protocol = "tcp";
  path = direct;
  writer = some 1;
  fallback = some 0;
  request = record { protocol = "tcp"; address = []; port = 0; channel_id = busy; resume = false };
  resume_owner = true;
  migration = false;
  sequence = 0;
  received = 0;
  pending = [];
  closed = false;
  suspend_since = none;
}

abbrev quiet : Network
quiet = record { sent = []; attempts = 0 }

-- The first five writes on a link fail, a try takes 10 milliseconds, and up to the time
-- 1000 another goroutine resumes the channel again and again.
abbrev flaky : Surroundings
flaky = record {
  up = λ i w. ltb 4 i;
  took = λ t. 10;
  others = λ t c. if ltb t 1000 then resume c else c;
  ended = λ t. false;
  grace = 500;
}

flaky-IsSane : IsSane flaky
unfolding resume
flaky-IsSane t c past = if_ind (IsPast t) (ltb t 1000) (λ since e. ground (arith, e)) past

flaky-IsCalm : IsCalm flaky 1000
flaky-IsCalm t c late = ground (arith, late)

was_open : IsPast 100 live_channel
was_open since e = ground (arith, e)

write_with_transport_grace-Settles_example :
    Settles flaky
      (write_with_transport_grace flaky 1000 (data_message (early busy 65)) live_channel quiet 100)
write_with_transport_grace-Settles_example =
    write_with_transport_grace-Settles flaky 1000 (data_message (early busy 65)) live_channel quiet
      100 flaky-IsSane flaky-IsCalm was_open
