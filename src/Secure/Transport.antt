-- ===== src/Secure/Transport.antt =====
-- `openChannelTransport` of linksocks/secure_channel.go: which writer carries a channel.
use linksocks.Prelude.{
  ℕ, ◌==◌, ◌≡◌, ◌≢◌, ◌↔◌, ◌⊎◌, Bool, false, not, ◌&&◌, Option, none, some, if◌then◌else◌, arith,
}
use linksocks.Message.Version.{protocol_major, protocol_version_v2}

-- The link's own plaintext writer, the session that `openChannel` gives, or the error that names
-- the version of the relay.
pub data ChannelTransport : Type 0 where
  plaintext sealed_session : ChannelTransport
  legacy_relay : ℕ → ChannelTransport

unfoldable pub for_version : Bool → ℕ → ChannelTransport
for_version has_client v =
    if not (protocol_major v == protocol_major protocol_version_v2)
    then if has_client && not (v == 0) then legacy_relay v else plaintext
    else sealed_session

-- `secure` is the hub of the relay, given as whether it has a client, and `version` what the link
-- says of its peer, when it can say it.
unfoldable pub open_channel_transport : Option Bool → Option ℕ → ChannelTransport
open_channel_transport none version = plaintext
open_channel_transport (some has_client) none = sealed_session
open_channel_transport (some has_client) (some v) = for_version has_client v

-- The peers that get plaintext from a hub: of another generation than V2, when the hub is a relay's
-- or the link of a client has no version.
abbrev pub GetsPlaintext : Bool → Option ℕ → Type 0
GetsPlaintext has_client none = ⊥
GetsPlaintext has_client (some v) =
    (protocol_major v ≢ protocol_major protocol_version_v2) × ((has_client ≡ false) ⊎ (v ≡ 0))

pub open_channel_transport-plaintext :
    (has_client : Bool) (version : Option ℕ)
    → (open_channel_transport (some has_client) version ≡ plaintext)
      ↔ GetsPlaintext has_client version
unfolding open_channel_transport for_version
open_channel_transport-plaintext has_client none = ground arith
open_channel_transport-plaintext has_client (some v) = ground arith
