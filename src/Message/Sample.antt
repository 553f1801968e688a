-- ===== src/Message/Sample.antt =====
-- Simple packages for linksocks/message.go, to run the codec with, and a request to run it on.
use linksocks.Prelude.{
  ℕ, ◌≡◌, ◌≢◌, ◌≤◌, refl, Bytes, true, ◌∷◌, Result, plain, ok, err, panic, length, take, arith,
  ◌==◌, if◌then◌else◌, leb, replicate,
}
use linksocks.Prelude.ByteOrder.{codes}
use linksocks.Message.Packages.{Packages, JsonCodec, GzipPackage}
use linksocks.Message.Types.{ConnectMessage, Uuid}
use linksocks.Message.Uuid.{UuidPackage, uuid_to_bytes, bytes_to_uuid}
use linksocks.Message.Uuid.RoundTrip.{uuid_to_bytes-bytes_to_uuid, uuid_to_bytes-ne-panic}

pub exactly_16 : Bytes → Result Uuid
exactly_16 b = if length b == 16 then ok b else err (plain "invalid UUID")

pub exactly_16-eq : (b : Bytes) → length b ≡ 16 → exactly_16 b ≡ ok b
unfolding exactly_16
exactly_16-eq b h = ground arith

pub exactly_16-ne-panic : (b : Bytes) → exactly_16 b ≢ panic
unfolding exactly_16
exactly_16-ne-panic b h = ground arith

abbrev pub uuid_package : UuidPackage
uuid_package = record {
  string_of = bytes_to_uuid;
  parse = uuid_to_bytes;
  from_bytes = exactly_16;
  string_of-eq = λ u h. refl;
  parse-text = uuid_to_bytes-bytes_to_uuid;
  parse-ne-panic = uuid_to_bytes-ne-panic;
  from_bytes-eq = exactly_16-eq;
  from_bytes-ne-panic = exactly_16-ne-panic;
}

-- A compressor that stores its input.
pub at_most : Bytes → ℕ → Result Bytes
at_most c n = if leb (length c) n then ok c else ok (take n c)

pub at_most-ne-panic : (c : Bytes) (n : ℕ) → at_most c n ≢ panic
unfolding at_most
at_most-ne-panic c n h = ground arith

pub at_most-eq : (d c : Bytes) (n : ℕ) → ok d ≡ ok c → length d ≤ n → at_most c n ≡ ok d
unfolding at_most
at_most-eq d c n e h = ground arith

abbrev pub gzip_package : GzipPackage
gzip_package = record {
  write = λ d. ok tt;
  close_writer = λ d. ok d;
  new_reader = λ c. ok tt;
  read_limited = at_most;
  close_reader = λ c. ok tt;
  new_reader-ne-panic = λ c e. cc;
  read_limited-ne-panic = at_most-ne-panic;
  close_reader-ne-panic = λ c e. cc;
  new_reader-writer = λ d c e. refl;
  read_limited-writer = at_most-eq;
  close_reader-writer = λ d c e. refl;
}

-- A codec that accepts nothing, for the types that the runs do not use.
abbrev pub no_json : {A : Type 0} → JsonCodec A
no_json = record {
  marshal = λ m. err (plain "json");
  unmarshal = λ s. err (plain "json");
  unmarshal-ne-panic = λ s e. cc;
}

abbrev pub packages : Packages
packages = record {
  uuid = uuid_package;
  gzip = gzip_package;
  log_json = no_json;
  partners_json = no_json;
  direct_capabilities_json = no_json;
  direct_rendezvous_json = no_json;
  direct_status_json = no_json;
  channel_bind_json = no_json;
  channel_migrate_json = no_json;
  channel_migrate_ack_json = no_json;
  channel_data_ack_json = no_json;
  web_register_json = no_json;
  web_register_response_json = no_json;
  web_request_json = no_json;
  web_response_json = no_json;
  web_cancel_json = no_json;
  web_rotate_json = no_json;
}

abbrev pub some_id : Uuid
some_id = 0xde ∷ 0xad ∷ 0xbe ∷ 0xef ∷ replicate 12 7

abbrev pub some_request : ConnectMessage
some_request = record {
  protocol = "tcp";
  address = codes "example.org";
  port = 443;
  channel_id = some_id;
  resume = true;
}
