-- ===== src/Channel/State.antt =====
-- The state of `logicalChannel` in linksocks/channel.go, and the links it writes to. A link is
-- named by a number. Whether the n-th write of a run succeeds on a link is the choice of the
-- environment: the function `up`.
use linksocks.Prelude.{
  ℕ, ◌+◌, Bool, false, Option, none, some, List, [], ◌∷◌, ◌++◌, String, Error, plain, if◌then◌else◌,
}
use linksocks.Message.Types.{Uuid, Message, ConnectMessage, DataMessage}

pub data ChannelPath : Type 0 where
  relay direct : ChannelPath

abbrev pub Writer : Type 0
Writer = ℕ

pub record Channel : Type 0 where
  pub id : Uuid
  pub protocol : String
  pub path : ChannelPath
  pub writer : Option Writer
  pub fallback : Option Writer
  pub request : ConnectMessage
  pub resume_owner : Bool
  pub migration : Bool
  pub sequence : ℕ
  pub received : ℕ
  pub pending : List (ℕ × DataMessage)
  pub closed : Bool
  -- `none` is the zero time: the link is healthy.
  pub suspend_since : Option ℕ

-- The zero value of `ConnectMessage`.
abbrev pub no_request : Uuid → ConnectMessage
no_request nil = record { protocol = ""; address = []; port = 0; channel_id = nil; resume = false }

abbrev pub uuid_nil : Uuid
uuid_nil = 0 ∷ 0 ∷ 0 ∷ 0 ∷ 0 ∷ 0 ∷ 0 ∷ 0 ∷ 0 ∷ 0 ∷ 0 ∷ 0 ∷ 0 ∷ 0 ∷ 0 ∷ 0 ∷ []

unfoldable pub new_logical_channel :
    Uuid → String → Option Writer → Option Writer → ChannelPath → Channel
new_logical_channel id protocol writer fallback path = record {
  id = id;
  protocol = protocol;
  path = path;
  writer = writer;
  fallback = fallback;
  request = no_request uuid_nil;
  resume_owner = false;
  migration = false;
  sequence = 0;
  received = 0;
  pending = [];
  closed = false;
  suspend_since = none;
}

-- What was written, oldest first, and how many writes were tried.
pub record Network : Type 0 where
  pub sent : List (Writer × Message)
  pub attempts : ℕ

-- `w.WriteMessage(msg)`
unfoldable pub net_write : (ℕ → Writer → Bool) → Network → Writer → Message → Network × Option Error
net_write up n w m =
    if up n.attempts w
    then (record { sent = n.sent ++ ((w, m) ∷ []); attempts = n.attempts + 1 }, none)
    else (record n { attempts = n.attempts + 1 }, some (plain "transport down"))
