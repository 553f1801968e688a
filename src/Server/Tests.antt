-- ===== src/Server/Tests.antt =====
-- Runs of the tables of linksocks/server.go, and the theorems at concrete inputs.
use linksocks.Prelude.{
  none, ℕ, ◌+◌, ◌%◌, ◌==◌, ◌≡◌, refl, false, some, [], ◌∷◌, ◌++◌, Bytes, if◌then◌else◌, arith,
  length, index,
}
use linksocks.Prelude.ByteOrder.{codes, bytes_eq}
use linksocks.Prelude.Table.{store, empty_table}
use linksocks.Message.Sample.{some_id}
use linksocks.Message.Types.{Message, Uuid, partners}
use linksocks.Prelude.Int.{pos}
use linksocks.PortPool.Pool.{PortPool, get, probe, in_use, take_port}
use linksocks.Server.Cache.{
  Cache, new_connector_cache, drain_connector_return, expire_channel, queue_of, still_dead,
  points_at, expiry_peer, expiry_notices,
}
use linksocks.Server.Returns.{returns, buffer_all, drain_connector_return-in_order}
use linksocks.Server.Selection.{
  Providers, get_next_web_socket, clients_of, index_of, Picks, get_next_web_socket-Picks,
}
use linksocks.Server.Expiry.{Forgotten, Untouched, BoundTo, expired_notice, expire_channel-Notifies}
use linksocks.Server.Tokens.{
  Tokens, ReverseTokenOptions, new_tokens, entry, add_forward_token, add_reverse_token, not_new,
  token_exists, note_hash, store_reverse, with_port,
}
use linksocks.Server.Clients.{remove_token}
use linksocks.Server.Registered.{Ordered}
use linksocks.Server.Removal.{Removed}
use linksocks.Server.History.{Reached, begins, adds_forward, adds_reverse, tokens-Removed}

abbrev number : ℕ → Message
number n = partners (record { count = pos n })

abbrev departed : ℕ
departed = 7

abbrev provider : ℕ
provider = 8

abbrev waiting : Cache
waiting = record new_connector_cache {
  return_queues = store some_id (number 1 ∷ number 2 ∷ []) empty_table;
  channel_to_connector = store some_id 7 empty_table;
  channel_to_client = store some_id 8 empty_table;
}

two_waiting : returns waiting some_id ≡ number 1 ∷ number 2 ∷ []
unfolding new_connector_cache queue_of
two_waiting = refl

drain_connector_return-in_order_example :
    (drain_connector_return waiting some_id (λ i. i == 0) (buffer_all some_id (number 3 ∷ []))).1
      ++ returns
          (drain_connector_return waiting some_id
            (λ i. i == 0)
            (buffer_all some_id (number 3 ∷ []))).0
          some_id
    ≡ returns waiting some_id ++ (number 3 ∷ [])
drain_connector_return-in_order_example =
    drain_connector_return-in_order waiting some_id (λ i. i == 0) (number 3 ∷ [])
      (rw two_waiting (omega arith))

abbrev three : Providers
three = record {
  token_clients = store (codes "t") (4 ∷ 5 ∷ 6 ∷ []) empty_table;
  token_indexes = store (codes "t") 2 empty_table;
}

abbrev majors : ℕ → ℕ
majors conn = if conn == 5 then 1 else 2

three_nonempty : clients_of (three.token_clients (codes "t")) ≡ 4 ∷ 5 ∷ 6 ∷ []
unfolding clients_of
three_nonempty = refl

get_next_web_socket-Picks_example :
    ((get_next_web_socket majors three (codes "t") 1).0.token_indexes (codes "t")
      ≡ some (
          (index_of (three.token_indexes (codes "t")) + 1)
          % length (clients_of (three.token_clients (codes "t")))))
    × Picks majors 1
        (clients_of (three.token_clients (codes "t")))
        (index_of (three.token_indexes (codes "t")))
        (get_next_web_socket majors three (codes "t") 1).1
get_next_web_socket-Picks_example =
    get_next_web_socket-Picks majors three (codes "t") 1 (rw three_nonempty (omega arith))

-- While the notice is written, the channel is bound to the link 9.
abbrev rebinds : Cache → Cache
rebinds c = record c { channel_to_connector = store some_id 9 c.channel_to_connector }

expire_channel-Notifies_example :
    (BoundTo waiting departed some_id
      → Forgotten some_id (expire_channel waiting departed some_id rebinds).0
        × ((x : Uuid)
            → bytes_eq some_id x ≡ false
            → Untouched x (rebinds waiting) (expire_channel waiting departed some_id rebinds).0)
        × ((p : ℕ)
            → waiting.channel_to_connector some_id ≡ some p
            → (expire_channel waiting departed some_id rebinds).1
              ≡ (p, expired_notice some_id) ∷ [])
        × (waiting.channel_to_connector some_id ≡ none
            → (expire_channel waiting departed some_id rebinds).1
              ≡ (departed, expired_notice some_id) ∷ []))
    × (¬ (BoundTo waiting departed some_id)
        → expire_channel waiting departed some_id rebinds ≡ (waiting, []))
expire_channel-Notifies_example = expire_channel-Notifies waiting departed some_id rebinds

writes_to_the_departed :
    (expire_channel waiting departed some_id rebinds).1 ≡ (departed, expired_notice some_id) ∷ []
unfolding expire_channel still_dead points_at expiry_peer expiry_notices new_connector_cache
writes_to_the_departed = refl

abbrev hash : Bytes → Bytes
hash token = 0 ∷ token

abbrev some_pool : PortPool
some_pool = record { ports = 9000 ∷ 9001 ∷ []; used_ports = [] }

abbrev some_options : ReverseTokenOptions
some_options = record { token = codes "r"; port = 0; allow_manage_connector = false }

abbrev with_reverse : Tokens
with_reverse =
    (add_reverse_token hash (new_tokens some_pool) (new_tokens some_pool) some_options
      (codes "random") 1).0

abbrev some_tokens : Tokens
some_tokens = (add_forward_token hash with_reverse with_reverse (codes "f") (codes "random")).0

some_history : Reached hash some_pool some_tokens
unfolding new_tokens entry add_reverse_token not_new token_exists note_hash store_reverse with_port
    get probe index in_use take_port
some_history =
    adds_forward with_reverse with_reverse (codes "f") (codes "random")
      (adds_reverse (new_tokens some_pool) (new_tokens some_pool) some_options (codes "random") 1
        begins (λ e. e) (λ h. omega arith) (refl, refl, refl))
      (λ e. e) (refl, refl, refl)

some_port : with_reverse.tokens (codes "r") ≡ some (some 9001)
unfolding new_tokens entry add_reverse_token not_new token_exists note_hash store_reverse with_port
    get probe index in_use take_port
some_port = refl

tokens-Removed_example :
    Ordered some_tokens × ((token : Bytes) → Removed token (remove_token some_tokens token).0)
tokens-Removed_example = tokens-Removed hash some_pool some_tokens some_history
