-- ===== src/Server/Clients.antt =====
-- server/src/main.rs and handle/wisp/mod.rs: `CLIENTS`, the table of connected clients with the
-- streams that each has. The names of clients and streams (a text and a UUID) are only compared,
-- so they are numbers here. The locks are held for one action at a time: a run of the server is
-- the sequence of the actions of all its tasks.
pub mod Listed
use epoxy_tls.Base.{ℕ, Bool, List, [], ◌∷◌, Option, none, some, lookup, remove, insert}
use epoxy_tls.Bytes.Utf8.{Text}
use epoxy_tls.Packet.Codec.{ConnectPacket}

-- What the client asked for, and what was connected to.
pub record StreamPair : Type 0 where
  pub requested : ConnectPacket
  pub resolved : ConnectPacket

pub record Client : Type 0 where
  pub streams : List (ℕ × StreamPair)
  pub kind : Text

abbrev pub Clients : Type 0
Clients = List (ℕ × Client)

unfoldable pub insert_client : ℕ → Text → Clients → Clients
insert_client id kind clients = insert id (record { streams = []; kind = kind }) clients

unfoldable pub remove_client : ℕ → Clients → Clients
remove_client id clients = remove id clients

abbrev pub with_streams :
    ℕ → Option Client → (List (ℕ × StreamPair) → List (ℕ × StreamPair)) → Clients → Clients
with_streams id none f clients = clients
with_streams id (some client) f clients =
    insert id (record client { streams = f client.streams }) clients

-- `if let Some(client) = CLIENTS.lock().await.get(&id) { client.0.lock().await.insert(…) }`
unfoldable pub insert_stream : ℕ → ℕ → StreamPair → Clients → Clients
insert_stream id uuid pair clients = with_streams id (lookup id clients) (insert uuid pair) clients

unfoldable pub remove_stream : ℕ → ℕ → Clients → Clients
remove_stream id uuid clients = with_streams id (lookup id clients) (remove uuid) clients

-- One access to the table.
pub data Action : Type 0 where
  client_in : ℕ → Text → Action
  client_out : ℕ → Action
  stream_in : ℕ → ℕ → StreamPair → Action
  stream_out : ℕ → ℕ → Action

unfoldable pub act : Action → Clients → Clients
unfolding insert_client remove_client insert_stream remove_stream
act (client_in id kind) clients = insert_client id kind clients
act (client_out id) clients = remove_client id clients
act (stream_in id uuid pair) clients = insert_stream id uuid pair clients
act (stream_out id uuid) clients = remove_stream id uuid clients

unfoldable pub run_actions : List Action → Clients → Clients
unfolding act
run_actions [] clients = clients
run_actions (a ∷ actions) clients = run_actions actions (act a clients)
