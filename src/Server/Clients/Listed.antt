-- ===== src/Server/Clients/Listed.antt =====
-- What the table of clients lists after any sequence of accesses.
use epoxy_tls.Base.{
  ℕ, ◌≡◌, refl, arith, Bool, true, false, ◌&&◌, List, [], ◌∷◌, Option, none, some, ◌==◌,
  if◌then◌else◌, lookup, remove, insert, lookup-insert, lookup-remove, ◌∙◌, ap,
}
use epoxy_tls.Server.Clients.{
  Client, Clients, StreamPair, with_streams, Action, client_in, client_out, stream_in, stream_out,
  insert_client, remove_client, insert_stream, remove_stream, act, run_actions,
}

-- What the table says of one stream of one client: whether the client is there, and the stream.
pub record Entry : Type 0 where
  pub connected : Bool
  pub stream : Option StreamPair

abbrev entry_of : ℕ → Option Client → Entry
entry_of uuid none = record { connected = false; stream = none }
entry_of uuid (some client) = record { connected = true; stream = lookup uuid client.streams }

abbrev pub entry : Clients → ℕ → ℕ → Entry
entry clients id uuid = entry_of uuid (lookup id clients)

-- What an access makes of the entry of stream v of client i.
abbrev pub act_on : ℕ → ℕ → Action → Entry → Entry
act_on i v (client_in id kind) e = if id == i then record { connected = true; stream = none } else e
act_on i v (client_out id) e = if id == i then record { connected = false; stream = none } else e
act_on i v (stream_in id uuid pair) e =
    if id == i && uuid == v && e.connected then record e { stream = some pair } else e
act_on i v (stream_out id uuid) e =
    if id == i && uuid == v && e.connected then record e { stream = none } else e

abbrev pub run_on : ℕ → ℕ → List Action → Entry → Entry
run_on i v [] e = e
run_on i v (a ∷ actions) e = run_on i v actions (act_on i v a e)

entry-insert_stream :
    (id uuid : ℕ) (pair : StreamPair) (clients : Clients) (c : Option Client) (i v : ℕ)
    → lookup id clients ≡ c
    → entry (with_streams id c (insert uuid pair) clients) i v
      ≡ act_on i v (stream_in id uuid pair) (entry clients i v)
entry-insert_stream id uuid pair clients none i v h = ground arith
entry-insert_stream id uuid pair clients (some client) i v h = ground (
  arith,
  lookup-insert i id (record client { streams = insert uuid pair client.streams }) clients,
  lookup-insert v uuid pair client.streams,
)

entry-remove_stream :
    (id uuid : ℕ) (clients : Clients) (c : Option Client) (i v : ℕ)
    → lookup id clients ≡ c
    → entry (with_streams id c (remove uuid) clients) i v
      ≡ act_on i v (stream_out id uuid) (entry clients i v)
entry-remove_stream id uuid clients none i v h = ground arith
entry-remove_stream id uuid clients (some client) i v h = ground (
  arith,
  lookup-insert i id (record client { streams = remove uuid client.streams }) clients,
  lookup-remove v uuid client.streams,
)

entry-act :
    (a : Action) (clients : Clients) (i v : ℕ)
    → entry (act a clients) i v ≡ act_on i v a (entry clients i v)
unfolding act insert_client remove_client insert_stream remove_stream lookup
entry-act (client_in id kind) clients i v =
    ground (arith, lookup-insert i id (record { streams = []; kind = kind }) clients)
entry-act (client_out id) clients i v = ground (arith, lookup-remove i id clients)
entry-act (stream_in id uuid pair) clients i v =
    entry-insert_stream id uuid pair clients (lookup id clients) i v refl
entry-act (stream_out id uuid) clients i v =
    entry-remove_stream id uuid clients (lookup id clients) i v refl

-- The table refines a separate entry for every stream of every client: in any interleaving of the
-- tasks' accesses, the entry depends on the accesses to that client and that stream alone.
pub entry-run_actions :
    (actions : List Action) (clients : Clients) (i v : ℕ)
    → entry (run_actions actions clients) i v ≡ run_on i v actions (entry clients i v)
unfolding run_actions
entry-run_actions [] clients i v = refl
entry-run_actions (a ∷ actions) clients i v =
    entry-run_actions actions (act a clients) i v
    ∙ ap (run_on i v actions) (entry-act a clients i v)
