-- ===== src/Client/Provider.antt =====
-- client/src/stream_provider.rs: the one multiplexor that a client's streams share, and which kind
-- of stream a URL is given. The transport and the handshake come in as the multiplexor that they
-- make; so do TLS and a new stream. An error's text is left out.
pub mod Current
use epoxy_tls.Base.{
  ℕ, suc, ◌-◌, Bool, true, false, ◌||◌, List, [], ◌∷◌, Option, none, some, list_eq, codes,
  if◌then◌else◌,
}
use epoxy_tls.Bytes.Utf8.{Text}
use epoxy_tls.Client.Errors.{
  EpoxyError, wisp_error, no_url_host, no_url_port, invalid_url_scheme, Result, ok, err, ◌>>=◌,
  ok_or,
}
use epoxy_tls.Extension.Any.{udp_builder}
use epoxy_tls.Mux.Handshake.{WispV2Handshake, handshake_new}

-- The current client, and the multiplexors whose tasks have not ended.
pub record StreamProvider (ClientMux : Type 0) : Type 0 where
  pub wisp_v2 : Bool
  pub udp_extension : Bool
  pub current_client : Option ClientMux
  pub tasks : List ClientMux

abbrev pub extensions : Bool → Option WispV2Handshake
extensions true = some (handshake_new (udp_builder ∷ []))
extensions false = none

-- The task number i ends: it takes whatever client is current then. `rest` are the other tasks.
unfoldable pub task_ends :
    {ClientMux : Type 0} → List ClientMux → StreamProvider ClientMux → StreamProvider ClientMux
task_ends rest p = record p { current_client = none; tasks = rest }

module _ {ClientMux : Type 0} where
  -- `locked.replace(mux)`, and its task; the error of a call that fails is given back.
  abbrev pub replaced :
      StreamProvider ClientMux → Option ClientMux → Option EpoxyError × StreamProvider ClientMux
  replaced p none = (some wisp_error, p)
  replaced p (some mux) = (none, record p { current_client = some mux; tasks = mux ∷ p.tasks })

  abbrev pub tail : List ClientMux → List ClientMux
  tail [] = []
  tail (mux ∷ tasks) = tasks

  -- Whether the task of a client that was just made ends before the lock is taken again.
  abbrev pub settle : Bool → StreamProvider ClientMux → StreamProvider ClientMux
  unfolding task_ends
  settle true p = task_ends (tail p.tasks) p
  settle false p = p

abbrev pub answer : {Stream : Type 0} → Option Stream → Result Stream
answer none = err wisp_error
answer (some stream) = ok stream

module _ {ClientMux : Type 0} (new_client : Option WispV2Handshake → Bool → Option ClientMux) where
  unfoldable pub create_client :
      StreamProvider ClientMux → Option EpoxyError × StreamProvider ClientMux
  create_client p = replaced p (new_client (extensions p.wisp_v2) p.udp_extension)

  unfoldable pub replace_client :
      StreamProvider ClientMux → Option EpoxyError × StreamProvider ClientMux
  unfolding create_client
  replace_client p = create_client p

  module _ {Stream : Type 0} (new_stream : ClientMux → Option Stream) where
    abbrev pub made :
        Option EpoxyError × StreamProvider ClientMux
        → Option (Result Stream) × StreamProvider ClientMux
    made (none, p) = (none, p)
    made (some e, p) = (some (err e), p)

    -- One pass of `get_stream`; `none` where a client was made and the call is made again.
    unfoldable pub attempt :
        StreamProvider ClientMux
        → Option ClientMux
        → Option (Result Stream) × StreamProvider ClientMux
    unfolding create_client
    attempt p (some mux) = (some (answer (new_stream mux)), p)
    attempt p none = made (create_client p)

    -- `get_stream`, with what befalls each client that it makes before the next pass; `none` is a
    -- call that has not ended when nothing further is said.
    unfoldable pub get_stream :
        List Bool → StreamProvider ClientMux → Option (Result Stream) × StreamProvider ClientMux
    unfolding attempt
    get_stream [] p = attempt p p.current_client
    get_stream (ended ∷ fates) p =
        let (r, p') = attempt p p.current_client in
        let rest = get_stream fates (settle ended p') in
        elim r [ none ↦ rest | some r' ↦ (some r', p') ]

-- The stream that a URL is given.
pub record Target : Type 0 where
  pub tls : Bool
  -- Whether TLS may settle on HTTP/2.
  pub http : Bool
  pub host : Text
  pub port : ℕ

abbrev is_any : Text → Text → Text → Bool
is_any scheme a b = list_eq scheme a || list_eq scheme b

abbrev default_port : Text → Option ℕ → Option ℕ
default_port scheme (some port) = some port
default_port scheme none =
    if is_any scheme (codes "https") (codes "wss")
    then some 443
    else if is_any scheme (codes "http") (codes "ws")
    then some 80
    else none

abbrev inner : Text → Text → ℕ → Result Target
inner scheme host port =
    if list_eq scheme (codes "https")
    then ok (record { tls = true; http = true; host = host; port = port })
    else if list_eq scheme (codes "wss")
    then ok (record { tls = true; http = false; host = host; port = port })
    else if is_any scheme (codes "http") (codes "ws")
    then ok (record { tls = false; http = false; host = host; port = port })
    else err (invalid_url_scheme (some scheme))

-- `connect`, up to the stream itself, from the parts of the URL.
unfoldable pub connect_target : Option Text → Option Text → Option ℕ → Result Target
connect_target scheme host port = ok_or scheme (invalid_url_scheme none) >>= λ s.
    ok_or host no_url_host >>= λ h. ok_or (default_port s port) no_url_port >>= λ n. inner s h n
