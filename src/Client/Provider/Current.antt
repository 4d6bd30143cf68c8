-- ===== src/Client/Provider/Current.antt =====
-- That a stream is given, and of which kind.
use epoxy_tls.Base.{
  ℕ, ◌≡◌, refl, arith, Bool, true, false, not, ◌||◌, List, [], ◌∷◌, Option, none, some, codes,
  list_eq, if◌then◌else◌, Option-cases, inr, inl,
}
use epoxy_tls.Bytes.Utf8.{Text}
use epoxy_tls.Mux.Handshake.{WispV2Handshake}
use epoxy_tls.Client.Provider.{
  StreamProvider, extensions, attempt, create_client, get_stream, Target, connect_target, answer,
  task_ends,
}
use epoxy_tls.Client.Errors.{Result, ok, err, wisp_error}

-- Some client outlives the moment between two passes.
abbrev pub survives : List Bool → Bool
survives [] = false
survives (ended ∷ fates) = not ended || survives fates

module _ {ClientMux Stream : Type 0} (new_client : Option WispV2Handshake → Bool → Option ClientMux)
    (new_stream : ClientMux → Option Stream) where
  -- With a client, a pass ends the call.
  get_stream-current :
      (fates : List Bool) (p : StreamProvider ClientMux) (mux : ClientMux)
      → p.current_client ≡ some mux
      → (r : Result Stream) × ((get_stream new_client new_stream fates p).0 ≡ some r)
  unfolding get_stream attempt
  get_stream-current [] p mux h = (answer (new_stream mux), rw h refl)
  get_stream-current (ended ∷ fates) p mux h = (answer (new_stream mux), rw h refl)

  -- A request for a stream ends, with a stream or an error, as soon as one of the clients that it
  -- makes is not lost before its next pass.
  pub get_stream_ends :
      (fates : List Bool) (p : StreamProvider ClientMux)
      → survives fates ≡ true
      → (r : Result Stream) × ((get_stream new_client new_stream fates p).0 ≡ some r)
  unfolding get_stream attempt create_client task_ends
  get_stream_ends [] p h = absurd (ground arith)
  get_stream_ends (true ∷ fates) p h = elim (Option-cases p.current_client) [
    | inr (mux, e) ↦ get_stream-current (true ∷ fates) p mux e
    | inl e ↦ elim (Option-cases (new_client (extensions p.wisp_v2) p.udp_extension)) [
      | inl f ↦ (err wisp_error, ground arith)
      | inr (mux, f) ↦
          let (r, k) = get_stream_ends fates (record p { current_client = none }) h in
          (r, ground arith)
    ]
  ]
  get_stream_ends (false ∷ fates) p h = elim (Option-cases p.current_client) [
    | inr (mux, e) ↦ get_stream-current (false ∷ fates) p mux e
    | inl e ↦ elim (Option-cases (new_client (extensions p.wisp_v2) p.udp_extension)) [
      | inl f ↦ (err wisp_error, ground arith)
      | inr (mux, f) ↦
          let (r, k) =
            get_stream-current fates (record p { current_client = some mux; tasks = mux ∷ p.tasks })
              mux refl in
          (r, ground arith)
    ]
  ]

-- The port that a URL means when it names none.
abbrev pub port_of : Bool → Option ℕ → ℕ
port_of tls none = if tls then 443 else 80
port_of tls (some port) = port

-- A URL is given a stream over TLS exactly if its scheme is `https` or `wss`, one that may become
-- HTTP/2 exactly if it is `https`, to its own host, and to its own port or the one that the scheme
-- stands for.
pub connect_target-ok :
    (scheme host : Text) (port : Option ℕ) (t : Target)
    → connect_target (some scheme) (some host) port ≡ ok t
    → (t.tls ≡ (list_eq scheme (codes "https") || list_eq scheme (codes "wss")))
      × (t.http ≡ list_eq scheme (codes "https"))
      × (t.host ≡ host)
      × (t.port ≡ port_of t.tls port)
unfolding connect_target
connect_target-ok scheme host port t h = ground arith
