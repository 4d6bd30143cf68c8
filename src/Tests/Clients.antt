-- ===== src/Tests/Clients.antt =====
-- The client's streams, at concrete values.
use epoxy_tls.Base.{ℕ, ◌≡◌, refl, true, false, ◌||◌, [], ◌∷◌, none, some, codes, list_eq}
use epoxy_tls.Client.Errors.{Result}
use epoxy_tls.Client.Provider.{Target, StreamProvider, connect_target, get_stream}
use epoxy_tls.Client.Provider.Current.{port_of, get_stream_ends, connect_target-ok}

abbrev fresh_provider : StreamProvider ℕ
fresh_provider = record { wisp_v2 = true; udp_extension = true; current_client = none; tasks = [] }

get_stream_ends_example :
    (r : Result ℕ) × ((get_stream (λ h required. some 1) some (true ∷ false ∷ []) fresh_provider).0
      ≡ some r)
get_stream_ends_example =
    get_stream_ends (λ h required. some 1) some (true ∷ false ∷ []) fresh_provider refl

abbrev secure : Target
secure = record { tls = true; http = false; host = codes "example.org"; port = 443 }

connect_target-ok_example :
    (secure.tls ≡ (list_eq (codes "wss") (codes "https") || list_eq (codes "wss") (codes "wss")))
    × (secure.http ≡ list_eq (codes "wss") (codes "https"))
    × (secure.host ≡ codes "example.org")
    × (secure.port ≡ port_of secure.tls none)
unfolding connect_target
connect_target-ok_example = connect_target-ok (codes "wss") (codes "example.org") none secure refl
