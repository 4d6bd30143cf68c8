-- ===== src/Extension/Known.antt =====
-- wisp/src/extensions: a server's handshake only makes password extensions of
-- users that its table knows.
use mathlib.Core.List.{Mem, mem-cons_self, mem-cons_of_mem}
use epoxy_tls.Base.{
  ℕ, ◌≡◌, arith, Bool, true, List, [], ◌∷◌, map, contains, Option, some, Outcome, ok, err, panic,
  diverge, All, Role, suc, ap, sym, ◌∙◌, Gives, then-Gives, Bool-cases, bind-Gives, inl, inr,
}
use epoxy_tls.Bytes.{Buf, Payload}
use epoxy_tls.Bytes.Utf8.{Text}
use epoxy_tls.Extension.Password.{
  PasswordProtocolExtension, server_before_client_info, server_after_client_info,
  client_before_server_info, client_after_server_info, PasswordBuilder, server_before, server_after,
  client_before, client_after, Users, password_id, read_creds, check_creds,
  password_build_from_bytes, is_password,
}
use epoxy_tls.Extension.Cert.{CertDeps, cert_build_from_bytes}
use epoxy_tls.Extension.Any.{
  AnyProtocolExtension, udp_extension, motd_extension, password_extension, cert_extension,
  AnyProtocolExtensionBuilder, udp_builder, motd_builder, password_builder, cert_builder, get_id,
  build_from_bytes, build_to_extension, build_extensions, collect,
}
use epoxy_tls.Extension.Password.Safety.{is_password→eq}
use epoxy_tls.Extension.Motd.{motd_build_from_bytes}

module _ (users : Users) where
  -- A login of the table.
  abbrev pub IsLogin : PasswordProtocolExtension → Type 0
  IsLogin (server_after_client_info user password) = users user ≡ some password
  IsLogin (server_before_client_info required) = ⊥
  IsLogin client_before_server_info = ⊥
  IsLogin (client_after_server_info user password) = ⊥

  abbrev pub IsKnown : AnyProtocolExtension → Type 0
  IsKnown udp_extension = Unit
  IsKnown (motd_extension e) = Unit
  IsKnown (password_extension e) = IsLogin e
  IsKnown (cert_extension e) = Unit

  -- A server's builder that checks passwords against the table.
  abbrev IsChecking : PasswordBuilder → Type 0
  IsChecking (server_before table required) = table ≡ users
  IsChecking (server_after table required) = table ≡ users
  IsChecking (client_before creds) = ⊥
  IsChecking (client_after creds required) = ⊥

  abbrev pub IsGuarded : AnyProtocolExtensionBuilder → Type 0
  IsGuarded udp_builder = Unit
  IsGuarded (motd_builder b) = Unit
  IsGuarded (password_builder b) = IsChecking b
  IsGuarded (cert_builder b) = Unit

  -- A login of the table that a list of extensions holds.
  abbrev pub HasLogin : List AnyProtocolExtension → Type 0
  HasLogin es =
      (user : Text) × (password : Text) × (users user ≡ some password)
      × Mem (password_extension (server_after_client_info user password)) es

  HasLogin-cons :
      (e : AnyProtocolExtension) (es : List AnyProtocolExtension) → HasLogin es → HasLogin (e ∷ es)
  HasLogin-cons e es (user, password, known, there) =
      (user, password, known, mem-cons_of_mem e there)

  -- Of known extensions, one with the identifier of passwords is a login.
  pub get_id-HasLogin :
      (es : List AnyProtocolExtension)
      → All IsKnown es
      → contains (map get_id es) password_id ≡ true
      → HasLogin es
  unfolding get_id
  get_id-HasLogin [] k h = cc
  get_id-HasLogin (udp_extension ∷ es) (k, ks) h = HasLogin-cons _ es (get_id-HasLogin es ks h)
  get_id-HasLogin (motd_extension e ∷ es) (k, ks) h = HasLogin-cons _ es (get_id-HasLogin es ks h)
  get_id-HasLogin (cert_extension e ∷ es) (k, ks) h = HasLogin-cons _ es (get_id-HasLogin es ks h)
  get_id-HasLogin (password_extension (server_after_client_info user password) ∷ es) (k, ks) h =
      (user, password, k, mem-cons_self)
  get_id-HasLogin (password_extension (server_before_client_info required) ∷ es) (k, ks) h =
      absurd k
  get_id-HasLogin (password_extension client_before_server_info ∷ es) (k, ks) h = absurd k
  get_id-HasLogin (password_extension (client_after_server_info user password) ∷ es) (k, ks) h =
      absurd k

  check_creds-IsLogin :
      (table : Users) (required : Bool) (creds : Outcome (Text × Text))
      → table ≡ users
      → Gives IsLogin (check_creds table required creds).0
  check_creds-IsLogin table required (ok (user, password)) h =
      let known = is_password→eq (table user) password in
      elim (Bool-cases (is_password (table user) password)) [
        | inl is ↦ rw is (ap (λ t. t user) (sym h) ∙ known is)
        | inr is_not ↦ rw is_not tt
      ]
  check_creds-IsLogin table required (err e) h = tt
  check_creds-IsLogin table required panic h = tt
  check_creds-IsLogin table required diverge h = tt

  check_creds-IsChecking :
      (table : Users) (required : Bool) (creds : Outcome (Text × Text))
      → table ≡ users
      → IsChecking (check_creds table required creds).1
  check_creds-IsChecking table required (ok (user, password)) h = ground arith
  check_creds-IsChecking table required (err e) h = h
  check_creds-IsChecking table required panic h = h
  check_creds-IsChecking table required diverge h = h

module _ ⦃buf : Buf⦄ (users : Users) where
  password_build_from_bytes-IsLogin :
      (b : PasswordBuilder) (bytes : Payload)
      → IsChecking users b
      → Gives (IsLogin users) (password_build_from_bytes b bytes).0
  unfolding password_build_from_bytes
  password_build_from_bytes-IsLogin (server_before table required) bytes h =
      check_creds-IsLogin users table required (read_creds bytes) h
  password_build_from_bytes-IsLogin (server_after table required) bytes h = tt
  password_build_from_bytes-IsLogin (client_before creds) bytes h = absurd h
  password_build_from_bytes-IsLogin (client_after creds required) bytes h = absurd h

  password_build_from_bytes-IsChecking :
      (b : PasswordBuilder) (bytes : Payload)
      → IsChecking users b
      → IsChecking users (password_build_from_bytes b bytes).1
  unfolding password_build_from_bytes
  password_build_from_bytes-IsChecking (server_before table required) bytes h =
      check_creds-IsChecking users table required (read_creds bytes) h
  password_build_from_bytes-IsChecking (server_after table required) bytes h = h
  password_build_from_bytes-IsChecking (client_before creds) bytes h = absurd h
  password_build_from_bytes-IsChecking (client_after creds required) bytes h = absurd h

module _ ⦃buf : Buf⦄ ⦃deps : CertDeps⦄ (users : Users) where
  pub build_from_bytes-IsKnown :
      (b : AnyProtocolExtensionBuilder) (bytes : Payload) (role : Role)
      → IsGuarded users b
      → Gives (IsKnown users) (build_from_bytes b bytes role).0
  unfolding build_from_bytes
  build_from_bytes-IsKnown udp_builder bytes role h = tt
  build_from_bytes-IsKnown (motd_builder b) bytes role h =
      then-Gives (IsKnown users) (motd_build_from_bytes b bytes role) _ λ e. tt
  build_from_bytes-IsKnown (password_builder b) bytes role h =
      bind-Gives (IsLogin users) (IsKnown users) (password_build_from_bytes b bytes).0 _
        (password_build_from_bytes-IsLogin users b bytes h) λ e k. k
  build_from_bytes-IsKnown (cert_builder b) bytes role h =
      then-Gives (IsKnown users) (cert_build_from_bytes b bytes).0 _ λ e. tt

  pub build_from_bytes-IsGuarded :
      (b : AnyProtocolExtensionBuilder) (bytes : Payload) (role : Role)
      → IsGuarded users b
      → IsGuarded users (build_from_bytes b bytes role).1
  unfolding build_from_bytes
  build_from_bytes-IsGuarded udp_builder bytes role h = tt
  build_from_bytes-IsGuarded (motd_builder b) bytes role h = tt
  build_from_bytes-IsGuarded (password_builder b) bytes role h =
      password_build_from_bytes-IsChecking users b bytes h
  build_from_bytes-IsGuarded (cert_builder b) bytes role h = tt

module _ ⦃deps : CertDeps⦄ (users : Users) where
  build_to_extension-IsGuarded :
      (b : AnyProtocolExtensionBuilder) (role : Role) (random : Option Payload)
      → IsGuarded users b
      → IsGuarded users (build_to_extension b role random).1
  unfolding build_to_extension
  build_to_extension-IsGuarded udp_builder role random h = tt
  build_to_extension-IsGuarded (motd_builder b) role random h = tt
  build_to_extension-IsGuarded (password_builder b) role random h = h
  build_to_extension-IsGuarded (cert_builder b) role random h = tt

  collect-IsGuarded :
      (r : Outcome AnyProtocolExtension) (b : AnyProtocolExtensionBuilder)
      (bs : List AnyProtocolExtensionBuilder)
      (rest : Outcome (List AnyProtocolExtension) × List AnyProtocolExtensionBuilder)
      → IsGuarded users b
      → All (IsGuarded users) bs
      → All (IsGuarded users) rest.1
      → All (IsGuarded users) (collect r b bs rest).1
  collect-IsGuarded (ok e) b bs rest h hs hr = (h, hr)
  collect-IsGuarded (err x) b bs rest h hs hr = (h, hs)
  collect-IsGuarded panic b bs rest h hs hr = (h, hs)
  collect-IsGuarded diverge b bs rest h hs hr = (h, hs)

  pub build_extensions-IsGuarded :
      (bs : List AnyProtocolExtensionBuilder) (role : Role) (random : ℕ → Option Payload)
      → All (IsGuarded users) bs
      → All (IsGuarded users) (build_extensions bs role random).1
  unfolding build_extensions
  build_extensions-IsGuarded [] role random h = h
  build_extensions-IsGuarded (b ∷ bs) role random (h, hs) =
      collect-IsGuarded _ _ bs (build_extensions bs role (λ i. random (suc i)))
        (build_to_extension-IsGuarded b role (random 0) h) hs
        (build_extensions-IsGuarded bs role (λ i. random (suc i)) hs)
