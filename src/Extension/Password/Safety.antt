-- ===== src/Extension/Password/Safety.antt =====
-- The server's side of the exchange on any input.
use epoxy_tls.Base.{
  ◌<◌, ◌≡◌, ◌↔◌, refl, Bool, true, [], ◌∷◌, length, list_eq→eq, arith, Option, none, some, Outcome,
  ok, err, panic, diverge,
}
use epoxy_tls.Bytes.{Buf, Payload}
use epoxy_tls.Bytes.Utf8.{Text, from_utf8}
use epoxy_tls.Extension.Password.{
  PasswordProtocolExtension, server_after_client_info, Users, server_before, is_password,
  read_creds, password_build_from_bytes, check_creds,
}

-- The bytes end before the name that their first byte announces.
abbrev pub IsCutOff : Payload → Type 0
IsCutOff [] = Unit
IsCutOff (n ∷ rest) = length rest < n

pub is_password→eq : (o : Option Text) (p : Text) → is_password o p ≡ true → o ≡ some p
is_password→eq none p h = cc
is_password→eq (some q) p h = cc (list_eq→eq q p h)

check_creds_accepts :
    (users : Users) (required : Bool) (creds : Outcome (Text × Text))
    (e : PasswordProtocolExtension)
    → (check_creds users required creds).0 ≡ ok e
    → (user : Text) × (password : Text) × (users user ≡ some password)
      × (e ≡ server_after_client_info user password)
check_creds_accepts users required (ok (user, password)) e h =
    (user, password, ground (arith, is_password→eq (users user) password), ground arith)
check_creds_accepts users required (err x) e h = cc
check_creds_accepts users required panic e h = cc
check_creds_accepts users required diverge e h = cc

check_creds-panic :
    (users : Users) (required : Bool) (creds : Outcome (Text × Text))
    → ((check_creds users required creds).0 ≡ panic) ↔ (creds ≡ panic)
check_creds-panic users required (ok (user, password)) = ground arith
check_creds-panic users required (err x) = ((λ e. cc), (λ e. cc))
check_creds-panic users required panic = ((λ e. refl), (λ e. refl))
check_creds-panic users required diverge = ((λ e. cc), (λ e. cc))

module _ ⦃buf : Buf⦄ where
  -- Whatever bytes arrive, the server's builder accepts only a name of its table with that name's
  -- password, and reports that pair.
  pub password_accepts_known :
      (users : Users) (required : Bool) (bytes : Payload) (e : PasswordProtocolExtension)
      → (password_build_from_bytes (server_before users required) bytes).0 ≡ ok e
      → (user : Text) × (password : Text) × (users user ≡ some password)
        × (e ≡ server_after_client_info user password)
  unfolding password_build_from_bytes
  password_accepts_known users required bytes e h =
      check_creds_accepts users required (read_creds bytes) e h

  read_creds-panic : (bytes : Payload) → (read_creds bytes ≡ panic) ↔ IsCutOff bytes
  unfolding read_creds from_utf8
  read_creds-panic [] = ((λ e. tt), (λ e. rw buf.get_u8_empty))
  read_creds-panic (n ∷ rest) =
      ground (arith, buf.get_u8_lem n rest, buf.split_to_lem rest n, buf.split_to_past_end rest n)

  -- The server's builder panics exactly on the bytes that end before the name which their first
  -- byte announces, the empty ones included.
  pub password_panics :
      (users : Users) (required : Bool) (bytes : Payload)
      → ((password_build_from_bytes (server_before users required) bytes).0 ≡ panic)
        ↔ IsCutOff bytes
  unfolding password_build_from_bytes
  password_panics users required bytes =
      let (to, from) = read_creds-panic bytes in
      let (down, up) = check_creds-panic users required (read_creds bytes) in
      ((λ e. to (down e)), (λ c. up (from c)))
