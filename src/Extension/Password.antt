-- ===== src/Extension/Password.antt =====
-- wisp/src/extensions/password.rs: authentication by user name and password. A `HashMap` of users
-- is a function from a name to its password. A builder's method returns its result and the
-- builder after the call; what it does to the builder is lost in a panic.
pub mod Login
pub mod Safety
use epoxy_tls.Base.{
  ℕ, ◌+◌, ◌<◌, ◌≤◌, ◌==◌, not, Bool, true, false, List, [], ◌++◌, length, list_eq, ltb,
  if◌then◌else◌, Option, none, some, Outcome, ok, err, panic, diverge, ok_or, ◌>>=◌,
  password_extension_creds_invalid, password_extension_no_creds, extension_impl_not_supported,
}
use epoxy_tls.Bytes.{Buf, Payload, put_u8, extend_from_slice, get_u8, split_to}
use epoxy_tls.Bytes.Utf8.{Text, from_utf8}

abbrev pub password_id : ℕ
password_id = 0x02

pub data PasswordProtocolExtension : Type 0 where
  server_before_client_info : Bool → PasswordProtocolExtension
  server_after_client_info : Text → Text → PasswordProtocolExtension
  client_before_server_info : PasswordProtocolExtension
  client_after_server_info : Text → Text → PasswordProtocolExtension

abbrev pub Users : Type 0
Users = Text → Option Text

pub data PasswordBuilder : Type 0 where
  server_before : Users → Bool → PasswordBuilder
  server_after : Users → Bool → PasswordBuilder
  client_before : Option (Text × Text) → PasswordBuilder
  client_after : Option (Text × Text) → Bool → PasswordBuilder

abbrev pub u8_from : Bool → ℕ
u8_from true = 1
u8_from false = 0

unfoldable pub password_is_required : PasswordBuilder → Option Bool
password_is_required (server_before users required) = some required
password_is_required (server_after users required) = some required
password_is_required (client_before creds) = none
password_is_required (client_after creds required) = some required

unfoldable pub password_set_creds : PasswordBuilder → Text × Text → PasswordBuilder
password_set_creds (server_before users required) credentials = server_before users required
password_set_creds (server_after users required) credentials = server_after users required
password_set_creds (client_before creds) credentials = client_before (some credentials)
password_set_creds (client_after creds required) credentials =
    client_after (some credentials) required

-- `is_some_and(|x| *x == password)`
abbrev pub is_password : Option Text → Text → Bool
is_password none password = false
is_password (some x) password = list_eq x password

unfoldable pub password_build_to_extension : PasswordBuilder → Outcome PasswordProtocolExtension
password_build_to_extension (server_before users required) = ok (server_before_client_info required)
password_build_to_extension (server_after users required) = err extension_impl_not_supported
password_build_to_extension (client_before creds) = err extension_impl_not_supported
password_build_to_extension (client_after creds required) = do
  (user, password) ← ok_or creds password_extension_no_creds
  ok (client_after_server_info user password)

abbrev pub check_creds :
    Users → Bool → Outcome (Text × Text) → Outcome PasswordProtocolExtension × PasswordBuilder
check_creds users required (ok (user, password)) =
    if is_password (users user) password
    then (ok (server_after_client_info user password), server_after users required)
    else (err password_extension_creds_invalid, server_after users required)
check_creds users required (err e) = (err e, server_before users required)
check_creds users required panic = (panic, server_before users required)
check_creds users required diverge = (diverge, server_before users required)

abbrev pub note_required :
    Option (Text × Text)
    → Outcome (ℕ × Payload)
    → Outcome PasswordProtocolExtension × PasswordBuilder
note_required creds (ok (flag, bytes)) =
    (ok client_before_server_info, client_after creds (not (flag == 0)))
note_required creds (err e) = (err e, client_before creds)
note_required creds panic = (panic, client_before creds)
note_required creds diverge = (diverge, client_before creds)

module _ ⦃buf : Buf⦄ where
  -- `user.len().try_into().unwrap()` panics on a name of more than 255 bytes.
  unfoldable pub password_encode : PasswordProtocolExtension → Outcome Payload
  password_encode (server_before_client_info required) = ok (put_u8 [] (u8_from required))
  password_encode (server_after_client_info user password) = ok []
  password_encode client_before_server_info = ok []
  password_encode (client_after_server_info user password) =
      if ltb (length user) 256
      then ok (extend_from_slice (extend_from_slice (put_u8 [] (length user)) user) password)
      else panic

  -- The name, behind its length, and the password.
  unfoldable pub read_creds : Payload → Outcome (Text × Text)
  read_creds bytes = do
    (user_len, bytes) ← get_u8 bytes
    (name, bytes) ← split_to bytes user_len
    user ← from_utf8 name
    password ← from_utf8 bytes
    ok (user, password)

  unfoldable pub password_build_from_bytes :
      PasswordBuilder → Payload → Outcome PasswordProtocolExtension × PasswordBuilder
  unfolding read_creds
  password_build_from_bytes (server_before users required) bytes =
      check_creds users required (read_creds bytes)
  password_build_from_bytes (server_after users required) bytes =
      (err extension_impl_not_supported, server_after users required)
  password_build_from_bytes (client_before creds) bytes = note_required creds (get_u8 bytes)
  password_build_from_bytes (client_after creds required) bytes =
      (err extension_impl_not_supported, client_after creds required)
