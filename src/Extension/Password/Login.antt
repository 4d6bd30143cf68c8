-- ===== src/Extension/Password/Login.antt =====
-- The exchange of credentials, from the client's builder to the server's.
use epoxy_tls.Base.{
  ◌<◌, ◌≡◌, refl, Bool, true, [], ◌∷◌, ◌++◌, length, length-append, take-length_append,
  drop-length_append, arith, ok, err, password_extension_creds_invalid,
  extension_impl_not_supported, some, list_eq_refl, ◌⊎◌, ◌≢◌, Bool-cases, inl, inr, ap, ◌∙◌,
}
use epoxy_tls.Bytes.{Buf, Payload}
use epoxy_tls.Bytes.Utf8.{Text, is_utf8, from_utf8}
use epoxy_tls.Extension.Password.{
  server_after_client_info, client_after_server_info, Users, server_before, server_after,
  is_password, password_encode, read_creds, password_build_from_bytes,
}
use epoxy_tls.Extension.Password.Safety.{is_password→eq}

module _ ⦃buf : Buf⦄ where
  password_encode-client :
      (user password : Text)
      → length user < 256
      → password_encode (client_after_server_info user password)
        ≡ ok (length user ∷ (user ++ password))
  unfolding password_encode
  password_encode-client user password h = ground (
    arith,
    buf.put_u8_lem [] (length user),
    buf.extend_from_slice_lem (length user ∷ []) user,
    buf.extend_from_slice_lem (length user ∷ user) password,
  )

  read_creds-encoded :
      (user password : Text)
      → is_utf8 user ≡ true
      → is_utf8 password ≡ true
      → read_creds (length user ∷ (user ++ password)) ≡ ok (user, password)
  unfolding read_creds from_utf8
  read_creds-encoded user password hu hp = ground (
    arith,
    buf.get_u8_lem (length user) (user ++ password),
    buf.split_to_lem (user ++ password) (length user),
    length-append user password,
    take-length_append user password,
    drop-length_append user password,
  )

  is_password_refl : (p : Text) → is_password (some p) p ≡ true
  is_password_refl p = list_eq_refl p

  -- What a client with these credentials sends: if the server's table has the password under the
  -- name, the server accepts it and reports the pair; if the table has no such name, or another
  -- password under it, the server answers `PasswordExtensionCredsInvalid`; and in both cases it takes
  -- no second attempt.
  pub password_login :
      (users : Users) (required : Bool) (user password : Text)
      → length user < 256
      → is_utf8 user ≡ true
      → is_utf8 password ≡ true
      → (sent : Payload) → password_encode (client_after_server_info user password) ≡ ok sent
      → let (verdict, builder) = password_build_from_bytes (server_before users required) sent in
        ((users user ≡ some password) × (verdict ≡ ok (server_after_client_info user password))
          ⊎ (users user ≢ some password) × (verdict ≡ err password_extension_creds_invalid))
        × ((again : Payload)
            → password_build_from_bytes builder again
              ≡ (err extension_impl_not_supported, server_after users required))
  unfolding password_build_from_bytes
  password_login users required user password hl hu hp sent e =
      let layout : length user ∷ (user ++ password) ≡ sent =
        cc (password_encode-client user password hl) in
      rw (← layout, read_creds-encoded user password hu hp)
        (elim (Bool-cases (is_password (users user) password)) [
          | inl right ↦
              rw right (inl (is_password→eq (users user) password right, refl), λ again. refl)
          | inr wrong ↦ rw wrong (
            inr (
              λ h.
                  let same : is_password (users user) password ≡ true =
                    ap (λ o. is_password o password) h ∙ is_password_refl password in
                  cc (same, wrong),
              refl,
            ),
            λ again. refl,
          )
        ])
