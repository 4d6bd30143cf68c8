-- ===== src/Base/Errors.antt =====
-- wisp/src/lib.rs: the error type and the role. `Outcome` is the result of fallible code.
use Prim.Native.Nat.{ℕ}
use mathlib.Core.Path.{◌≡◌, refl, subst}
use native.Mathlib.Omega.{arith}
use mathlib.Core.Bool.{Bool, true, false}
use epoxy_tls.Base.Tests.{if◌then◌else◌}
use mathlib.Core.Option.{Option, none, some}
use mathlib.Core.List.{List}

pub record WispVersion : Type 0 where
  pub major : ℕ
  pub minor : ℕ

-- The payload of an error that another crate or the standard library makes is left out.
pub data WispError : Type 0 where
  invalid_stream_id : ℕ → WispError
  invalid_packet_type : ℕ → WispError
  packet_too_small : WispError
  incompatible_protocol_version : WispVersion → WispVersion → WispError
  stream_already_closed : WispError
  max_stream_count_reached : WispError
  utf8 : WispError
  try_from_int_error : WispError
  mux_message_failed_to_send : WispError
  mux_message_failed_to_recv : WispError
  mux_task_ended : WispError
  mux_task_started : WispError
  ws_impl_error : WispError
  ws_impl_socket_closed : WispError
  extension_impl_error : WispError
  extension_impl_not_supported : WispError
  extensions_not_supported : List ℕ → WispError
  password_extension_creds_invalid : WispError
  password_extension_no_creds : WispError
  cert_auth_extension_cert_type_invalid : WispError
  cert_auth_extension_sig_invalid : WispError
  cert_auth_extension_no_key : WispError

pub data Role : Type 0 where
  server client : Role

abbrev pub wisp_version : WispVersion
wisp_version = record { major = 2; minor = 0 }

-- `Result<A, WispError>`; `panic` is a call that aborts the task instead of returning, and
-- `diverge` no result of the code: a loop that has not ended within its fuel.
pub data Outcome {ℓ} (A : Type ℓ) : Type ℓ where
  ok : A → Outcome A
  err : WispError → Outcome A
  panic : Outcome A
  diverge : Outcome A

infixl 5 ◌>>=◌
abbrev pub ◌>>=◌ {ℓ κ} : {A : Type ℓ} {B : Type κ} → Outcome A → (A → Outcome B) → Outcome B
ok a >>= f = f a
err e >>= f = err e
panic >>= f = panic
diverge >>= f = diverge

-- A call of a function that panics outside its domain.
abbrev pub or_panic {ℓ} : {A : Type ℓ} → Option A → Outcome A
or_panic none = panic
or_panic (some a) = ok a

-- `Option::ok_or(e)?`
abbrev pub ok_or {ℓ} : {A : Type ℓ} → Option A → WispError → Outcome A
ok_or none e = err e
ok_or (some a) e = ok a

pub ok-injective {ℓ} : {A : Type ℓ} (a b : A) → Outcome.ok a ≡ Outcome.ok b → a ≡ b
ok-injective a b h = cc

-- What a successful chain went through.
pub bind-ok {ℓ κ} :
    {A : Type ℓ} {B : Type κ} (m : Outcome A) (f : A → Outcome B) {b : B}
    → (m >>= f) ≡ ok b
    → (a : A) × (m ≡ ok a) × (f a ≡ ok b)
bind-ok (ok a) f h = (a, refl, h)
bind-ok (err e) f h = cc
bind-ok panic f h = cc
bind-ok diverge f h = cc

pub ok_or-ok {ℓ} :
    {A : Type ℓ} (o : Option A) (e : WispError) {a : A} → ok_or o e ≡ ok a → o ≡ some a
ok_or-ok none e h = cc
ok_or-ok (some x) e h = ground arith

-- A result, if there is one, satisfies `P`.
abbrev pub Gives {ℓ κ} : {A : Type ℓ} → (A → Type κ) → Outcome A → Type κ
Gives P (ok a) = P a
Gives P (err e) = Unit
Gives P panic = Unit
Gives P diverge = Unit

pub Gives-ok {ℓ κ} :
    {A : Type ℓ} (P : A → Type κ) (m : Outcome A) {a : A} → Gives P m → m ≡ ok a → P a
Gives-ok P (ok b) h e = subst P (ok-injective b _ e) h
Gives-ok P (err x) h e = cc
Gives-ok P panic h e = cc
Gives-ok P diverge h e = cc

pub bind-Gives {ℓ κ ℓ' κ'} :
    {A : Type ℓ} {B : Type ℓ'} (P : A → Type κ) (Q : B → Type κ') (m : Outcome A)
    (f : A → Outcome B)
    → Gives P m
    → ((a : A) → P a → Gives Q (f a))
    → Gives Q (m >>= f)
bind-Gives P Q (ok a) f h k = k a h
bind-Gives P Q (err e) f h k = tt
bind-Gives P Q panic f h k = tt
bind-Gives P Q diverge f h k = tt

pub then-Gives {ℓ κ ℓ'} :
    {A : Type ℓ} {B : Type ℓ'} (Q : B → Type κ) (m : Outcome A) (f : A → Outcome B)
    → ((a : A) → Gives Q (f a))
    → Gives Q (m >>= f)
then-Gives Q (ok a) f k = k a
then-Gives Q (err e) f k = tt
then-Gives Q panic f k = tt
then-Gives Q diverge f k = tt

pub if-Gives {ℓ κ} :
    {A : Type ℓ} (P : A → Type κ) (b : Bool) (m n : Outcome A)
    → Gives P m
    → Gives P n
    → Gives P (if b then m else n)
if-Gives P true m n hm hn = hm
if-Gives P false m n hm hn = hn
