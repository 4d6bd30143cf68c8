-- ===== src/Server/Anyhow.antt =====
-- `anyhow::Result<A>` in server/src, the error's text left out. `panic` is a call that aborts the
-- task instead of returning.
use mathlib.Core.Path.{◌≡◌, refl, ap}
use mathlib.Core.Bool.{Bool, true, false}
use mathlib.Core.Option.{Option, none, some}

pub data Anyhow {ℓ} (A : Type ℓ) : Type ℓ where
  ok : A → Anyhow A
  error : Anyhow A
  panic : Anyhow A

infixl 5 ◌>>=◌
abbrev pub ◌>>=◌ {ℓ κ} : {A : Type ℓ} {B : Type κ} → Anyhow A → (A → Anyhow B) → Anyhow B
ok a >>= f = f a
error >>= f = error
panic >>= f = panic

-- A fallible call followed by `?`.
abbrev pub try {ℓ} : {A : Type ℓ} → Option A → Anyhow A
try none = error
try (some a) = ok a

-- A fallible call followed by `.unwrap()`.
abbrev pub unwrap {ℓ} : {A : Type ℓ} → Option A → Anyhow A
unwrap none = panic
unwrap (some a) = ok a

pub ok-injective {ℓ} : {A : Type ℓ} (a b : A) → Anyhow.ok a ≡ Anyhow.ok b → a ≡ b
ok-injective a b h = cc

-- What a successful chain went through.
pub bind-ok {ℓ κ} :
    {A : Type ℓ} {B : Type κ} (m : Anyhow A) (f : A → Anyhow B) {b : B}
    → (m >>= f) ≡ ok b
    → (a : A) × (m ≡ ok a) × (f a ≡ ok b)
bind-ok (ok a) f h = (a, refl, h)
bind-ok error f h = cc
bind-ok panic f h = cc

pub try-ok {ℓ} : {A : Type ℓ} (o : Option A) {a : A} → try o ≡ ok a → o ≡ some a
try-ok none h = cc
try-ok (some x) h = ap some (ok-injective x _ h)

-- `if !b { bail!(…) }`, then the rest.
abbrev pub ensure {ℓ} : {A : Type ℓ} → Bool → Anyhow A → Anyhow A
ensure true rest = rest
ensure false rest = error
