-- ===== src/Server/Texts.antt =====
-- Methods of `str` and `Option` that server/src uses.
use epoxy_tls.Base.{
  Bool, true, false, ◌&&◌, ◌||◌, [], ◌∷◌, Option, none, some, ◌==◌, list_eq, if◌then◌else◌,
}
use epoxy_tls.Bytes.Utf8.{Text}

abbrev pub is_some {ℓ} : {A : Type ℓ} → Option A → Bool
is_some none = false
is_some (some a) = true

-- `str::ends_with` and `str::starts_with`
abbrev pub starts_with : Text → Text → Bool
starts_with s [] = true
starts_with [] (c ∷ p) = false
starts_with (a ∷ s) (c ∷ p) = a == c && starts_with s p

abbrev pub ends_with : Text → Text → Bool
ends_with [] p = list_eq [] p
ends_with (c ∷ s) p = list_eq (c ∷ s) p || ends_with s p

-- `split(p).next()`: what stands before the first p, or everything.
abbrev pub split_next : Text → Text → Text
split_next p [] = []
split_next p (c ∷ s) = if starts_with (c ∷ s) p then [] else c ∷ split_next p s

-- `str::contains`
abbrev pub contains_text : Text → Text → Bool
contains_text [] p = starts_with [] p
contains_text (c ∷ s) p = starts_with (c ∷ s) p || contains_text s p

-- `Option::is_some_and`
abbrev pub is_some_and {ℓ} : {A : Type ℓ} → Option A → (A → Bool) → Bool
is_some_and none f = false
is_some_and (some a) f = f a
