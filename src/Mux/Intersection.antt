-- ===== src/Mux/Intersection.antt =====
-- Which extensions the two sides have in common.
use epoxy_tls.Base.{
  Option, WispError, ℕ, ◌≡◌, ◌↔◌, refl, arith, true, false, ◌&&◌, not, List, [], ◌∷◌, map, contains,
  none,
}
use epoxy_tls.Packet.Info.{Builders}
use epoxy_tls.Extension.Any.{AnyProtocolExtension, get_id, builder_get_id}
use epoxy_tls.Mux.Supported.{
  get_supported_extensions, unsupported_extensions, unless_missing, with_required_extensions,
}

-- The identifiers of the extensions in force are exactly those that the peer sent and that the
-- user has a builder for.
pub get_supported_extensions_lem :
    (es : List AnyProtocolExtension) (builders : Builders) (id : ℕ)
    → contains (map get_id (get_supported_extensions es builders)) id
      ≡ (contains (map get_id es) id && contains (map builder_get_id builders) id)
unfolding get_supported_extensions
get_supported_extensions_lem [] builders id = refl
get_supported_extensions_lem (e ∷ es) builders id =
    ground (arith, get_supported_extensions_lem es builders id)

contains-unsupported_extensions :
    (required : List ℕ) (supported : List AnyProtocolExtension) (id : ℕ)
    → contains (unsupported_extensions required supported) id
      ≡ (contains required id && not (contains (map get_id supported) id))
unfolding unsupported_extensions
contains-unsupported_extensions [] supported id = refl
contains-unsupported_extensions (r ∷ rs) supported id =
    ground (arith, contains-unsupported_extensions rs supported id)

unless_missing-none :
    (ids : List ℕ) (closed future : Option WispError)
    → unless_missing ids closed future ≡ none
    → ids ≡ []
unless_missing-none [] closed future h = refl
unless_missing-none (id ∷ ids) closed future h = cc

contains-none : (ids : List ℕ) → ((id : ℕ) → contains ids id ≡ false) → ids ≡ []
contains-none [] h = refl
contains-none (id ∷ ids) h = absurd (ground (arith, h id))

-- The multiplexor is given to the user exactly if every identifier that was required is supported.
pub with_required_extensions_lem :
    (required : List ℕ) (supported : List AnyProtocolExtension) (closed future : Option WispError)
    → (with_required_extensions required supported closed future ≡ none)
      ↔ ((id : ℕ) → contains required id ≡ true → contains (map get_id supported) id ≡ true)
unfolding with_required_extensions
with_required_extensions_lem required supported closed future = (
  λ h id r.
      let empty = unless_missing-none (unsupported_extensions required supported) closed future h in
      ground (arith, contains-unsupported_extensions required supported id),
  λ h.
      let empty : unsupported_extensions required supported ≡ [] =
        contains-none (unsupported_extensions required supported)
          (λ id. ground (arith, h id, contains-unsupported_extensions required supported id)) in
      rw empty refl,
)
