-- ===== src/Extension/Erased.antt =====
-- wisp/src/extensions/mod.rs: what `AnyProtocolExtension` and `AnyProtocolExtensionBuilder` do with
-- a value whose type is erased: the downcasts, and the helpers for lists of such values. Both have
-- the same code, at the traits `ProtocolExtension` and `ProtocolExtensionBuilder`. A type that
-- implements the trait is a `TypeId`, and `El` gives its values. A `Box` is a raw pointer, which
-- `cast` reads at any type at all: only the pointer of a value of the type is known to give that
-- value, so the test before a cast is what makes it sound.
pub mod Typed
pub mod Lists
use epoxy_tls.Base.{◌≡◌, Bool, true, false, not, if◌then◌else◌, List, [], ◌∷◌, Option, none, some}

-- The memory behind a `Box`, as `Box::new`, `Box::into_raw` and a pointer's `cast` use it, and the
-- test of two `TypeId`s.
pub record Boxes {TypeId : Type 0} (El : TypeId → Type 0) : Type 1 where
  pub Raw : Type 0
  pub new_box : (t : TypeId) → El t → Raw
  pub read : (t : TypeId) → Raw → El t
  pub type_id_eq : TypeId → TypeId → Bool
  pub read-new_box : (t : TypeId) (v : El t) → read t (new_box t v) ≡ v
  pub type_id_eq→eq : (s t : TypeId) → type_id_eq s t ≡ true → s ≡ t
  pub type_id_eq_refl : (t : TypeId) → type_id_eq t t ≡ true

abbrev pub first {ℓ} : {A : Type ℓ} → Option A → Option A → Option A
first none rest = rest
first (some a) rest = some a

-- The rest of a list after a write to the first element, if it was of the type.
abbrev pub written {ℓ} : {A : Type ℓ} → A → List A → Option A → List A → List A
written x xs none rest = x ∷ rest
written x xs (some y) rest = y ∷ xs

abbrev pub is_none {ℓ} : {A : Type ℓ} → Option A → Bool
is_none none = true
is_none (some a) = false

module _ {TypeId : Type 0} (El : TypeId → Type 0) (boxes : Boxes El) where
  -- `Box<dyn Trait>`: the pointer beside the identifier that `__internal_type_id` gives.
  pub record AnyValue : Type 0 where
    pub type_id : TypeId
    pub raw : boxes.Raw

  -- `Err` gives the value back.
  pub data Downcast (t : TypeId) : Type 0 where
    cast : El t → Downcast t
    kept : AnyValue → Downcast t

  unfoldable pub new : (t : TypeId) → El t → AnyValue
  new t v = record { type_id = t; raw = boxes.new_box t v }

  -- `__is`
  unfoldable pub is_type : TypeId → AnyValue → Bool
  is_type t x = boxes.type_id_eq x.type_id t

  unfoldable pub downcast : (t : TypeId) → AnyValue → Downcast t
  unfolding is_type
  downcast t x = if is_type t x then cast (boxes.read t x.raw) else kept x

  unfoldable pub downcast_ref : (t : TypeId) → AnyValue → Option (El t)
  unfolding is_type
  downcast_ref t x = if is_type t x then some (boxes.read t x.raw) else none

  -- `downcast_mut`, and a write through the reference that it gives.
  unfoldable pub downcast_mut : (t : TypeId) → (El t → El t) → AnyValue → Option AnyValue
  unfolding is_type
  downcast_mut t write x =
      if is_type t x
      then some (record x { raw = boxes.new_box t (write (boxes.read t x.raw)) })
      else none

  -- `find_map` with `downcast_ref`
  unfoldable pub find_extension : (t : TypeId) → List AnyValue → Option (El t)
  unfolding downcast_ref
  find_extension t [] = none
  find_extension t (x ∷ xs) = first (downcast_ref t x) (find_extension t xs)

  -- `find_map` with `downcast_mut`, and a write through the reference.
  unfoldable pub find_extension_mut : (t : TypeId) → (El t → El t) → List AnyValue → List AnyValue
  unfolding downcast_mut
  find_extension_mut t write [] = []
  find_extension_mut t write (x ∷ xs) =
      written x xs (downcast_mut t write x) (find_extension_mut t write xs)

  -- `retain`
  unfoldable pub remove_extension : TypeId → List AnyValue → List AnyValue
  unfolding downcast_ref
  remove_extension t [] = []
  remove_extension t (x ∷ xs) =
      if is_none (downcast_ref t x) then x ∷ remove_extension t xs else remove_extension t xs
