-- ===== src/Extension/Erased/Typed.antt =====
-- The casts of wisp/src/extensions/mod.rs keep types apart.
use epoxy_tls.Base.{◌≡◌, ◌≢◌, refl, false, none, some, Bool-cases, inl, inr}
use epoxy_tls.Extension.Erased.{
  Boxes, AnyValue, cast, kept, new, is_type, downcast, downcast_ref, downcast_mut,
}

module _ {TypeId : Type 0} (El : TypeId → Type 0) (boxes : Boxes El) where
  abbrev Any : Type 0
  Any = AnyValue El boxes

  type_id_eq-ne : (s t : TypeId) → s ≢ t → boxes.type_id_eq s t ≡ false
  type_id_eq-ne s t n = elim (Bool-cases (boxes.type_id_eq s t)) [
    | inl is ↦ absurd (n (boxes.type_id_eq→eq s t is))
    | inr is_not ↦ is_not
  ]

  downcast-new : (t : TypeId) (v : El t) → downcast El boxes t (new El boxes t v) ≡ cast v
  unfolding downcast is_type new
  downcast-new t v = rw (boxes.type_id_eq_refl t, boxes.read-new_box t v) refl

  downcast-ne :
      (s t : TypeId) (w : El s)
      → s ≢ t
      → downcast El boxes t (new El boxes s w) ≡ kept (new El boxes s w)
  unfolding downcast is_type new
  downcast-ne s t w n = rw (type_id_eq-ne s t n) refl

  pub downcast_ref-new :
      (t : TypeId) (v : El t) → downcast_ref El boxes t (new El boxes t v) ≡ some v
  unfolding downcast_ref is_type new
  downcast_ref-new t v = rw (boxes.type_id_eq_refl t, boxes.read-new_box t v) refl

  pub downcast_mut-new :
      (t : TypeId) (f : El t → El t) (v : El t)
      → downcast_mut El boxes t f (new El boxes t v) ≡ some (new El boxes t (f v))
  unfolding downcast_mut is_type new
  downcast_mut-new t f v = rw (boxes.type_id_eq_refl t, boxes.read-new_box t v) refl

  pub downcast_ref-ne : (t : TypeId) (x : Any) → x.type_id ≢ t → downcast_ref El boxes t x ≡ none
  unfolding downcast_ref is_type
  downcast_ref-ne t x n = rw (type_id_eq-ne x.type_id t n) refl

  pub downcast_mut-ne :
      (t : TypeId) (f : El t → El t) (x : Any) → x.type_id ≢ t → downcast_mut El boxes t f x ≡ none
  unfolding downcast_mut is_type
  downcast_mut-ne t f x n = rw (type_id_eq-ne x.type_id t n) refl

  new-type_id : (s : TypeId) (w : El s) → (new El boxes s w).type_id ≡ s
  unfolding new
  new-type_id s w = refl

  ne-new : (s t : TypeId) (w : El s) → s ≢ t → (new El boxes s w).type_id ≢ t
  unfolding new
  ne-new s t w n = n

  -- A value is cast back to the type that it was made from and unchanged, by value, by reference and
  -- by a reference that is written through. No pointer is read at another type: a cast of a value that
  -- was made from another type gives the value back or nothing.
  pub downcast_typed :
      (s t : TypeId) (v : El t) (w : El s) (f : El t → El t)
      → s ≢ t
      → (downcast El boxes t (new El boxes t v) ≡ cast v)
        × (downcast_ref El boxes t (new El boxes t v) ≡ some v)
        × (downcast_mut El boxes t f (new El boxes t v) ≡ some (new El boxes t (f v)))
        × (downcast El boxes t (new El boxes s w) ≡ kept (new El boxes s w))
        × (downcast_ref El boxes t (new El boxes s w) ≡ none)
        × (downcast_mut El boxes t f (new El boxes s w) ≡ none)
  downcast_typed s t v w f n = (
    downcast-new t v,
    downcast_ref-new t v,
    downcast_mut-new t f v,
    downcast-ne s t w n,
    downcast_ref-ne t (new El boxes s w) (ne-new s t w n),
    downcast_mut-ne t f (new El boxes s w) (ne-new s t w n),
  )
