-- ===== src/Extension/Erased/Lists.antt =====
-- The list helpers of wisp/src/extensions/mod.rs.
use epoxy_tls.Base.{
  ◌≡◌, ◌≢◌, refl, sym, ap, ◌∙◌, ◌⊎◌, inl, inr, All, Bool-cases, List, [], ◌∷◌, ◌++◌, none, some,
}
use epoxy_tls.Extension.Erased.{
  Boxes, AnyValue, new, is_type, first, downcast_ref, find_extension, find_extension_mut,
  remove_extension,
}
use epoxy_tls.Extension.Erased.Typed.{
  downcast_ref-new, downcast_mut-new, downcast_ref-ne, downcast_mut-ne,
}

module _ {TypeId : Type 0} (El : TypeId → Type 0) (boxes : Boxes El) (t : TypeId) where
  abbrev Any : Type 0
  Any = AnyValue El boxes

  abbrev OtherType : Any → Type 0
  OtherType x = x.type_id ≢ t

  find-first :
      (pre post : List Any) (v : El t)
      → All OtherType pre
      → find_extension El boxes t (pre ++ (new El boxes t v ∷ post)) ≡ some v
  unfolding find_extension
  find-first [] post v h = rw (downcast_ref-new El boxes t v)
  find-first (x ∷ pre) post v (hx, h) =
      rw (downcast_ref-ne El boxes t x hx) (find-first pre post v h)

  find_mut-first :
      (pre post : List Any) (v : El t) (f : El t → El t)
      → All OtherType pre
      → find_extension_mut El boxes t f (pre ++ (new El boxes t v ∷ post))
        ≡ pre ++ (new El boxes t (f v) ∷ post)
  unfolding find_extension_mut
  find_mut-first [] post v f h = rw (downcast_mut-new El boxes t f v)
  find_mut-first (x ∷ pre) post v f (hx, h) =
      rw (downcast_mut-ne El boxes t f x hx) (ap (◌∷◌ x) (find_mut-first pre post v f h))

  -- The head is removed if it is of the type, and kept otherwise.
  remove-head :
      (x : Any) (xs : List Any)
      → ((x.type_id ≡ t) × (remove_extension El boxes t (x ∷ xs) ≡ remove_extension El boxes t xs))
        ⊎ ((x.type_id ≢ t)
            × (remove_extension El boxes t (x ∷ xs) ≡ x ∷ remove_extension El boxes t xs))
  unfolding remove_extension downcast_ref is_type
  remove-head x xs = elim (Bool-cases (boxes.type_id_eq x.type_id t)) [
    | inl is ↦ inl (boxes.type_id_eq→eq x.type_id t is, rw is refl)
    | inr is_not ↦ inr (
      λ p.
          let same = ap (λ s. boxes.type_id_eq s t) p ∙ boxes.type_id_eq_refl t in
          cc (same, is_not),
      rw is_not refl,
    )
  ]

  find-remove_self :
      (xs : List Any) → find_extension El boxes t (remove_extension El boxes t xs) ≡ none
  unfolding find_extension
  find-remove_self [] = unfold remove_extension in refl
  find-remove_self (x ∷ xs) = elim (remove-head x xs) [
    | inl (p, e) ↦ rw e (find-remove_self xs)
    | inr (n, e) ↦ rw e (rw (downcast_ref-ne El boxes t x n) (find-remove_self xs))
  ]

  find-remove_ne :
      (s : TypeId) (xs : List Any)
      → s ≢ t
      → find_extension El boxes s (remove_extension El boxes t xs) ≡ find_extension El boxes s xs
  unfolding find_extension
  find-remove_ne s [] h = unfold remove_extension in refl
  find-remove_ne s (x ∷ xs) h = elim (remove-head x xs) [
    | inl (p, e) ↦
        rw e (rw (downcast_ref-ne El boxes s x (λ q. h (sym q ∙ p))) (find-remove_ne s xs h))
    | inr (n, e) ↦ rw e (ap (first (downcast_ref El boxes s x)) (find-remove_ne s xs h))
  ]

  -- In a list whose first value of a type is `v`: finding the type gives `v`, and a write through
  -- the reference that is found changes `v` alone. After a removal of the type it is not found, and
  -- what is found of another type is the same as before.
  pub find_extension_lem :
      (s : TypeId) (pre post : List Any) (v : El t) (f : El t → El t)
      → All OtherType pre
      → s ≢ t
      → let xs = pre ++ (new El boxes t v ∷ post) in
        (find_extension El boxes t xs ≡ some v)
        × (find_extension_mut El boxes t f xs ≡ pre ++ (new El boxes t (f v) ∷ post))
        × (find_extension El boxes t (remove_extension El boxes t xs) ≡ none)
        × (find_extension El boxes s (remove_extension El boxes t xs)
            ≡ find_extension El boxes s xs)
  find_extension_lem s pre post v f h n = (
    find-first pre post v h,
    find_mut-first pre post v f h,
    find-remove_self (pre ++ (new El boxes t v ∷ post)),
    find-remove_ne s (pre ++ (new El boxes t v ∷ post)) n,
  )
