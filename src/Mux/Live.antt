-- ===== src/Mux/Live.antt =====
-- Every stream that can still receive is in the stream map, and none can after the multiplexor has
-- ended.
use epoxy_tls.Base.{
  ltb, ℕ, ◌+◌, ◌≡◌, inl, inr, refl, sym, ◌∙◌, ap, arith, Bool, true, false, Bool-cases, List,
  length, lookup, remove, lookup-insert, lookup-remove, get_elem?, modify, get_elem?-modify_inv,
  get_elem?-push_inv, length-modify, Option, none, some, Option-cases,
}
use epoxy_tls.Packet.Kinds.{StreamType, CloseReason}
use epoxy_tls.Stream.Info.{u32_max}
use epoxy_tls.Mux.State.{
  Mux, StreamObject, drop_sender, drop_entry, add_stream, create_stream, close_stream, close_object,
}

abbrev pub has_sender : StreamObject → Bool
has_sender o = o.channel.has_sender

-- The objects that still have a sender are those of the map.
abbrev pub Mapped : List StreamObject → List (ℕ × ℕ) → Type 0
Mapped objects streams =
    (i : ℕ) (o : StreamObject)
    → get_elem? objects i ≡ some o
    → has_sender o ≡ true
    → (id : ℕ) × (lookup id streams ≡ some i)

abbrev pub IsMapped : Mux → Type 0
IsMapped m = Mapped m.objects m.streams

-- A change of one object that does not touch its sender.
pub modify-Mapped :
    (objects : List StreamObject) (streams : List (ℕ × ℕ)) (h : ℕ) (f : StreamObject → StreamObject)
    → ((o : StreamObject) → has_sender (f o) ≡ has_sender o)
    → Mapped objects streams
    → Mapped (modify objects h f) streams
modify-Mapped objects streams h f keeps v i o e l = elim (get_elem?-modify_inv objects h i f e) [
  | inl (_, old) ↦ v i o old l
  | inr (_, (o', at, same)) ↦ v i o' at (sym (keeps o') ∙ ap has_sender (sym same) ∙ l)
]

-- An entry leaves the map when its object loses the sender.
pub remove-Mapped :
    (objects : List StreamObject) (streams : List (ℕ × ℕ)) (id h : ℕ)
    (f : StreamObject → StreamObject)
    → ((o : StreamObject) → has_sender (f o) ≡ false)
    → lookup id streams ≡ some h
    → Mapped objects streams
    → Mapped (modify objects h f) (remove id streams)
remove-Mapped objects streams id h f drops found v i o e l =
    elim (get_elem?-modify_inv objects h i f e) [
      | inl (other, old) ↦
          let (id', named) = v i o old l in (id', ground (arith, lookup-remove id' id streams))
      | inr (_, (o', _, same)) ↦ cc (drops o', ap has_sender same)
    ]

-- A new entry, where the object that it displaces loses its sender.
drop_entry-Mapped :
    (objects : List StreamObject) (streams : List (ℕ × ℕ)) (id : ℕ)
    → Mapped objects streams
    → Mapped (drop_entry objects (lookup id streams)) (remove id streams)
drop_entry-Mapped objects streams id v = elim (Option-cases (lookup id streams)) [
  | inr (h, e) ↦ rw e (remove-Mapped objects streams id h drop_sender (λ o. refl) e v)
  | inl e ↦ rw e (λ i o at l.
      let (id', named) = v i o at l in (id', ground (arith, lookup-remove id' id streams)))
]

length-drop_entry :
    (objects : List StreamObject) (h : Option ℕ) → length (drop_entry objects h) ≡ length objects
length-drop_entry objects none = refl
length-drop_entry objects (some h) = length-modify objects h drop_sender

pub add_stream-IsMapped :
    (m : Mux) (id : ℕ) (ty : StreamType) → IsMapped m → IsMapped (add_stream m id ty).0
unfolding add_stream
add_stream-IsMapped m id ty v i o e l =
    elim (get_elem?-push_inv (drop_entry m.objects (lookup id m.streams)) _ i e) [
      | inl old ↦
          let (id', named) = drop_entry-Mapped m.objects m.streams id v i o old l in
          (
            id',
            ground (
              arith,
              lookup-insert id' id (length m.objects) m.streams,
              lookup-remove id' id m.streams,
            ),
          )
      | inr (new, _) ↦ (
        id,
        ground (
          arith,
          length-drop_entry m.objects (lookup id m.streams),
          lookup-insert id id (length m.objects) m.streams,
        ),
      )
    ]

pub create_stream-IsMapped :
    (m : Mux) (ty : StreamType) → IsMapped m → IsMapped (create_stream m ty).0
unfolding create_stream
create_stream-IsMapped m ty v = elim (Bool-cases (ltb m.current_id u32_max)) [
  | inl small ↦
      rw small
        (add_stream-IsMapped (record m { current_id = m.current_id + 1 }) (m.current_id + 1) ty v)
  | inr full ↦ rw full v
]

pub close_entry-IsMapped :
    (m : Mux) (id : ℕ) (reason : CloseReason) (h : ℕ)
    → lookup id m.streams ≡ some h
    → IsMapped m
    → IsMapped (close_stream (record m { streams = remove id m.streams }) h reason)
unfolding close_stream
close_entry-IsMapped m id reason h found v =
    remove-Mapped m.objects m.streams id h (close_object reason) (λ o. refl) found v
