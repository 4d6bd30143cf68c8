-- ===== src/Server/Proxy/Path.antt =====
-- The request that the path of the legacy proxy names.
use mathlib.Core.Path.{subst}
use epoxy_tls.Base.{
  ℕ, ◌≡◌, ◌⊎◌, inl, inr, refl, sym, ap, ◌∙◌, arith, Bool, false, ◌==◌, if◌then◌else◌, List, [], ◌∷◌,
  ◌++◌, append_assoc, All, some, Bool-cases, Option-cases,
}
use epoxy_tls.Bytes.Utf8.{Text}
use epoxy_tls.Packet.Kinds.{tcp, udp}
use epoxy_tls.Packet.Codec.{ConnectPacket}
use epoxy_tls.Server.Config.Ports.{parse_u16}
use epoxy_tls.Server.Http.{split_parts}
use epoxy_tls.Server.Proxy.{last_part, path_end, packet_of, host_and_port, with_port, proxy_request}

-- No separator is in the text.
abbrev pub IsWhole : ℕ → Text → Type 0
IsWhole sep s = All (λ c. (c == sep) ≡ false) s

-- The text from its parts.
abbrev Joined : ℕ → Text → Text × List Text → Type 0
Joined sep s (p, []) = s ≡ p
Joined sep s (p, q ∷ qs) =
    (later : Text) × (s ≡ p ++ (sep ∷ later)) × (split_parts sep later ≡ (q, qs))

abbrev Cut : ℕ → Text → Text × List Text → Type 0
Cut sep s r = IsWhole sep r.0 × Joined sep s r

cons-Cut :
    (sep c : ℕ) (s p : Text) (ps : List Text)
    → (c == sep) ≡ false
    → Cut sep s (p, ps)
    → Cut sep (c ∷ s) (c ∷ p, ps)
cons-Cut sep c s p [] h (w, e) = ((h, w), ap (◌∷◌ c) e)
cons-Cut sep c s p (q ∷ qs) h (w, (later, e, k)) = ((h, w), (later, ap (◌∷◌ c) e, k))

split_parts-Cut : (sep : ℕ) (s : Text) → Cut sep s (split_parts sep s)
split_parts-Cut sep [] = (tt, refl)
split_parts-Cut sep (c ∷ s) = elim (Bool-cases (c == sep)) [
  | inl is ↦ let same : c ≡ sep = ground arith in rw is (tt, (s, ap (λ x. x ∷ s) same, refl))
  | inr is_not ↦
      rw is_not (
        cons-Cut sep c s (split_parts sep s).0 (split_parts sep s).1 is_not (split_parts-Cut sep s))
]

-- What stands behind the last separator, or the whole text if there is none.
abbrev pub EndsWith : ℕ → Text → Text → Type 0
EndsWith sep s name = IsWhole sep name × ((s ≡ name) ⊎ ((dir : Text) × (s ≡ dir ++ (sep ∷ name))))

prepend-EndsWith :
    (sep : ℕ) (p later name : Text)
    → EndsWith sep later name
    → EndsWith sep (p ++ (sep ∷ later)) name
prepend-EndsWith sep p later name (w, inl e) = (w, inr (p, ap (λ x. p ++ (sep ∷ x)) e))
prepend-EndsWith sep p later name (w, inr (dir, e)) = (
  w,
  inr (
    p ++ (sep ∷ dir),
    ap (λ x. p ++ (sep ∷ x)) e ∙ sym (append_assoc p (sep ∷ dir) (sep ∷ name)),
  ),
)

last_part-EndsWith :
    (sep : ℕ) (ps : List Text) (p s : Text)
    → split_parts sep s ≡ (p, ps)
    → EndsWith sep s (last_part p ps)
last_part-EndsWith sep [] p s e =
    let (w, j) = subst (Cut sep s) e (split_parts-Cut sep s) in (w, inl j)
last_part-EndsWith sep (q ∷ qs) p s e =
    let (w, (later, j, k)) = subst (Cut sep s) e (split_parts-Cut sep s) in
    subst (λ t. EndsWith sep t (last_part q qs)) (sym j)
      (prepend-EndsWith sep p later (last_part q qs) (last_part-EndsWith sep qs q later k))

-- The text of the host, that of the port and what is ignored behind another colon.
abbrev pub IsHostPort : Text → Text → Text → Type 0
IsHostPort name host port =
    IsWhole b':' host
    × IsWhole b':' port
    × ((name ≡ host ++ (b':' ∷ port))
        ⊎ ((rest : Text) × (name ≡ host ++ (b':' ∷ (port ++ (b':' ∷ rest))))))

-- The last part of the path reads `host:port`, the port is a number, and the request is for these.
abbrev pub Names : Text → Bool → ConnectPacket → Type 0
Names path udp_ k =
    (name : Text) × (port : Text) × EndsWith b'/' path name
    × IsHostPort name k.host port
    × (parse_u16 port ≡ some k.port)
    × (k.stream_type ≡ (if udp_ then udp else tcp))

joined-IsHostPort :
    (name host port later : Text) (rest : List Text)
    → IsWhole b':' host
    → name ≡ host ++ (b':' ∷ later)
    → split_parts b':' later ≡ (port, rest)
    → IsHostPort name host port
joined-IsHostPort name host port later [] w e k =
    let (v, j) = subst (Cut b':' later) k (split_parts-Cut b':' later) in
    (w, v, inl (e ∙ ap (λ x. host ++ (b':' ∷ x)) j))
joined-IsHostPort name host port later (q ∷ qs) w e k =
    let (v, (more, j, _)) = subst (Cut b':' later) k (split_parts-Cut b':' later) in
    (w, v, inr (more, e ∙ ap (λ x. host ++ (b':' ∷ x)) j))

packet_of-some :
    (udp_ : Bool) (name host : Text) (parts : List Text) (k : ConnectPacket)
    → Cut b':' name (host, parts)
    → packet_of udp_ (host_and_port (host, parts)) ≡ some k
    → (port : Text) × IsHostPort name k.host port
      × (parse_u16 port ≡ some k.port)
      × (k.stream_type ≡ (if udp_ then udp else tcp))
packet_of-some udp_ name host [] k c h = cc
packet_of-some udp_ name host (port ∷ rest) k (w, (later, e, j)) h =
    elim (Option-cases (parse_u16 port)) [
      | inl missing ↦ absurd (ground arith)
      | inr (n, is) ↦
          let same : with_port udp_ host n ≡ k = ground arith in
          (
            port,
            subst (λ x. IsHostPort name x port) (ap (λ x. x.host) same)
                (joined-IsHostPort name host port later rest w e j),
            is ∙ ap (λ x. some x.port) same,
            sym (ap (λ x. x.stream_type) same),
          )
    ]

-- Whatever the path: the request that is made of it is one that it names.
pub proxy_request-Names :
    (path : Text) (udp_ : Bool) (k : ConnectPacket)
    → proxy_request path udp_ ≡ some k
    → Names path udp_ k
unfolding proxy_request
proxy_request-Names path udp_ k h =
    let name = path_end (split_parts b'/' path) in
    let r = split_parts b':' name in
    let (port, parts, number, kind) =
      packet_of-some udp_ name r.0 r.1 k (split_parts-Cut b':' name) h in
    (
      name,
      port,
      last_part-EndsWith b'/' (split_parts b'/' path).1 (split_parts b'/' path).0 path refl,
      parts,
      number,
      kind,
    )
