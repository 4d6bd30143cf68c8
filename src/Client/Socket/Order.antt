-- ===== src/Client/Socket/Order.antt =====
-- What the reading half of the browser's WebSocket hands on.
use epoxy_tls.Base.{
  ◌≡◌, refl, sym, ap, ◌∙◌, Bool, true, false, List, [], ◌∷◌, ◌++◌, append-nil, append_assoc, Option,
  none, some, ws_impl_socket_closed, if◌then◌else◌,
}
use epoxy_tls.Bytes.{Payload}
use epoxy_tls.Client.Socket.{
  WebSocketMessage, error, message, Reader, idle, waiting, over, WebSocketWrapper, socket_connect,
  notified, onmessage, onclose, onerror, write_closed, received, select_read, read_from,
  socket_poll_read,
}

-- What happens to the transport: the browser's calls, the write half's close, and polls.
pub data Happening : Type 0 where
  arrives : Option Payload → Happening
  closes fails write_closes : Happening
  polls : Bool → Happening

abbrev pub happen : WebSocketWrapper → Happening → WebSocketWrapper
happen s (arrives p) = onmessage s p
happen s closes = onclose s
happen s fails = onerror s
happen s write_closes = write_closed s
happen s (polls choice) = socket_poll_read s choice

abbrev pub happens : WebSocketWrapper → List Happening → WebSocketWrapper
happens s [] = s
happens s (h ∷ hs) = happens (happen s h) hs

-- The payloads that are queued.
abbrev pub payloads : List WebSocketMessage → List Payload
payloads [] = []
payloads (error ∷ ms) = payloads ms
payloads (message p ∷ ms) = p ∷ payloads ms

abbrev pub InOrder : WebSocketWrapper → Type 0
InOrder s = s.arrived ≡ s.given ++ payloads s.queue

payloads-append : (ms ns : List WebSocketMessage) → payloads (ms ++ ns) ≡ payloads ms ++ payloads ns
payloads-append [] ns = refl
payloads-append (error ∷ ms) ns = payloads-append ms ns
payloads-append (message p ∷ ms) ns = ap (◌∷◌ p) (payloads-append ms ns)

-- One more message behind the queue.
push-InOrder :
    (arrived given : List Payload) (ms : List WebSocketMessage) (m : WebSocketMessage)
    → arrived ≡ given ++ payloads ms
    → arrived ++ payloads (m ∷ []) ≡ given ++ payloads (ms ++ (m ∷ []))
push-InOrder arrived given ms m h =
    ap (λ xs. xs ++ payloads (m ∷ [])) h
    ∙ append_assoc given (payloads ms) (payloads (m ∷ []))
    ∙ ap (λ xs. given ++ xs) (sym (payloads-append ms (m ∷ [])))

received-InOrder :
    (s : WebSocketWrapper) (m : WebSocketMessage) (queue : List WebSocketMessage)
    → s.arrived ≡ s.given ++ payloads (m ∷ queue)
    → InOrder (received (record s { queue = queue }) m)
received-InOrder s error queue h = h
received-InOrder s (message p) queue h = h ∙ sym (append_assoc s.given (p ∷ []) (payloads queue))

select-InOrder :
    (s : WebSocketWrapper) (queue : List WebSocketMessage) (b choice : Bool)
    → s.queue ≡ queue
    → s.arrived ≡ s.given ++ payloads queue
    → InOrder (select_read s queue b choice)
select-InOrder s [] false choice q h = h ∙ ap (λ ms. s.given ++ payloads ms) (sym q)
select-InOrder s [] true choice q h = h ∙ ap (λ ms. s.given ++ payloads ms) (sym q)
select-InOrder s (m ∷ queue) false choice q h = received-InOrder s m queue h
select-InOrder s (m ∷ queue) true true q h = received-InOrder s m queue h
select-InOrder s (m ∷ queue) true false q h = h ∙ ap (λ ms. s.given ++ payloads ms) (sym q)

read-InOrder :
    (s : WebSocketWrapper) (r : Reader) (choice : Bool) → InOrder s → InOrder (read_from s r choice)
read-InOrder s idle choice h = closed-cases s.closed
  where
    closed-cases :
        (b : Bool)
        → InOrder (
            if b
            then record s { reader = over (some ws_impl_socket_closed) }
            else select_read s s.queue false choice)
    closed-cases true = h
    closed-cases false = select-InOrder s s.queue false choice refl h
read-InOrder s (waiting b) choice h = select-InOrder s s.queue b choice refl h
read-InOrder s (over e) choice h = h

attached-InOrder :
    (b : Bool) (s t : WebSocketWrapper) → InOrder s → InOrder t → InOrder (if b then t else s)
attached-InOrder true s t hs ht = ht
attached-InOrder false s t hs ht = hs

happen-InOrder : (s : WebSocketWrapper) (x : Happening) → InOrder s → InOrder (happen s x)
unfolding onmessage onclose onerror write_closed socket_poll_read
happen-InOrder s (arrives none) h = attached-InOrder s.attached s s h h
happen-InOrder s (arrives (some p)) h =
    attached-InOrder s.attached s _ h (push-InOrder s.arrived s.given s.queue (message p) h)
happen-InOrder s closes h = attached-InOrder s.attached s _ h h
happen-InOrder s fails h =
    attached-InOrder s.attached s _ h
      (sym (append-nil s.arrived) ∙ push-InOrder s.arrived s.given s.queue error h)
happen-InOrder s write_closes h = h
happen-InOrder s (polls choice) h = read-InOrder s s.reader choice h

-- Whatever happens, in every order: what the browser brought is what the reader has handed on, and
-- then what is still queued.
pub happens-InOrder :
    (s : WebSocketWrapper) (xs : List Happening) → InOrder s → InOrder (happens s xs)
happens-InOrder s [] h = h
happens-InOrder s (x ∷ xs) h = happens-InOrder (happen s x) xs (happen-InOrder s x h)

-- A closed socket whose reader is between two reads.
abbrev IsBetween : Reader → Type 0
IsBetween idle = Unit {0}
IsBetween (waiting b) = ⊥
IsBetween (over e) = Unit {0}

abbrev IsShut : WebSocketWrapper → Type 0
IsShut s = (s.closed ≡ true) × IsBetween s.reader

notified-IsBetween : (r : Reader) → IsBetween r → IsBetween (notified r)
notified-IsBetween idle h = tt
notified-IsBetween (over e) h = tt
notified-IsBetween (waiting b) h = absurd h

-- What keeps a shut socket shut, and gives nothing.
abbrev Silent : WebSocketWrapper → WebSocketWrapper → Type 0
Silent s t = IsShut t × (t.given ≡ s.given)

attached-Silent :
    (b : Bool) (s t : WebSocketWrapper) → IsShut s → Silent s t → Silent s (if b then t else s)
attached-Silent true s t h ht = ht
attached-Silent false s t h ht = (h, refl)

read-Silent :
    (s : WebSocketWrapper) (r : Reader) (choice : Bool)
    → s.closed ≡ true
    → s.reader ≡ r
    → IsBetween r
    → Silent s (read_from s r choice)
read-Silent s idle choice c e h = rw (c, read_from) ((refl, tt), refl)
read-Silent s (over x) choice c e h = ((c, rw e tt), refl)
read-Silent s (waiting b) choice c e h = absurd h

happen-Silent : (s : WebSocketWrapper) (x : Happening) → IsShut s → Silent s (happen s x)
unfolding onmessage onclose onerror write_closed socket_poll_read
happen-Silent s (arrives none) h = attached-Silent s.attached s s h (h, refl)
happen-Silent s (arrives (some p)) h = attached-Silent s.attached s _ h (h, refl)
happen-Silent s closes (c, h) =
    attached-Silent s.attached s _ (c, h) ((refl, notified-IsBetween s.reader h), refl)
happen-Silent s fails (c, h) =
    attached-Silent s.attached s _ (c, h) ((refl, notified-IsBetween s.reader h), refl)
happen-Silent s write_closes (c, h) = ((refl, notified-IsBetween s.reader h), refl)
happen-Silent s (polls choice) (c, h) = read-Silent s s.reader choice c refl h

happens-Silent :
    (s : WebSocketWrapper) (xs : List Happening) → IsShut s → (happens s xs).given ≡ s.given
happens-Silent s [] h = refl
happens-Silent s (x ∷ xs) h =
    let k : Silent s (happen s x) = happen-Silent s x h in happens-Silent (happen s x) xs k.0 ∙ k.1

-- In every order of what happens to a new transport, what the browser brought is what the reader has
-- handed on, and then what is queued. If it is closed then, by the browser or by an error, while the
-- reader is between two reads, nothing more is handed on, whatever follows: what is queued is lost.
pub closed_drops :
    (xs ys : List Happening)
    → (happens socket_connect xs).closed ≡ true
    → (happens socket_connect xs).reader ≡ idle
    → let s = happens socket_connect xs in
      (s.arrived ≡ s.given ++ payloads s.queue) × ((happens s ys).given ≡ s.given)
unfolding socket_connect
closed_drops xs ys c r = (
  happens-InOrder socket_connect xs refl,
  happens-Silent (happens socket_connect xs) ys (c, rw r tt),
)
