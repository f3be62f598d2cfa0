-- ===== src/Http/Server/Routing.antt =====
-- Which handler a request reaches.
use distributed_systems_go.Base.{
  ◌≡◌, ◌≢◌, refl, ◌∙◌, sym, ap, ap₂, eq_text_ne, [], ◌∷◌, some, Text, eq_text_refl, ok, All,
}
use distributed_systems_go.Base.Table.{Table, lookup, insert, lookup-insert}
use distributed_systems_go.Http.Message.{Request}
use distributed_systems_go.Http.Server.{
  RequestHandler, Server, or_else, handler_key, wildcard, register_handler, find_handler, respond,
  handle_connection,
}

-- A method, as the request parser yields it, holds no space.
abbrev pub IsToken : Text → Type 0
IsToken = All (λ c. c ≢ b' ')

-- Two routes have one key only if they are the same route.
pub handler_key-injective :
    (m m' p p' : Text)
    → IsToken m
    → IsToken m'
    → handler_key m p ≡ handler_key m' p'
    → (m ≡ m') × (p ≡ p')
unfolding handler_key
handler_key-injective [] [] p p' h h' e = (refl, cc)
handler_key-injective [] (c ∷ m') p p' h h' e = absurd (h'.0 cc)
handler_key-injective (c ∷ m) [] p p' h h' e = absurd (h.0 cc)
handler_key-injective (c ∷ m) (c' ∷ m') p p' h h' e =
    let heads : c ≡ c' = cc in
    let tails : handler_key m p ≡ handler_key m' p' = cc in
    let (q, r) = handler_key-injective m m' p p' h.1 h'.1 tails in (ap₂ ◌∷◌ heads q, r)

module _ {S : Type 0} where
  find_handler-insert_self :
      (m p : Text) (h : RequestHandler S) (t : Table (RequestHandler S))
      → find_handler m p (insert (handler_key m p) h t) ≡ some h
  unfolding find_handler
  find_handler-insert_self m p h t = rw (lookup-insert, eq_text_refl (handler_key m p), or_else)

  lookup-insert_ne :
      (k j : Text) (h : RequestHandler S) (t : Table (RequestHandler S))
      → k ≢ j
      → lookup j (insert k h t) ≡ lookup j t
  lookup-insert_ne k j h t ne = lookup-insert k j h t ∙ rw (eq_text_ne k j ne)

  find_handler-insert_ne :
      (k m p : Text) (h : RequestHandler S) (t : Table (RequestHandler S))
      → k ≢ handler_key m p
      → k ≢ handler_key m wildcard
      → find_handler m p (insert k h t) ≡ find_handler m p t
  unfolding find_handler
  find_handler-insert_ne k m p h t exact wild = rw (
    lookup-insert_ne k (handler_key m p) h t exact,
    lookup-insert_ne k (handler_key m wildcard) h t wild,
  )

  -- A request for a registered route reaches the handler registered last for it, whatever other
  -- routes and wildcards there are.
  pub handle_connection-register :
      (method path : Text) (h : RequestHandler S) (s : Server S) (req : Request) (st : S)
      → req.method ≡ method
      → req.path ≡ path
      → handle_connection (register_handler method path h s) (ok req) st ≡ h req st
  unfolding handle_connection register_handler
  handle_connection-register method path h s req st em ep =
      ap (λ o. respond o req st)
        (ap₂ (λ m p. find_handler m p (insert (handler_key method path) h s.handlers)) em ep
          ∙ find_handler-insert_self method path h s.handlers)

  -- Registering a route changes no request for another route, unless it is the wildcard of the
  -- request's method.
  pub handle_connection-register_ne :
      (method path : Text) (h : RequestHandler S) (s : Server S) (req : Request) (st : S)
      → IsToken method
      → IsToken req.method
      → ¬ ((req.method ≡ method) × (req.path ≡ path))
      → ¬ ((req.method ≡ method) × (path ≡ wildcard))
      → handle_connection (register_handler method path h s) (ok req) st
        ≡ handle_connection s (ok req) st
  unfolding handle_connection register_handler
  handle_connection-register_ne method path h s req st tm tr other wild =
      ap (λ o. respond o req st)
        (find_handler-insert_ne (handler_key method path) req.method req.path h s.handlers
          (λ e.
            let (m, p) = handler_key-injective method req.method path req.path tm tr e in
            other (sym m, sym p))
          (λ e.
            let (m, p) = handler_key-injective method req.method path wildcard tm tr e in
            wild (sym m, p)))
