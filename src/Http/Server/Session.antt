-- ===== src/Http/Server/Session.antt =====
-- pkg/http/server.go, the connections between `Start` and `Stop`, in the order in which their handlers
-- run; Http.Server.Accept has the goroutines. A request whose parsing crashes takes the program with
-- it. `at` is the server for what a request meets, such as its time.
use distributed_systems_go.Base.{
  ◌≡◌, ◌∙◌, refl, Bool, true, false, List, [], ◌∷◌, Option, none, some, ok, err, All,
}
use distributed_systems_go.Base.Table.{Table}
use distributed_systems_go.Http.Parse.{Parsed, parsed, refused, crashed}
use distributed_systems_go.Http.Server.{RequestHandler, Server, serve}
use distributed_systems_go.Http.Server.Preserve.{Keeps, handle_connection-Keeps}

module _ {A S : Type 0} (at : A → Server S) where
  -- the state after the connections; `none` is the crash of the program
  unfoldable pub serve_each : List (A × Parsed) → S → Option S
  serve_each [] st = some st
  serve_each ((a, p) ∷ ps) st = elim (serve (at a) p st) [
    | none ↦ none
    | some (st', answer) ↦ serve_each ps st'
  ]

-- whether the parsing of one of the connections' bytes crashes
abbrev pub has_crash : {A : Type 0} → List (A × Parsed) → Bool
has_crash [] = false
has_crash ((a, crashed) ∷ ps) = true
has_crash ((a, parsed req) ∷ ps) = has_crash ps
has_crash ((a, refused e) ∷ ps) = has_crash ps

-- No connection has crashed the program, and the state after them is good; or one of them crashes it.
abbrev pub IsServed : {A S : Type 0} → (S → Type 0) → List (A × Parsed) → Option S → Type 0
IsServed P ps (some st) = (has_crash ps ≡ false) × P st
IsServed P ps none = has_crash ps ≡ true

-- What every handler keeps, the connections keep, unless one of them crashes the program.
module _ {A S : Type 0} (at : A → Server S) (P : S → Type 0)
    (keeps : (a : A) → All (Keeps P) (at a).handlers) where
  later-IsServed :
      (ps qs : List (A × Parsed)) (o : Option S)
      → has_crash qs ≡ has_crash ps
      → IsServed P ps o
      → IsServed P qs o
  later-IsServed ps qs none same h = same ∙ h
  later-IsServed ps qs (some st) same h = (same ∙ h.0, h.1)

  pub serve_each-IsServed :
      (ps : List (A × Parsed)) (st : S) → P st → IsServed P ps (serve_each at ps st)
  unfolding serve_each serve
  serve_each-IsServed [] st h = (refl, h)
  serve_each-IsServed ((a, parsed req) ∷ ps) st h =
      later-IsServed ps ((a, parsed req) ∷ ps) _ refl
        (serve_each-IsServed ps _ (handle_connection-Keeps P (at a) (ok req) st (keeps a) h))
  serve_each-IsServed ((a, refused e) ∷ ps) st h =
      later-IsServed ps ((a, refused e) ∷ ps) _ refl
        (serve_each-IsServed ps _ (handle_connection-Keeps P (at a) (err e) st (keeps a) h))
  serve_each-IsServed ((a, crashed) ∷ ps) st h = refl

pub always_kept :
    {S : Type 0} (hs : Table (RequestHandler S)) → All (Keeps (λ (st : S). Unit {0})) hs
always_kept [] = tt
always_kept (h ∷ hs) = ((λ req st p. tt), always_kept hs)
