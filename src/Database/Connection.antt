-- ===== src/Database/Connection.antt =====
-- internal/database/client.go: how the clients of the database are made and closed. What becomes
-- of each `grpc.NewClient` and of each `Close` of a connection is an argument; the open
-- connections are part of the state, since the program has to close them.
pub mod Close
pub mod Cleanup
use distributed_systems_go.Base.{
  ℕ, ◌+◌, ◌*◌, ◌==◌, ltb, Bool, not, List, [], ◌∷◌, ◌++◌, Option, none, some, if◌then◌else◌, keep,
  length, Text, text, decimal, Result, ok, err,
}
use distributed_systems_go.Database.Service.{second}

-- the open connections, by number, and the next number
pub record Network : Type 0 where
  pub opened : List ℕ
  pub next : ℕ

-- `Client`: its connection and the target of it
pub record Connection : Type 0 where
  pub number : ℕ
  pub target : Text

-- `TwoPhaseCommitClient`
pub record TwoPhaseCommitClient : Type 0 where
  pub clients : List Connection
  pub timeout : ℕ

-- `ClientFactory`, with the error of `grpc.NewClient`, if any
unfoldable pub client_factory : Option Text → Text → Network → Network × Result Connection
client_factory none addr s = (
  record { opened = s.opened ++ s.next ∷ []; next = s.next + 1 },
  ok (record { number = s.next; target = addr }),
)
client_factory (some e) addr s = (s, err (text "failed to connect to database server: " ++ e))

-- `Client.Close`: the connection is closed, whatever error is returned
unfoldable pub close : Connection → Network → Network
close c s = record { opened = keep (λ i. not (i == c.number)) s.opened; next = s.next }

-- the loop that closes the connections made so far
unfoldable pub close_made : List Connection → Network → Network
close_made [] s = s
close_made (c ∷ cs) s = close_made cs (close c s)

-- the loop of `TwoPhaseCommitClientFactory`, from index `i`, with the clients made so far
unfoldable pub connect_all :
    (ℕ → Option Text)
    → ℕ
    → List Text
    → List Connection
    → Network
    → Network × Result (List Connection)
connect_all dials i [] made s = (s, ok made)
connect_all dials i (addr ∷ addrs) made s =
    let (s', r) = client_factory (dials i) addr s in
    elim r [
      | ok c ↦ connect_all dials (i + 1) addrs (made ++ c ∷ []) s'
      | err e ↦ (
        close_made made s',
        err (text "failed to connect to database " ++ (addr ++ (text ": " ++ e))),
      )
    ]

abbrev pub with_timeout : Result (List Connection) → Result TwoPhaseCommitClient
with_timeout (ok clients) = ok (record { clients = clients; timeout = 30 * second })
with_timeout (err e) = err e

-- `TwoPhaseCommitClientFactory`
unfoldable pub two_phase_commit_client_factory :
    (ℕ → Option Text) → List Text → Network → Network × Result TwoPhaseCommitClient
two_phase_commit_client_factory dials addrs s =
    if ltb (length addrs) 2
    then (
      s,
      err (text "2PC requires at least 2 database addresses, got " ++ decimal (length addrs)),
    )
    else let (s', r) = connect_all dials 0 addrs [] s in (s', with_timeout r)

-- the latest error
abbrev pub or_last : Option Text → Option Text → Option Text
or_last none last = last
or_last (some e) last = some e

-- the loop of `TwoPhaseCommitClient.Close`, from index `i`, with `lastError`
unfoldable pub close_clients :
    (ℕ → Option Text) → ℕ → List Connection → Option Text → Network → Network × Option Text
close_clients errors i [] last s = (s, last)
close_clients errors i (c ∷ cs) last s =
    close_clients errors (i + 1) cs (or_last (errors i) last) (close c s)

-- `TwoPhaseCommitClient.Close`
unfoldable pub close_all :
    (ℕ → Option Text) → TwoPhaseCommitClient → Network → Network × Option Text
close_all errors t s = close_clients errors 0 t.clients none s
