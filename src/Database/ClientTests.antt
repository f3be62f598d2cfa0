-- ===== src/Database/ClientTests.antt =====
-- The performance test of one client, and the clients of two servers.
use distributed_systems_go.Base.{
  ℕ, ◌+◌, ◌≡◌, refl, [], ◌∷◌, Option, none, some, arith, Text, text, ◌==◌, if◌then◌else◌, List,
}
use distributed_systems_go.Database.Client.{delivered}
use distributed_systems_go.Database.Client.Performance.{Probe}
use distributed_systems_go.Database.Connection.{
  Network, two_phase_commit_client_factory, client_factory, connect_all, close_made, close,
}
use distributed_systems_go.Database.Connection.Cleanup.{
  IsClean, two_phase_commit_client_factory-IsClean,
}

abbrev answered : ℕ → Probe
answered i = record { fate = delivered; now = 100; started = 90; rtt = 5 + i }

abbrev network : Network
network = record { opened = 0 ∷ 1 ∷ []; next = 2 }

abbrev three_servers : List Text
three_servers = text "a:1" ∷ text "b:2" ∷ text "c:3" ∷ []

-- the third connection fails
abbrev third_fails : ℕ → Option Text
third_fails i = if i == 2 then some (text "no route") else none

two_phase_commit_client_factory-IsClean_example :
    IsClean third_fails network.opened three_servers
      (two_phase_commit_client_factory third_fails three_servers network)
two_phase_commit_client_factory-IsClean_example =
    two_phase_commit_client_factory-IsClean third_fails three_servers network
      (omega arith, (omega arith, tt))

-- Both connections that were made are closed again.
third_fails_run :
    (two_phase_commit_client_factory third_fails three_servers network).0
    ≡ record { opened = 0 ∷ 1 ∷ []; next = 4 }
unfolding two_phase_commit_client_factory client_factory connect_all close_made close
third_fails_run = refl
