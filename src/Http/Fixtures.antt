-- ===== src/Http/Fixtures.antt =====
-- Test data: the surroundings of a server with a small memory.
use distributed_systems_go.Base.{text, arith}
use distributed_systems_go.Base.Table.Order.{IsReordering-refl}
use distributed_systems_go.Http.Parse.{eof}
use distributed_systems_go.Http.Exchange.Loop.{Host, IsSound}

abbrev pub host : Host
host = record { memory = 1000; quote = λ t. t; end = eof; visit = λ t. t; date = text "now" }

pub host-IsSound : IsSound host
unfolding text
host-IsSound = (λ t. IsReordering-refl t, ground arith)
