-- ===== src/Cmd/Pipeline/Contents.antt =====
-- What the databases hold in the end, as bags of readings.
use distributed_systems_go.Base.{
  ℕ, ◌+◌, ◌≤◌, ◌≡◌, refl, sym, ap, ap₂, ◌∙◌, arith, List, [], ◌∷◌, ◌++◌, map, append-nil,
  append_assoc, length, length-append, Text, All,
}
use distributed_systems_go.Base.Int.{ℤ}
use distributed_systems_go.Base.Table.Order.{IsReordering, then_also}
use distributed_systems_go.Base.Bag.{
  Bag, of_list, put_all, put_all-IsReordering, length-IsReordering, of_path,
}
use distributed_systems_go.Types.{SensorData}
use distributed_systems_go.Rpc.{TimestampPb, KeepsTime}
use distributed_systems_go.Database.Service.{Service, trim, add_data_point_internal}
use distributed_systems_go.Database.Service.Window.{trim_within}
use distributed_systems_go.Http.Exchange.Loop.{Host, IsSound}
use distributed_systems_go.Cmd.Json.{Json}
use distributed_systems_go.Cmd.Store32.{serve_all}
use distributed_systems_go.Cmd.Gateway.{Gateway, run}
use distributed_systems_go.Cmd.Gateway.Answer.{server_url}
use distributed_systems_go.Cmd.Pipeline.{AreNew, IsCalm}
use distributed_systems_go.Cmd.Pipeline.Unordered.{
  Happening, worlds_of, arrived, events_of, CanGo, run-AreKept,
}

-- the readings that a database holds, without their order
abbrev pub contents : Service → Bag SensorData
contents s = of_list s.points

-- The database can store that many readings without dropping one.
abbrev pub HasRoom : ℕ → Service → Type 0
HasRoom n s = length s.points + n ≤ s.max_data_points

serve_all-HasRoom :
    (ds : List SensorData) (s : Service)
    → HasRoom (length ds) s
    → (serve_all ds s).points ≡ s.points ++ ds
unfolding add_data_point_internal
serve_all-HasRoom [] s room = sym (append-nil s.points)
serve_all-HasRoom (d ∷ ds) s room =
    let longer : length (s.points ++ d ∷ []) ≡ length s.points + 1 =
      length-append s.points (d ∷ []) in
    let whole : trim s.max_data_points (s.points ++ d ∷ []) ≡ s.points ++ d ∷ [] =
      trim_within s.max_data_points (s.points ++ d ∷ []) (omega arith) in
    serve_all-HasRoom ds (add_data_point_internal d s) (omega (arith, ap length whole))
    ∙ ap (λ xs. xs ++ ds) whole
    ∙ append_assoc s.points (d ∷ []) ds

contents-serve_all :
    (ds arrivals : List SensorData)
    → IsReordering ds arrivals
    → (nodes : List Service) → All (HasRoom (length arrivals)) nodes
    → map contents (map (serve_all ds) nodes) ≡ map (λ s. put_all arrivals (contents s)) nodes
unfolding put_all
contents-serve_all ds arrivals r [] room = refl
contents-serve_all ds arrivals r (s ∷ ss) room =
    let fits : HasRoom (length ds) s = rw (length-IsReordering r) (room.0) in
    ap₂ (λ b bs. b ∷ bs)
      (ap of_list (serve_all-HasRoom ds s fits) ∙ put_all-IsReordering r (contents s))
      (contents-serve_all ds arrivals r ss room.1)

module _ (pb : TimestampPb) (keeps : KeepsTime pb) (json : Json) (page address : Text) (listen : ℤ)
    (h : Host) (host : Text) (port : ℕ) (sound : IsSound h) where
  open pb use {Timestamp}

  -- A gateway that is idle, and idle again after any run in which readings arrive that it can
  -- forward and its goroutines end in any order, has put exactly these readings into every
  -- database, as a bag, if every database has room for them, the server's answers arrive as
  -- written, every call between the server and the databases is answered, nobody interferes
  -- there, and no database holds one of the transaction ids.
  pub contents-run :
      (hs : List (Happening Timestamp)) (g : Gateway) (nodes : List Service)
      → g.forwarding ≡ []
      → g.server_url ≡ server_url host port
      → All (CanGo json h host port) (arrived json hs)
      → All IsCalm (worlds_of hs)
      → AreNew (worlds_of hs) nodes
      → All (HasRoom (length (arrived json hs))) nodes
      → (run json (events_of pb json page address listen h hs) g nodes).0.forwarding ≡ []
      → map contents (run json (events_of pb json page address listen h hs) g nodes).1
        ≡ map (λ s. put_all (arrived json hs) (contents s)) nodes
  contents-run hs g nodes idle url coming calm fresh room idle' =
      let (ds, stored, kept) =
        run-AreKept pb keeps json page address listen h host port sound hs g nodes (rw idle tt)
          coming calm fresh url in
      let all_sent : IsReordering ds (arrived json hs) =
        then_also (of_path (sym (append-nil ds) ∙ ap (λ fw. ds ++ fw) (sym idle')))
          (then_also kept (of_path (ap (λ fw. fw ++ arrived json hs) idle))) in
      ap (map contents) stored ∙ contents-serve_all ds (arrived json hs) all_sent nodes room
