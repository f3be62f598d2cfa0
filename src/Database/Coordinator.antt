-- ===== src/Database/Coordinator.antt =====
-- internal/database/client.go, the type `TwoPhaseCommitClient`: the coordinator. Its clients are
-- represented by the servers that they are connected to, in order. What happens on the way to a
-- server is given for each call: the requests of others (and the ticks of the clean-up) that the
-- server handles before the call arrives, the fate of the call, and the server's clock.
pub mod Node
pub mod Decision
pub mod Commit
pub mod Rollback
pub mod Split
pub mod Ids
use distributed_systems_go.Base.{
  ℕ, ◌+◌, ◌-◌, ◌/◌, ◌%◌, ◌&&◌, ltb, Bool, true, false, List, [], ◌∷◌, ◌++◌, Option, none, some,
  if◌then◌else◌, ◌==◌, length, Text, text, decimal, Result, ok, err,
}
use distributed_systems_go.Types.{Time, SensorData}
use distributed_systems_go.Rpc.{TimestampPb, PrepareResponse}
use distributed_systems_go.Database.Service.{Service}
use distributed_systems_go.Database.Service.Request.{Request, run}
use distributed_systems_go.Database.Client.{
  Fate, prepare_transaction, commit_transaction, abort_transaction, get_all_data_points,
  get_data_point_by_sensor_id,
}

pub record Call (T : Type 0) : Type 0 where
  pub meanwhile : List (Request T)
  pub fate : Fate
  pub now : Time
  pub when : Time

-- the calls of each of the three loops, by the index of the client
pub record Plan (T : Type 0) : Type 0 where
  pub prepares : ℕ → Call T
  pub commits : ℕ → Call T
  pub aborts : ℕ → Call T

-- the lower-case hexadecimal digit of a number below 16, and `hex.EncodeToString`
unfoldable pub hex_digit : ℕ → ℕ
hex_digit n = if ltb n 10 then b'0' + n else b'a' + (n - 10)

unfoldable pub hex_encode : List ℕ → Text
unfolding hex_digit
hex_encode [] = []
hex_encode (b ∷ bs) = hex_digit (b / 16) ∷ hex_digit (b % 16) ∷ hex_encode bs

-- `generateTransactionID`, on the 16 bytes of `rand.Read`, or on the clock if that fails
unfoldable pub generate_transaction_id : Option (List ℕ) → ℕ → Text
generate_transaction_id (some bytes) unix_nano = text "txn_" ++ hex_encode bytes
generate_transaction_id none unix_nano = text "txn_" ++ decimal unix_nano

-- `err == nil && resp.Success`; a call that returns no error returns a response
abbrev pub voted_yes : Result PrepareResponse → Bool
voted_yes (ok r) = r.success
voted_yes (err _) = false

-- the loop that looks for a client that is not prepared
unfoldable pub all_prepared : List (Result PrepareResponse) → Bool
all_prepared [] = true
all_prepared (v ∷ vs) = voted_yes v && all_prepared vs

-- `fmt.Sprintf("%v", lastError)`
abbrev pub show_error : Option Text → Text
show_error none = text "<nil>"
show_error (some e) = e

-- what `err` leaves of `lastError`
abbrev pub later_error : Result (Unit {0}) → Option Text → Option Text
later_error (ok _) last = last
later_error (err e) last = some e

abbrev pub count_ok : Result (Unit {0}) → ℕ → ℕ
count_ok (ok _) n = n + 1
count_ok (err _) n = n

-- the error of `commitAll`
unfoldable pub partial_commit : Text → ℕ → ℕ → Option Text → Text
partial_commit id count total last =
    text "transaction "
    ++ (id
        ++ (text ": only "
            ++ (decimal count
                ++ (text " of "
                    ++ (decimal total
                        ++ (text " databases committed successfully, last error: "
                            ++ show_error last))))))

-- the error of `abortAll`, which always returns one
unfoldable pub abort_error : Text → Option Text → Text
abort_error id none =
    text "transaction " ++ (id ++ text " was aborted due to prepare phase failures")
abort_error id (some e) =
    text "transaction " ++ (id ++ (text " aborted, but some abort operations failed: " ++ e))

module _ (pb : TimestampPb) where
  open pb use {Timestamp}

  -- the server when the call arrives
  abbrev pub arrive : Call Timestamp → Service → Service
  arrive c s = run pb c.meanwhile s

  -- the loop of phase 1: every client is asked, also after a refusal
  unfoldable pub prepare_loop :
      (ℕ → Call Timestamp)
      → ℕ
      → Text
      → SensorData
      → List Service
      → List Service × List (Result PrepareResponse)
  prepare_loop calls i id d [] = ([], [])
  prepare_loop calls i id d (s ∷ ss) =
      let c = calls i in
      let (s', vote) = prepare_transaction pb c.fate c.now c.when id d (arrive c s) in
      let (ss', votes) = prepare_loop calls (i + 1) id d ss in (s' ∷ ss', vote ∷ votes)

  -- the loop of `commitAll`, with `successCount` and `lastError` so far
  unfoldable pub commit_loop :
      (ℕ → Call Timestamp)
      → ℕ
      → Text
      → ℕ
      → Option Text
      → List Service
      → List Service × ℕ × Option Text
  commit_loop calls i id count last [] = ([], count, last)
  commit_loop calls i id count last (s ∷ ss) =
      let c = calls i in
      let (s', r) = commit_transaction c.fate id (arrive c s) in
      let (ss', count', last') =
        commit_loop calls (i + 1) id (count_ok r count) (later_error r last) ss in
      (s' ∷ ss', count', last')

  -- the loop of `abortAll`, with `lastError` so far (its count is only logged)
  unfoldable pub abort_loop :
      (ℕ → Call Timestamp) → ℕ → Text → Option Text → List Service → List Service × Option Text
  abort_loop calls i id last [] = ([], last)
  abort_loop calls i id last (s ∷ ss) =
      let c = calls i in
      let (s', r) = abort_transaction c.fate id (arrive c s) in
      let (ss', last') = abort_loop calls (i + 1) id (later_error r last) ss in (s' ∷ ss', last')

  unfoldable pub commit_all :
      (ℕ → Call Timestamp) → Text → List Service → List Service × Result (Unit {0})
  commit_all calls id nodes =
      let (nodes', count, last) = commit_loop calls 0 id 0 none nodes in
      (
        nodes',
        if count == length nodes then ok tt else err (partial_commit id count (length nodes) last),
      )

  unfoldable pub abort_all :
      (ℕ → Call Timestamp) → Text → List Service → List Service × Result (Unit {0})
  abort_all calls id nodes =
      let (nodes', last) = abort_loop calls 0 id none nodes in (nodes', err (abort_error id last))

  -- `AddDataPointWithTwoPhaseCommit`, on the generated id
  unfoldable pub add_data_point_with_two_phase_commit :
      Plan Timestamp → Text → SensorData → List Service → List Service × Result (Unit {0})
  add_data_point_with_two_phase_commit plan id d nodes =
      let (prepared, votes) = prepare_loop plan.prepares 0 id d nodes in
      if all_prepared votes
      then commit_all plan.commits id prepared
      else abort_all plan.aborts id prepared

  -- `TwoPhaseCommitClient.GetAllDataPoints` asks the first server only.
  unfoldable pub get_all_from_first : Fate → List Service → Result (List SensorData)
  get_all_from_first fate [] = err (text "no database clients available")
  get_all_from_first fate (s ∷ ss) = (get_all_data_points pb fate s).1

  -- `TwoPhaseCommitClient.GetDataPointBySensorId` asks the first server only.
  unfoldable pub get_sensor_from_first : Fate → Text → List Service → Result (List SensorData)
  get_sensor_from_first fate id [] = err (text "no database clients available")
  get_sensor_from_first fate id (s ∷ ss) = (get_data_point_by_sensor_id pb fate id s).1
