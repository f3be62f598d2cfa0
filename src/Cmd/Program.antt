-- ===== src/Cmd/Program.antt =====
-- How far a program of cmd has come: ended by `log.Fatalf` with its text, ended by a panic, at work, or
-- at the end of `main`.
use distributed_systems_go.Base.{Text}

pub data Exit (A : Type 0) : Type 0 where
  fatal : Text → Exit A
  panicked : Exit A
  at_work : A → Exit A
  finished : A → Exit A
