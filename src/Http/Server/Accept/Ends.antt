-- ===== src/Http/Server/Accept/Ends.antt =====
-- `Stop` ends, whatever the order of the goroutines, and what is left when it has returned.
use distributed_systems_go.Base.{
  ℕ, ◌+◌, ◌≤◌, ◌<◌, ◌≡◌, ◌⊎◌, refl, ap, arith, Bool, Bool-cases, inl, inr, true, false, List, [],
  ◌∷◌, length, some,
}
use distributed_systems_go.Http.Server.{Server}
use distributed_systems_go.Http.Server.Accept.{
  Stopping, not_stopped, waiting, returned, stop_refused, Conn, Loop, no_loop, accepting,
  accept_failed, loop_ended, taken, Life, is_free, StartStep, claims, listens, cannot_listen,
  StopStep, refuses, panics, closes, returns, LoopStep, accepts, fails, goes_on, breaks, hands_over,
  ConnStep, answers, no_deadline, crashes, Step, of_start, of_stop, of_loop, of_conn, Run, here,
  and_then, new_life,
}
use distributed_systems_go.Http.Server.Accept.Places.{
  in_hand, is_stopping, is_listening, unfinished, IsConsistent, true_or_false, length_taken,
}
use distributed_systems_go.Http.Server.Accept.Invariant.{
  Step-IsConsistent, Run-IsConsistent, new_life-IsConsistent,
}

-- how many steps the loop can still make
abbrev pub loop_steps : Loop → ℕ
loop_steps (taken c) = 4
loop_steps accepting = 2
loop_steps accept_failed = 1
loop_steps _ = 0

abbrev pub stop_steps : Stopping → ℕ
stop_steps returned = 0
stop_steps _ = 1

abbrev pub crash_steps : Bool → ℕ
crash_steps true = 0
crash_steps false = 1

-- a bound of the steps that are left once `Stop` has closed the listener
abbrev pub steps_left : {S : Type 0} → Life S → ℕ
steps_left s = loop_steps s.loop + length s.handling + stop_steps s.stopping + crash_steps s.crashed

-- The listener is closed by `Stop`, and the state is consistent.
abbrev IsStopping : {S : Type 0} → Life S → Type 0
IsStopping s = IsConsistent s × (is_stopping s.stopping ≡ true)

module _ {S : Type 0} (server : Server S) where
  StartStep-never : {s t : Life S} → StartStep server s t → IsStopping s → ⊥
  StartStep-never (claims e free off) (h, stopped) =
      true_or_false ((h.shut stopped).2) (ap is_listening e)
  StartStep-never (listens e) (h, stopped) = true_or_false ((h.shut stopped).2) (ap is_listening e)
  StartStep-never (cannot_listen e) (h, stopped) =
      true_or_false ((h.shut stopped).2) (ap is_listening e)

  StopStep-left :
      {s t : Life S}
      → StopStep server s t
      → IsStopping s
      → (steps_left t < steps_left s) × (is_stopping t.stopping ≡ true)
  StopStep-left (refuses e off) (h, stopped) = absurd (true_or_false stopped (ap is_stopping e))
  StopStep-left (panics e on nil) (h, stopped) = absurd (true_or_false stopped (ap is_stopping e))
  StopStep-left (closes b e on opened) (h, stopped) =
      absurd (true_or_false stopped (ap is_stopping e))
  StopStep-left (returns e empty) (h, stopped) = (omega (arith, ap stop_steps e), refl)

  LoopStep-left :
      {s t : Life S}
      → LoopStep server s t
      → IsStopping s
      → (steps_left t < steps_left s) × (is_stopping t.stopping ≡ true)
  LoopStep-left {s} (accepts request e opened) (h, stopped) =
      let closed : s.listener ≡ some false = (h.shut stopped).1 in absurd (cc)
  LoopStep-left (fails e) (h, stopped) = (omega (arith, ap loop_steps e), stopped)
  LoopStep-left (goes_on e free on) (h, stopped) = absurd (true_or_false on ((h.shut stopped).0))
  LoopStep-left (breaks e free off) (h, stopped) = (omega (arith, ap loop_steps e), stopped)
  LoopStep-left (hands_over c e) (h, stopped) = (omega (arith, ap loop_steps e), stopped)

  ConnStep-left :
      {s t : Life S}
      → s.crashed ≡ false
      → ConnStep server s t
      → IsStopping s
      → (steps_left t < steps_left s) × (is_stopping t.stopping ≡ true)
  ConnStep-left live (answers before after c st' r e answered) (h, stopped) =
      (omega (arith, ap length e, length_taken before after c), stopped)
  ConnStep-left live (no_deadline before after c e) (h, stopped) =
      (omega (arith, ap length e, length_taken before after c), stopped)
  ConnStep-left live (crashes before after c e crash) (h, stopped) =
      (omega (arith, ap crash_steps live), stopped)

  Step-left :
      {s t : Life S}
      → Step server s t
      → IsStopping s
      → (steps_left t < steps_left s) × (is_stopping t.stopping ≡ true)
  Step-left (of_start live m) h = absurd (StartStep-never m h)
  Step-left (of_stop live m) h = StopStep-left m h
  Step-left (of_loop live m) h = LoopStep-left m h
  Step-left (of_conn live m) h = ConnStep-left live m h

  Run-left :
      {s t : Life S} {n : ℕ}
      → Run server s n t
      → IsStopping s
      → (n + steps_left t ≤ steps_left s) × IsStopping t
  Run-left here h = (omega arith, h)
  Run-left (and_then run m) h =
      let (fewer, still) = Run-left run h in
      let (less, stopped) = Step-left m still in
      (omega arith, (Step-IsConsistent server m still.0, stopped))

  -- Something can happen.
  abbrev pub Moves : Life S → Type 0
  Moves s = (t : Life S) × Step server s t

  -- The program has crashed, or `Stop` has returned, the loop has ended and no connection is unfinished.
  abbrev pub IsOver : Life S → Type 0
  IsOver s =
      (s.crashed ≡ true) ⊎ (s.stopping ≡ returned) × (loop_steps s.loop ≡ 0) × (unfinished s ≡ 0)

  loop-Moves :
      {s : Life S} (l : Loop)
      → s.crashed ≡ false
      → s.loop ≡ l
      → s.stopping ≡ returned
      → s.handling ≡ []
      → s.running ≡ false
      → IsOver s ⊎ Moves s
  loop-Moves no_loop live e stopped empty off = inl (
      inr
        (stopped, ap loop_steps e, omega (arith, ap length empty, ap (λ l. length (in_hand l)) e)))
  loop-Moves loop_ended live e stopped empty off = inl (
      inr
        (stopped, ap loop_steps e, omega (arith, ap length empty, ap (λ l. length (in_hand l)) e)))
  loop-Moves accepting live e stopped empty off = inr (_, of_loop live (fails e))
  loop-Moves accept_failed live e stopped empty off =
      inr (_, of_loop live (breaks e (ap is_free stopped) off))
  loop-Moves (taken c) live e stopped empty off = inr (_, of_loop live (hands_over c e))

  stop-Moves :
      {s : Life S} (r : Stopping) (cs : List Conn)
      → s.crashed ≡ false
      → s.stopping ≡ r
      → s.handling ≡ cs
      → IsStopping s
      → IsOver s ⊎ Moves s
  stop-Moves r (c ∷ cs) live e full h = inr (_, of_conn live (no_deadline [] cs c full))
  stop-Moves not_stopped [] live e empty (h, stopped) =
      absurd (true_or_false stopped (ap is_stopping e))
  stop-Moves stop_refused [] live e empty (h, stopped) =
      absurd (true_or_false stopped (ap is_stopping e))
  stop-Moves waiting [] live e empty h = inr (_, of_stop live (returns e empty))
  stop-Moves {s} returned [] live e empty (h, stopped) =
      loop-Moves s.loop live refl e empty ((h.shut stopped).0)

  IsStopping-Moves : (s : Life S) → IsStopping s → IsOver s ⊎ Moves s
  IsStopping-Moves s h = elim (Bool-cases s.crashed) [
    | inl gone ↦ inl (inl gone)
    | inr live ↦ stop-Moves s.stopping s.handling live refl refl h
  ]

  -- Once `Stop` of a new server has closed the listener, every run is at most `steps_left` steps
  -- long, and it can go on until the program has crashed, or `Stop` has returned, the loop has
  -- ended and no connection is unfinished.
  pub Run-IsOver :
      (st : S) (n m : ℕ) (s t : Life S)
      → Run server (new_life st) n s
      → is_stopping s.stopping ≡ true
      → Run server s m t
      → (m + steps_left t ≤ steps_left s) × (IsOver t ⊎ Moves t)
  Run-IsOver st n m s t start stopped run =
      let h : IsConsistent s = Run-IsConsistent server start (new_life-IsConsistent st) in
      let (fewer, still) = Run-left run (h, stopped) in (fewer, IsStopping-Moves t still)
