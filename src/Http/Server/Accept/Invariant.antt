-- ===== src/Http/Server/Accept/Invariant.antt =====
-- What holds in every state that the goroutines of a server reach.
use distributed_systems_go.Base.{
  ℕ, ◌+◌, ◌≤◌, ◌≡◌, ◌≢◌, refl, sym, ap, ◌∙◌, arith, Bool-cases, inl, inr, true, false, List, [],
  ◌∷◌, ◌++◌, length, Option, none, some,
}
use distributed_systems_go.Http.Message.{Response}
use distributed_systems_go.Http.Server.{Server}
use distributed_systems_go.Http.Server.Accept.{
  Starting, not_started, claimed, Stopping, not_stopped, waiting, returned, stop_refused, Conn,
  Loop, no_loop, accepting, accept_failed, loop_ended, Life, StartStep, claims, listens,
  cannot_listen, StopStep, refuses, panics, closes, returns, LoopStep, accepts, fails, goes_on,
  breaks, hands_over, ConnStep, answers, no_deadline, crashes, Step, of_start, of_stop, of_loop,
  of_conn, Run, here, and_then, new_life,
}
use distributed_systems_go.Http.Server.Accept.Places.{
  in_hand, count, numbers_of, done, IsOnce, is_stopping, is_listening, unfinished, IsConsistent,
  true_or_false, in_hand-le, one_more, count_taken, length_taken,
}

module _ {S : Type 0} (server : Server S) where
  -- `Start` has not succeeded, so `Stop` has not closed the listener.
  not_shut :
      {s : Life S} (r : Starting)
      → s.starting ≡ r
      → is_listening r ≡ false
      → IsConsistent s
      → is_stopping s.stopping ≡ true
      → ⊥
  not_shut r e early h stopped = true_or_false ((h.shut stopped).2) (ap is_listening e ∙ early)

  returned-is_stopping : (r : Stopping) → r ≡ returned → is_stopping r ≡ true
  returned-is_stopping r e = ap is_stopping e

  StartStep-IsConsistent : {s t : Life S} → StartStep server s t → IsConsistent s → IsConsistent t
  StartStep-IsConsistent {s} (claims e free off) h = record {
    once = h.once;
    shut = λ stopped. absurd (not_shut not_started e refl h stopped);
    late = h.late;
    unopened = λ early. h.unopened (ap is_listening e);
    idle = λ x. absurd (cc);
  }
  StartStep-IsConsistent {s} (listens e) h =
      let no_listener = h.unopened (ap is_listening e) in
      record {
        once = λ k.
            ap
              (λ l.
                count k (in_hand l) + (count k (numbers_of s.handling) + count k (done s.finished)))
              (sym (no_listener.1))
            ∙ h.once k;
        shut = λ stopped. absurd (not_shut claimed e refl h stopped);
        late = λ x. absurd (not_shut claimed e refl h (returned-is_stopping s.stopping x));
        unopened = λ x. absurd (true_or_false refl x);
        idle = λ x. absurd (cc);
      }
  StartStep-IsConsistent {s} (cannot_listen e) h = record {
    once = h.once;
    shut = λ stopped. absurd (not_shut claimed e refl h stopped);
    late = h.late;
    unopened = λ early. h.unopened (ap is_listening e);
    idle = λ x. refl;
  }

  StopStep-IsConsistent : {s t : Life S} → StopStep server s t → IsConsistent s → IsConsistent t
  StopStep-IsConsistent {s} (refuses e off) h = record {
    once = h.once;
    shut = λ x. absurd (true_or_false x refl);
    late = λ x. absurd (cc);
    unopened = h.unopened;
    idle = h.idle;
  }
  StopStep-IsConsistent {s} (panics e on nil) h = record {
    once = h.once;
    shut = h.shut;
    late = h.late;
    unopened = h.unopened;
    idle = h.idle;
  }
  StopStep-IsConsistent {s} (closes b e on opened) h = record {
    once = h.once;
    shut = λ x. (
      refl,
      refl,
      elim (Bool-cases (is_listening s.starting)) [
        | inl on_time ↦ on_time
        | inr early ↦ let nil : s.listener ≡ none = (h.unopened early).0 in absurd (cc)
      ],
    );
    late = λ x. absurd (cc);
    unopened = λ early. let nil : s.listener ≡ none = (h.unopened early).0 in absurd (cc);
    idle = λ x. refl;
  }
  StopStep-IsConsistent {s} (returns e empty) h = record {
    once = h.once;
    shut = λ x. h.shut (ap is_stopping e);
    late = λ x. omega (arith, in_hand-le s.loop, ap length empty);
    unopened = h.unopened;
    idle = h.idle;
  }

  -- The loop has moved on from where it was with the same connection in hand.
  moved-IsConsistent :
      {s : Life S} (from to : Loop)
      → s.loop ≡ from
      → in_hand from ≡ []
      → in_hand to ≡ []
      → from ≢ no_loop
      → IsConsistent s
      → IsConsistent (record s { loop = to })
  moved-IsConsistent {s} from to e empty empty' begun h =
      let same : in_hand to ≡ in_hand s.loop = empty' ∙ sym empty ∙ sym (ap in_hand e) in
      record {
        once = λ k.
            ap (λ l. count k l + (count k (numbers_of s.handling) + count k (done s.finished))) same
            ∙ h.once k;
        shut = h.shut;
        late = λ x. omega (arith, h.late x, ap length same);
        unopened = λ early. absurd (begun (sym e ∙ (h.unopened early).1));
        idle = h.idle;
      }

  LoopStep-IsConsistent : {s t : Life S} → LoopStep server s t → IsConsistent s → IsConsistent t
  LoopStep-IsConsistent {s} (accepts request e opened) h = record {
    once = λ k. one_more k s.next (count k (numbers_of s.handling) + count k (done s.finished)) (
        ap
          (λ l. count k (in_hand l) + (count k (numbers_of s.handling) + count k (done s.finished)))
          (sym e)
        ∙ h.once k);
    shut = λ x. let closed : s.listener ≡ some false = (h.shut x).1 in absurd (cc);
    late = λ x. let closed : s.listener ≡ some false = (h.shut (ap is_stopping x)).1 in absurd (cc);
    unopened = λ early. let nil : s.listener ≡ none = (h.unopened early).0 in absurd (cc);
    idle = h.idle;
  }
  LoopStep-IsConsistent (fails e) h =
      moved-IsConsistent accepting accept_failed e refl refl (λ x. cc) h
  LoopStep-IsConsistent (goes_on e free on) h =
      moved-IsConsistent accept_failed accepting e refl refl (λ x. cc) h
  LoopStep-IsConsistent (breaks e free off) h =
      moved-IsConsistent accept_failed loop_ended e refl refl (λ x. cc) h
  LoopStep-IsConsistent {s} (hands_over c e) h =
      let held : in_hand s.loop ≡ c.number ∷ [] = ap in_hand e in
      record {
        once = λ k. omega (arith, h.once k, ap (count k) held);
        shut = h.shut;
        late = λ x. omega (arith, h.late x, ap length held);
        unopened = λ early. let no_hand : s.loop ≡ no_loop = (h.unopened early).1 in absurd (cc);
        idle = h.idle;
      }

  -- One of the goroutines ends.
  finished-IsConsistent :
      {s : Life S} (before after : List Conn) (c : Conn) (r : Option Response) (st' : S)
      → s.handling ≡ before ++ c ∷ after
      → IsConsistent s
      → IsConsistent (record s {
        handling = before ++ after;
        finished = (c.number, r) ∷ s.finished;
        state = st';
      })
  finished-IsConsistent {s} before after c r st' e h = record {
    once = λ k.
        omega (arith, h.once k, ap (λ cs. count k (numbers_of cs)) e, count_taken k before after c);
    shut = h.shut;
    late = λ x. omega (arith, h.late x, ap length e, length_taken before after c);
    unopened = h.unopened;
    idle = h.idle;
  }

  ConnStep-IsConsistent : {s t : Life S} → ConnStep server s t → IsConsistent s → IsConsistent t
  ConnStep-IsConsistent (answers before after c st' r e answered) h =
      finished-IsConsistent before after c (some r) st' e h
  ConnStep-IsConsistent {s} (no_deadline before after c e) h =
      finished-IsConsistent before after c none s.state e h
  ConnStep-IsConsistent (crashes before after c e crashed) h = record {
    once = h.once;
    shut = h.shut;
    late = h.late;
    unopened = h.unopened;
    idle = h.idle;
  }

  pub Step-IsConsistent : {s t : Life S} → Step server s t → IsConsistent s → IsConsistent t
  Step-IsConsistent (of_start live m) h = StartStep-IsConsistent m h
  Step-IsConsistent (of_stop live m) h = StopStep-IsConsistent m h
  Step-IsConsistent (of_loop live m) h = LoopStep-IsConsistent m h
  Step-IsConsistent (of_conn live m) h = ConnStep-IsConsistent m h

  pub Run-IsConsistent : {s t : Life S} {n : ℕ} → Run server s n t → IsConsistent s → IsConsistent t
  Run-IsConsistent here h = h
  Run-IsConsistent (and_then run m) h = Step-IsConsistent m (Run-IsConsistent run h)

pub new_life-IsConsistent : {S : Type 0} (st : S) → IsConsistent (new_life st)
unfolding new_life
new_life-IsConsistent st = record {
  once = λ k. ground arith;
  shut = λ x. absurd (true_or_false x refl);
  late = λ x. absurd (cc);
  unopened = λ early. (refl, refl);
  idle = λ x. refl;
}

-- What `Stop` guarantees: once it has closed the listener, the server does not run and the listener is
-- closed, and once it has returned, at most one connection is unfinished.
abbrev pub IsShut : {S : Type 0} → Stopping → Life S → Type 0
IsShut waiting s = (s.running ≡ false) × (s.listener ≡ some false)
IsShut returned s = (s.running ≡ false) × (s.listener ≡ some false) × (unfinished s ≤ 1)
IsShut _ s = Unit

IsConsistent-IsShut :
    {S : Type 0} {s : Life S} (r : Stopping) → s.stopping ≡ r → IsConsistent s → IsShut r s
IsConsistent-IsShut not_stopped e h = tt
IsConsistent-IsShut stop_refused e h = tt
IsConsistent-IsShut waiting e h =
    let (off, closed, begun) = h.shut (ap is_stopping e) in (off, closed)
IsConsistent-IsShut returned e h =
    let (off, closed, begun) = h.shut (ap is_stopping e) in (off, closed, h.late e)

-- In every state that the goroutines of a new server reach, each accepted connection is either in the
-- loop's hand, or being handled, or finished, and only once. Once `Stop` has closed the listener,
-- the server does not run and the listener stays closed; once `Stop` has returned, at most one
-- connection is unfinished.
pub new_life-IsShut :
    {S : Type 0} (server : Server S) (st : S) (n : ℕ) (t : Life S)
    → Run server (new_life st) n t
    → IsOnce t × IsShut t.stopping t
new_life-IsShut server st n t run =
    let h = Run-IsConsistent server run (new_life-IsConsistent st) in
    (h.once, IsConsistent-IsShut t.stopping refl h)
