-- ===== src/Http/Server/Accept/Places.antt =====
-- Where the connections of a server are, and what is consistent about them.
use distributed_systems_go.Base.{
  ℕ, ◌+◌, ◌≤◌, ◌≡◌, refl, arith, ltb, ◌==◌, if◌then◌else◌, Bool, true, false, List, [], ◌∷◌, ◌++◌,
  map, length, none, some,
}
use distributed_systems_go.Http.Server.Accept.{
  Starting, not_started, listening, Stopping, waiting, returned, Conn, Loop, no_loop, accepting,
  accept_failed, loop_ended, taken, Life,
}

-- the connection that the loop has taken and not handed over
abbrev pub in_hand : Loop → List ℕ
in_hand (taken c) = c.number ∷ []
in_hand _ = []

abbrev pub count : ℕ → List ℕ → ℕ
count k [] = 0
count k (x ∷ xs) = (if x == k then 1 else 0) + count k xs

pub count-append : (k : ℕ) (xs ys : List ℕ) → count k (xs ++ ys) ≡ count k xs + count k ys
count-append k [] ys = omega arith
count-append k (x ∷ xs) ys = omega (arith, count-append k xs ys)

abbrev pub numbers_of : List Conn → List ℕ
numbers_of cs = map (λ c. c.number) cs

abbrev pub done : {A : Type 0} → List (ℕ × A) → List ℕ
done ps = map (λ p. p.0) ps

-- how often a connection is in the loop's hand, being handled, or finished
abbrev pub places : {S : Type 0} → ℕ → Life S → ℕ
places k s =
    count k (in_hand s.loop) + (count k (numbers_of s.handling) + count k (done s.finished))

-- Every accepted connection is in one place, and no other is anywhere.
abbrev pub IsOnce : {S : Type 0} → Life S → Type 0
IsOnce s = (k : ℕ) → places k s ≡ (if ltb k s.next then 1 else 0)

-- `Stop` has closed the listener.
abbrev pub is_stopping : Stopping → Bool
is_stopping waiting = true
is_stopping returned = true
is_stopping _ = false

-- `Start` has succeeded.
abbrev pub is_listening : Starting → Bool
is_listening listening = true
is_listening _ = false

abbrev pub unfinished : {S : Type 0} → Life S → ℕ
unfinished s = length (in_hand s.loop) + length s.handling

-- Once `Stop` has closed the listener, the server does not run, the listener stays closed, and `Start`
-- is over; once it has returned, at most one connection is unfinished.
pub record IsConsistent {S : Type 0} (s : Life S) : Type 0 where
  pub once : IsOnce s
  pub shut :
      is_stopping s.stopping ≡ true
      → (s.running ≡ false) × (s.listener ≡ some false) × (is_listening s.starting ≡ true)
  pub late : s.stopping ≡ returned → unfinished s ≤ 1
  pub unopened : is_listening s.starting ≡ false → (s.listener ≡ none) × (s.loop ≡ no_loop)
  pub idle : s.starting ≡ not_started → s.running ≡ false

pub true_or_false : {b : Bool} → b ≡ true → b ≡ false → ⊥
true_or_false h g = cc

pub in_hand-le : (l : Loop) → length (in_hand l) ≤ 1
in_hand-le no_loop = omega arith
in_hand-le accepting = omega arith
in_hand-le accept_failed = omega arith
in_hand-le loop_ended = omega arith
in_hand-le (taken c) = omega arith

pub one_more :
    (k n x : ℕ)
    → 0 + x ≡ (if ltb k n then 1 else 0)
    → (if n == k then 1 else 0) + 0 + x ≡ (if ltb k (n + 1) then 1 else 0)
one_more k n x h = ground arith

pub count_taken :
    (k : ℕ) (before after : List Conn) (c : Conn)
    → count k (numbers_of (before ++ c ∷ after))
      ≡ (if c.number == k then 1 else 0) + count k (numbers_of (before ++ after))
count_taken k [] after c = refl
count_taken k (b ∷ before) after c = omega (arith, count_taken k before after c)

pub length_taken :
    (before after : List Conn) (c : Conn)
    → length (before ++ c ∷ after) ≡ length (before ++ after) + 1
length_taken [] after c = omega arith
length_taken (b ∷ before) after c = omega (arith, length_taken before after c)
