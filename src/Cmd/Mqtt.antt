-- ===== src/Cmd/Mqtt.antt =====
-- What cmd/gateway and cmd/sensor ask of the MQTT library: the options of a client, and the topics
-- that a subscription matches. A broker's test of a topic against a filter is a parameter;
-- `KeepsLevels` says what MQTT prescribes for `+`.
use distributed_systems_go.Base.{ℕ, ◌≡◌, ◌⊎◌, Bool, true, List, [], ◌∷◌, ◌++◌, Option, Text, All}
use distributed_systems_go.Http.Strings.Split.{Without}

-- the options that the code sets, with durations in nanoseconds
pub record ClientOptions : Type 0 where
  pub broker : Text
  pub client_id : Text
  pub clean_session : Bool
  pub auto_reconnect : Bool
  pub keep_alive : Option ℕ
  pub ping_timeout : Option ℕ

-- levels with slashes between them
abbrev pub join_levels : List Text → Text
join_levels [] = []
join_levels (l ∷ []) = l
join_levels (l ∷ m ∷ ls) = l ++ (b'/' ∷ join_levels (m ∷ ls))

-- A level of a topic: it holds no slash and no wildcard, and is not reserved.
abbrev pub IsLevel : Text → Type 0
IsLevel t = Without b'/' t × Without b'+' t × Without b'#' t × Without b'$' t

-- The levels of a filter without `#` match those of a topic one by one.
abbrev pub IsMatch : List Text → List Text → Type 0
IsMatch [] [] = Unit
IsMatch [] (t ∷ ts) = ⊥
IsMatch (f ∷ fs) [] = ⊥
IsMatch (f ∷ fs) (t ∷ ts) = ((f ≡ b'+' ∷ []) ⊎ (f ≡ t)) × IsMatch fs ts

-- A broker's test of a filter and a topic treats `+` as MQTT prescribes.
pub record KeepsLevels (matches : Text → Text → Bool) : Type 0 where
  pub level_match :
      (fs ts : List Text)
      → All (Without b'/') fs
      → All IsLevel ts
      → IsMatch fs ts
      → matches (join_levels fs) (join_levels ts) ≡ true
