-- ===== src/Sinks.antt =====
-- internal/sink: the sinks for exchanges, over what opening, writing and closing a file do to an
-- unknown state. `Built` says which sinks a configuration gives.
pub mod Built
use mathlib.Core.Option.{Option, none, some}
use mathlib.Core.Logic.{◌⊎◌, inl, inr}
use mathlib.Core.List.{List, [], ◌∷◌}
use aitori.Base.{Bool, is_empty, if◌then◌else◌}
use aitori.Base.Text.{Str, codes, str_eq}
use aitori.Config.{SinkConfig, redact_on}
use aitori.Observe.{Exchange, maybe_redact}

-- `Stdout` and `File`, with their `redact`.
pub data Sink : Type 0 where
  stdout : Bool → Sink
  file : Str → Bool → Sink

-- The files of the system and the standard error output; a line is an exchange.
pub record Output (W : Type 0) : Type 0 where
  pub open_file : Str → W → W × Option Str
  pub append : Str → Exchange → W → W
  pub append_stderr : Exchange → W → W
  pub close_file : Str → W → W × Option Str

module _ {W : Type 0} (out : Output W) where
  opened : Str → Bool → W × Option Str → W × (Str ⊎ Sink)
  opened path redact (w, none) = (w, inr (file path redact))
  opened path redact (w, some e) = (w, inl e)

  -- `NewFile`.
  unfoldable pub new_file : Str → Bool → W → W × (Str ⊎ Sink)
  unfolding opened
  new_file path redact w =
      if is_empty path
      then (w, inl (codes "file sink requires a path"))
      else opened path redact (out.open_file path w)

  -- `Record` of the two sinks.
  unfoldable pub record_one : Sink → Exchange → W → W
  record_one (stdout redact) e w = out.append_stderr (maybe_redact e redact) w
  record_one (file path redact) e w = out.append path (maybe_redact e redact) w

  -- `Close` of the two sinks.
  unfoldable pub close_one : Sink → W → W × Option Str
  close_one (stdout redact) w = (w, none)
  close_one (file path redact) w = out.close_file path w

  -- `Record` of `Multi`.
  unfoldable pub record_all : List Sink → Exchange → W → W
  unfolding record_one
  record_all [] e w = w
  record_all (s ∷ sinks) e w = record_all sinks e (record_one s e w)

  first_error : Option Str → Option Str → Option Str
  first_error none second = second
  first_error (some e) second = some e

  -- `Close` of `Multi`: every sink is closed, and the first error is returned.
  unfoldable pub close_all : List Sink → W → W × Option Str
  unfolding close_one first_error
  close_all [] w = (w, none)
  close_all (s ∷ sinks) w =
      let one = close_one s w in
      let others = close_all sinks one.0 in (others.0, first_error one.1 others.1)

  behind : Sink → W × (Str ⊎ List Sink) → W × (Str ⊎ List Sink)
  behind s (w, inl e) = (w, inl e)
  behind s (w, inr sinks) = (w, inr (s ∷ sinks))

  then_sink : W × (Str ⊎ Sink) → (W → W × (Str ⊎ List Sink)) → W × (Str ⊎ List Sink)
  unfolding behind
  then_sink (w, inl e) others = (w, inl e)
  then_sink (w, inr s) others = behind s (others w)

  -- The loop of `Build`; an entry of another type is passed over.
  unfoldable pub build_each : List SinkConfig → W → W × (Str ⊎ List Sink)
  unfolding then_sink new_file redact_on str_eq
  build_each [] w = (w, inr [])
  build_each (c ∷ cfgs) w =
      let others = λ (v : W). build_each cfgs v in
      if str_eq c.kind (codes "stdout")
      then then_sink (w, inr (stdout (redact_on c))) others
      else if str_eq c.kind (codes "file")
      then then_sink (new_file c.path (redact_on c) w) others
      else others w

  no_sinks : Str ⊎ List Sink → Str ⊎ Option (List Sink)
  no_sinks (inl e) = inl e
  no_sinks (inr []) = inr none
  no_sinks (inr (s ∷ sinks)) = inr (some (s ∷ sinks))

  -- `Build`; a nil sink is `none`.
  unfoldable pub build : List SinkConfig → W → W × (Str ⊎ Option (List Sink))
  unfolding build_each no_sinks
  build cfgs w = let built = build_each cfgs w in (built.0, no_sinks built.1)
