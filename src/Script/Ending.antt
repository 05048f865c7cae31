-- ===== src/Script/Ending.antt =====
-- The processing of a package keeps to its scope, and ends where its scripts are layered.
use buildsyspp.Shared.{ℕ, zero, suc, ◌<◌, ◌≡◌, Option, Text, arith}
use buildsyspp.Host.{Host}
use buildsyspp.BuildInfo.{add_package_file}
use buildsyspp.Effects.{gets, out_of_fuel}
use buildsyspp.Effects.Keeps.{
  Keeps, Keeps-bind, Keeps-gets, Keeps-gets_bind, Keeps-out_of_fuel, Holds-keeps, Holds-bind, kept,
}
use buildsyspp.Lua.{Lua, Answer, values, error, Script, returns, raises, calls}
use buildsyspp.Script.{current}
use buildsyspp.Script.Scope.{Registry, Scope}
use buildsyspp.Script.Kept.{describe-Keeps, hashed}
use buildsyspp.Script.Run.{process_file, processed, process}
use buildsyspp.Script.Running.{Asks, RunsWell, run_script-Holds}

module _ (E : Type 0) (h : Host) (lua : Lua) (z : Registry) (q : ℕ) (made : q < z.count) where
  processed-Keeps : (r : lua.LuaState × Answer) → Keeps E (Scope h z q) (processed h lua q r)
  unfolding processed
  processed-Keeps (v, values vs) = search kept
  processed-Keeps (v, error message) = search kept

  -- The package's file is that of the beginning.
  process-Keeps_if :
      (fuel : ℕ)
      → Keeps E (Scope h z q) (process_file h lua q fuel lua.new_state (z.packages q).file)
      → Keeps E (Scope h z q) (process h lua q fuel)
  unfolding process current
  process-Keeps_if fuel one = Keeps-gets_bind _ _ (λ s i.
      Keeps-bind _ _ (hashed E h lua z q made _) (λ hash.
        Keeps-bind _ _
          (describe-Keeps E h lua z q made (add_package_file (s.packages q).file_short hash))
          (λ _. Keeps-bind _ _ (rw i.own.same_file one) processed-Keeps)))

module _ (h : Host) (lua : Lua) (z : Registry) (q : ℕ) (made : q < z.count) where
  Asks-any : (p : Script lua.LuaState) → Asks h lua q (λ _. Unit) (λ _. Unit) p
  Asks-any (returns v vs) = tt
  Asks-any (raises v message) = tt
  Asks-any (calls v f args k) = (tt, ((λ s t fname file e. tt), (λ w a _. Asks-any (k w a))))

  -- With any fuel.
  any_fuel :
      (fuel : ℕ) (v : lua.LuaState) (file : Text)
      → RunsWell Unit h lua z q made (λ _. Unit) (process_file h lua q fuel v file)
  unfolding process_file out_of_fuel
  any_fuel zero v file = record { keeps = Keeps-out_of_fuel tt; given = λ s i a t e. cc }
  any_fuel (suc fuel) v file =
      Holds-bind (λ _. Unit) _ _ _ (Holds-keeps _ (Keeps-gets _))
        (λ content _.
          run_script-Holds Unit h lua z q made (λ _. Unit) (λ _. Unit) (process_file h lua q fuel)
            (λ w f _ _. any_fuel fuel w f) (lua.load v file content) (Asks-any _))

  pub process-Keeps : (fuel : ℕ) → Keeps Unit (Scope h z q) (process h lua q fuel)
  process-Keeps fuel =
      process-Keeps_if Unit h lua z q made fuel
        (any_fuel fuel lua.new_state (z.packages q).file).keeps

-- What is taken of the scripts for their processing to end: the files that are scripts hold `source`,
-- in every state that the host's disk can have, since the program never writes them; Lua begins in a
-- sane state, in which the program's functions stand under their names; and a script that is loaded
-- in such a state requires scripts of a lower rank only, and leaves Lua in such a state.
pub record IsLayered (h : Host) (lua : Lua) (q : ℕ) (rank : Text → ℕ) (IsScript : Text → Type 0)
    (Sane : lua.LuaState → Type 0) (source : Text → Option Text) : Type 0 where
  pub constant : (file : Text) (d : h.Disk) → IsScript file → h.read_file file d ≡ source file
  pub initial : Sane lua.new_state
  pub layered :
      (v : lua.LuaState) (file : Text)
      → Sane v
      → IsScript file
      → Asks h lua q Sane (λ f. IsScript f × (rank f < rank file)) (lua.load v file (source file))

module _ (h : Host) (lua : Lua) (z : Registry) (q : ℕ) (made : q < z.count) (rank : Text → ℕ)
    (IsScript : Text → Type 0) (Sane : lua.LuaState → Type 0) (source : Text → Option Text)
    (layers : IsLayered h lua q rank IsScript Sane source) where
  enough_fuel :
      (fuel : ℕ) (v : lua.LuaState) (file : Text)
      → rank file < fuel
      → Sane v
      → IsScript file
      → RunsWell ⊥ h lua z q made Sane (process_file h lua q fuel v file)
  unfolding process_file gets
  enough_fuel zero v file less sane script = absurd (omega (arith, less))
  enough_fuel (suc fuel) v file less sane script =
      Holds-bind (λ content. content ≡ source file) _ _ _
        (record {
          keeps = Keeps-gets _;
          given = λ s i a t e. cc (e, layers.constant file s.sys.disk script);
        })
        (λ content same.
          run_script-Holds ⊥ h lua z q made Sane (λ f. IsScript f × (rank f < rank file))
            (process_file h lua q fuel)
            (λ w f fine l. enough_fuel fuel w f (omega (arith, l.1, less)) fine l.0)
            (lua.load v file content) (rw same (layers.layered v file sane script)))

  pub process-Keeps_enough :
      (fuel : ℕ)
      → IsScript (z.packages q).file
      → rank (z.packages q).file < fuel
      → Keeps ⊥ (Scope h z q) (process h lua q fuel)
  process-Keeps_enough fuel script less =
      process-Keeps_if ⊥ h lua z q made fuel
        (enough_fuel fuel lua.new_state (z.packages q).file less layers.initial script).keeps
