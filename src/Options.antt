-- ===== src/Options.antt =====
-- src/options.cpp: the command line. What it sets are the static members of src/include/buildsys.h
-- (`Settings`), the features, and the fields of the World.
-- `argv` is the list of the arguments, the program's name first; `stoi` is std::stoi.
pub mod Items
pub mod Printed
use buildsyspp.Shared.{
  ℕ, Bool, true, false, Option, none, some, List, [], ◌∷◌, ◌++◌, Text, text, text_eq, starts_with,
  if◌then◌else◌,
}
use buildsyspp.Effects.{
  Outcome, Action, custom, pure, throw, modify, gets, from, ok, throws, exhausted, ◌>>=◌, ◌>>◌,
}
use buildsyspp.Features.{FeatureMap, set_feature_from}
use buildsyspp.Git.{add_ref_if_able_pattern}
use buildsyspp.Model.{Settings}
use buildsyspp.World.{ℤ}

-- `ignored_features` is the local variable of that name.
pub record Config : Type 0 where
  pub settings : Settings
  pub features : FeatureMap
  pub parse_only : Bool
  pub keep_going : Bool
  pub fetch_only : Bool
  pub threads_limit : ℤ
  pub verbose : Bool
  pub ignored_features : List Text

abbrev pub Parsing : Type 0 → Type 0
Parsing A = Action Config A

abbrev pub with_settings : (Settings → Settings) → Config → Config
with_settings f c = record c { settings = f c.settings }

-- Package::add_overlay_path at the end.
abbrev pub add_overlay : Text → Config → Config
add_overlay path = with_settings (λ s. record s { overlays = s.overlays ++ path ∷ [] })

abbrev pub add_forced : Text → Config → Config
add_forced name = with_settings (λ s. record s { forced_packages = s.forced_packages ++ name ∷ [] })

abbrev pub ignore_feature : Text → Config → Config
ignore_feature f c = record c { ignored_features = c.ignored_features ++ f ∷ [] }

-- What an argument is: an option that sets something, an option that takes the next argument, the
-- end of the options, a name that begins with "--" and is no option, or a package to force.
pub data Kind : Type 0 where
  sets : (Config → Config) → Kind
  takes : (Text → Parsing (Unit {0})) → Kind
  dash_dash unrecognized forced : Kind

-- GitExtractionUnit::add_ref_if_able_pattern, with its exception.
unfoldable pub map_mirror : Text → Parsing (Unit {0})
unfolding add_ref_if_able_pattern
map_mirror pattern = do
  pairs ← gets (λ c. add_ref_if_able_pattern pattern c.settings.git_ref_if_able_pairs)
  new ← from pairs (custom (text "--git-local-mirror-map expects 'prefix,replacement'"))
  modify (with_settings (λ s. record s { git_ref_if_able_pairs = new }))

abbrev pub unless_thrown : {A B : Type 0} → Outcome A → (A → Parsing B) → Parsing B
unless_thrown (ok a) f c = f a c
unless_thrown (throws e) f c = (throws e, c)
unless_thrown exhausted f c = (exhausted, c)

abbrev pub limited : ℤ → Config → Config
limited n c =
    with_settings (λ s. record s { extract_in_parallel = false }) (record c { threads_limit = n })

-- The tests of the loop, in their order.
unfoldable pub kind_of : (Text → Outcome ℤ) → Text → Kind
unfolding map_mirror
kind_of stoi a =
    if text_eq a (text "--clean")
    then sets (with_settings (λ s. record s { clean_all_packages = true }))
    else if text_eq a (text "--cache-server")
    then takes (λ v. modify (with_settings (λ s. record s { build_cache = v })))
    else if text_eq a (text "--tarball-cache")
    then takes (λ v. modify (with_settings (λ s. record s { tarball_cache = v })))
    else if text_eq a (text "--overlay")
    then takes (λ v. modify (add_overlay v))
    else if text_eq a (text "--build-info-ignore-fv")
    then takes (λ v. modify (ignore_feature v))
    else if text_eq a (text "--parse-only")
    then sets (λ c. record c { parse_only = true })
    else if text_eq a (text "--keep-going")
    then sets (λ c. record c { keep_going = true })
    else if text_eq a (text "--fetch-only")
    then sets (λ c. record c { fetch_only = true })
    else if text_eq a (text "--quietly")
    then sets (with_settings (λ s. record s { quiet_packages = true }))
    else if text_eq a (text "--verbose")
    then sets (λ c. record c { verbose = true })
    else if text_eq a (text "--keep-staging")
    then sets (with_settings (λ s. record s { keep_staging = true }))
    else if text_eq a (text "--parallel-packages")
    then takes (λ v. unless_thrown (stoi v) (λ n. modify (limited n)))
    else if text_eq a (text "--git-local-mirror-map")
    then takes map_mirror
    else if text_eq a (text "--")
    then dash_dash
    else if starts_with (text "--") a
    then unrecognized
    else forced

module _ (stoi : Text → Outcome ℤ) where
  abbrev refuse : Text → Parsing (List Text)
  refuse a = throw (custom (text "Unrecognized option: " ++ a))

  -- The first argument, with the value that follows it and what comes then.
  abbrev pub step :
      Kind
      → Text
      → Text
      → Parsing (List Text)
      → List Text
      → Parsing (List Text)
      → Parsing (List Text)
  step (sets f) a v next rest after = modify f >> next
  step (takes f) a v next rest after = f v >> after
  step dash_dash a v next rest after = pure rest
  step unrecognized a v next rest after = refuse a
  step forced a v next rest after = modify (add_forced a) >> next

  -- The last argument.
  abbrev pub last_step : Kind → Text → Parsing (List Text)
  last_step (sets f) a = modify f >> pure []
  last_step (takes f) a = throw (custom (a ++ text " requires an argument"))
  last_step dash_dash a = pure []
  last_step unrecognized a = refuse a
  last_step forced a = modify (add_forced a) >> pure []

  -- The loop over the options. It returns what stands behind "--".
  unfoldable pub parse_options : List Text → Parsing (List Text)
  unfolding kind_of
  parse_options [] = pure []
  parse_options (a ∷ []) = last_step (kind_of stoi a) a
  parse_options (a ∷ (v ∷ rest)) =
      step (kind_of stoi a) a v (parse_options (v ∷ rest)) (v ∷ rest) (parse_options rest)

  abbrev set_or_throw : Bool × FeatureMap → Parsing (Unit {0})
  set_or_throw (true, m) = modify (λ c. record c { features = m })
  set_or_throw (false, m) =
      throw (custom (text "setFeature Failed: Features must be described as feature=value"))

  unfoldable pub set_features : List Text → Parsing (Unit {0})
  unfolding set_feature_from
  set_features [] = pure tt
  set_features (kv ∷ kvs) = do
    r ← gets (λ c. set_feature_from kv c.features)
    set_or_throw r
    set_features kvs

  -- BuildDescription::set_ignored_features
  abbrev pub ignore_all : Config → Config
  ignore_all c = with_settings (λ s. record s { ignored_features = c.ignored_features }) c

  unfoldable pub parse_arguments : Text → List Text → Parsing Text
  unfolding parse_options set_features
  parse_arguments target args = do
    features ← parse_options args
    set_features features
    modify ignore_all
    pure target

  unfoldable pub parse_command_line : List Text → Parsing Text
  unfolding parse_arguments
  parse_command_line [] = throw (custom (text "At least 1 parameter is required"))
  parse_command_line (program ∷ []) = throw (custom (text "At least 1 parameter is required"))
  parse_command_line (program ∷ (target ∷ args)) =
      modify (λ c. record c { ignored_features = [] }) >> parse_arguments target args
