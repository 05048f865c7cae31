-- ===== src/Samples/Requires.antt =====
-- A package's script that requires another script.
use buildsyspp.Shared.{
  ℕ, Option, ◌≢◌, ◌<◌, ◌≡◌, refl, subst, inl, inr, Bool, true, false, none, some, List, [], ◌∷◌,
  ◌++◌, Text, text, All, arith, ends_with, Bool-cases, Option-cases, text_eq, if◌then◌else◌,
  starts_with, split_last, behind_last,
}
use buildsyspp.Host.{Host}
use buildsyspp.Effects.{ok, exhausted, from, require, pure, gets, ◌>>=◌}
use buildsyspp.Files.{first_existing, package_paths, search_paths, relative_fetch_path}
use buildsyspp.Files.Calls.{create_directories}
use buildsyspp.Session.{Session, on_sys, make_base_package}
use buildsyspp.Lua.{Lua, Script, f_require, string, returns, calls}
use buildsyspp.Script.{current, fetch_path}
use buildsyspp.Script.Ending.{IsLayered}
use buildsyspp.Script.Running.{Asks}
use buildsyspp.Script.Run.{process, required}
use buildsyspp.Script.Sequence.{IsOrderly, process-ends}
use buildsyspp.Script.Start.{make_base_package-IsOrderly}
use buildsyspp.Samples.{host, settings, package_with, fresh}
use buildsyspp.Samples.Scripts.{lua, file}

abbrev lua_ending : Text
lua_ending = text ".lua"

abbrev in_library : Text → Bool
in_library = ends_with lua_ending

abbrev holds : Text → Option Text
holds f = if in_library f then some [] else some (b'r' ∷ [])

-- A disk on which the package's file requires "b", and a library requires nothing.
abbrev scripted : Host
scripted = record host { read_file = λ f d. holds f }

abbrev requires : Bool → Text → Script Bool
requires v name = calls v f_require (string name ∷ []) (λ w a. returns w [])

-- Where `require` does not stand under its name, a script asks for itself.
abbrev run_content : Bool → Option Text → Script Bool
run_content false content = requires false (b'a' ∷ [])
run_content true none = returns true []
run_content true (some []) = returns true []
run_content true (some (c ∷ cs)) = requires true (b'b' ∷ [])

abbrev requiring : Lua
requiring = record lua {
  LuaState = Bool;
  new_state = true;
  load = λ v name content. run_content v content;
}

abbrev rank : Text → ℕ
rank f = if in_library f then 0 else 1

ends_with-append : (p pre s : Text) → ends_with p s ≡ true → ends_with p (pre ++ s) ≡ true
unfolding ends_with
ends_with-append p [] s e = e
ends_with-append p (c ∷ pre) s e = ground (arith, ends_with-append p pre s e)

paths_end :
    (ovs : List Text) (name location : Text)
    → in_library location ≡ true
    → All (λ (p : Text). in_library p ≡ true) (package_paths scripted ovs name location true)
unfolding package_paths
paths_end [] name location e = tt
paths_end (ov ∷ ovs) name location e = (
  ends_with-append lua_ending ov _ (
      ends_with-append lua_ending (text "/package/") _
        (ends_with-append lua_ending name _ (ends_with-append lua_ending (b'/' ∷ []) location e))),
  (
    ends_with-append lua_ending ov _ (ends_with-append lua_ending (b'/' ∷ []) location e),
    paths_end ovs name location e,
  ),
)

first_ends :
    (ps : List Text) (d : scripted.Disk) (x : Text)
    → All (λ (p : Text). in_library p ≡ true) ps
    → first_existing scripted ps d ≡ some x
    → in_library x ≡ true
unfolding first_existing
first_ends [] d x k e = cc
first_ends (p ∷ ps) d x k e = subst (λ y. in_library y ≡ true) {x = p} {y = x} (cc e) k.0

-- What `require` looks for.
abbrev b_file : Text
b_file = b'b' ∷ text ".lua"

b_file_ends : in_library b_file ≡ true
unfolding ends_with text text_eq
b_file_ends = refl

abbrev paths_of : Session scripted → List Text
paths_of s = package_paths scripted s.settings.overlays (s.packages 0).name b_file true

required_ends :
    (s t : Session scripted) (fname path : Text)
    → required scripted requiring 0 (string (b'b' ∷ []) ∷ []) s ≡ (ok (some (fname, path)), t)
    → in_library path ≡ true
unfolding required fetch_path on_sys relative_fetch_path search_paths current gets from require pure
    ◌>>=◌ starts_with text
required_ends s t fname path e =
    elim (Option-cases (first_existing scripted (paths_of s) s.sys.disk)) [
      | inl n ↦ absurd (ground (arith, n, e))
      | inr (x, n) ↦
          subst (λ y. in_library y ≡ true) {x = x} {y = path} (ground (arith, n, e))
            (first_ends (paths_of s) s.sys.disk x
              (paths_end s.settings.overlays (s.packages 0).name b_file b_file_ends) n)
    ]

scripted-layered :
    (v : Bool) (name : Text)
    → v ≡ true
    → Asks scripted requiring 0
        (λ w. w ≡ true)
        (λ f. Unit × (rank f < rank name))
        (run_content v (holds name))
scripted-layered v name sane = elim (Bool-cases (in_library name)) [
  | inl e ↦ rw (sane, e) refl
  | inr e ↦
      rw (sane, e)
        (
          refl,
          (
            λ s t fname path k. (tt, rw (required_ends s t fname path k) (omega arith)),
            λ w a fine. fine,
          ),
        )
]

scripted-IsLayered : IsLayered scripted requiring 0 rank (λ f. Unit) (λ v. v ≡ true) holds
scripted-IsLayered = record {
  constant = λ f d _. refl;
  initial = refl;
  layered = λ v name sane _. scripted-layered v name sane;
}

abbrev empty_session : Session scripted
empty_session = record {
  sys = record {
    disk = 0;
    progress = λ q. fresh;
    dl_objects = [];
    gd_objects = [];
    unit_hash = λ u. [];
    unit_fetched = λ u. false;
  };
  settings = record settings { overlays = (b'.' ∷ []) ∷ [] };
  features = [];
  namespaces = [];
  packages = λ q. package_with [];
  count = 0;
  units = 0;
}

abbrev session : Session scripted
session = (make_base_package scripted file empty_session).1

session-IsOrderly : IsOrderly scripted session
session-IsOrderly =
    make_base_package-IsOrderly scripted empty_session file
      (record { no_namespaces = refl; no_packages = refl })

session_count : (session.count ≡ 1) × (rank (session.packages 0).file ≡ 1)
unfolding make_base_package ◌>>=◌ from create_directories split_last behind_last ends_with text
    text_eq
session_count = (refl, refl)

process-ends_example : (process scripted requiring 0 2 session).0 ≢ exhausted
process-ends_example =
    process-ends scripted requiring session 0 2 rank (λ f. Unit) (λ v. v ≡ true) holds
      session-IsOrderly (omega (arith, session_count.0)) scripted-IsLayered tt
      (omega (arith, session_count.1))
