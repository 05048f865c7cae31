-- ===== src/Samples/Scripts.antt =====
-- Sessions, scripts and command lines, and the theorems on them.
use buildsyspp.Shared.{
  ◌*◌, ◌<◌, ◌≡◌, refl, inl, ◌↔◌, true, false, none, some, List, [], ◌∷◌, ◌++◌, Text, text, In,
  first, All, length, arith, split_last, behind_last, text_eq, before_text, starts_with, ◌%◌, Lacks,
}
use buildsyspp.Host.{Host}
use buildsyspp.Effects.{Outcome, ok, throws, custom, from, require, modify, ◌>>=◌}
use buildsyspp.Files.Calls.{create_directories}
use buildsyspp.Features.{FeatureMap, value_of}
use buildsyspp.Files.{content_hash}
use buildsyspp.Files.Hex.{content_hash_lem, content_hash_iff}
use buildsyspp.Git.{all_hex}
use buildsyspp.Lua.{Lua, string, returns, calls, f_depend}
use buildsyspp.Model.{PackageDepend, link}
use buildsyspp.Session.{
  find_named, members_of, add_package, with_name_space, Session, make_base_package, find_package,
  all_packages, new_progress,
}
use buildsyspp.Session.Names.{occurrences, Exists}
use buildsyspp.Session.Map.{Answers, find_package-Answers, find_package-find_package}
use buildsyspp.Script.Features.{get_feature_value, get_feature_value_lem, first_of, keys}
use buildsyspp.Script.Depend.{li_depend}
use buildsyspp.Script.Run.{process}
use buildsyspp.Script.Scope.{InScope, registry}
use buildsyspp.Script.Sequence.{IsOrderly, process-InScope, Runs, no_more, one_more}
use buildsyspp.Script.Start.{IsEmpty, make_base_package-IsOrderly, make_base_package-occurrences}
use buildsyspp.World.{ℤ, pos}
use buildsyspp.Options.{takes, add_overlay, Config, kind_of, parse_options, parse_command_line}
use buildsyspp.Options.Items.{
  Item, clean, overlay, force, parallel_packages, mirror_map, print_items, configure_all, IsWritten,
  IsUnknown,
}
use buildsyspp.Options.Printed.{
  print_features, configured, parse_command_line-print, parse_options-takes,
  parse_options-unrecognized,
}
use buildsyspp.Samples.{host, settings, packages, package_with, start}

abbrev pub empty_session : Session host
empty_session = record {
  sys = start;
  settings = record settings { overlays = (b'.' ∷ []) ∷ [] };
  features = [];
  namespaces = [];
  packages = λ q. package_with [];
  count = 0;
  units = 0;
}

pub empty_session-IsEmpty : IsEmpty host empty_session
empty_session-IsEmpty = record { no_namespaces = refl; no_packages = refl }

abbrev pub file : Text
file = b'/' ∷ b'a' ∷ []

abbrev pub session : Session host
session = (make_base_package host file empty_session).1

session-IsOrderly : IsOrderly host session
session-IsOrderly = make_base_package-IsOrderly host empty_session file empty_session-IsEmpty

-- Every package depends on the package "b".
abbrev pub lua : Lua
lua = record {
  LuaState = Unit;
  new_state = tt;
  load = λ v name content. calls v f_depend (string (b'b' ∷ []) ∷ []) (λ w a. returns w []);
  to_level = λ s. none;
  show = λ n. n ∷ [];
  as_build_dir = λ f. (packages 0).bd;
  as_fetch_unit = λ d. link [];
  filesystem_text = [];
  range_text = [];
}

session_count : session.count ≡ 1
unfolding make_base_package ◌>>=◌ from create_directories split_last behind_last
session_count = refl

session_made : 0 < session.count
session_made = omega (arith, session_count)

process-InScope_example :
    InScope
      (new_progress host)
      (registry host session)
      0
      (registry host (process host lua 0 3 session).1)
process-InScope_example = process-InScope host lua session 0 3 session-IsOrderly session_made

abbrev pub later_session : Session host
later_session = (process host lua 0 3 session).1

abbrev on_b : PackageDepend
on_b = record { target = 1; locally = false }

pub later_session_lem : ((later_session.packages 0).depends ≡ on_b ∷ []) × (later_session.count ≡ 2)
unfolding process make_base_package ◌>>=◌ from create_directories split_last behind_last li_depend
    require find_named members_of add_package with_name_space text_eq before_text starts_with text
later_session_lem = (refl, refl)

pub later_session_made : 0 < later_session.count
later_session_made = omega (arith, later_session_lem.1)

later_session-In : In on_b (later_session.packages 0).depends
later_session-In = rw later_session_lem.0 first

pub later_session-Runs : Runs host lua session later_session
later_session-Runs = one_more 0 3 session_made no_more

make_base_package-occurrences_example : occurrences 1 (all_packages later_session.namespaces) ≡ 1
make_base_package-occurrences_example =
    make_base_package-occurrences host lua empty_session later_session file 0 on_b
      empty_session-IsEmpty later_session-Runs later_session_made later_session-In

-- The namespace of the base package.
session-Exists : Exists (b'a' ∷ []) session.namespaces
unfolding make_base_package ◌>>=◌ from create_directories split_last behind_last before_text
    starts_with text with_name_space add_package text_eq
session-Exists = inl refl

find_package-Answers_example :
    Answers host session (b'a' ∷ []) (b'b' ∷ []) (find_package host (b'a' ∷ []) (b'b' ∷ []) session)
find_package-Answers_example =
    find_package-Answers host session (b'a' ∷ []) (b'b' ∷ []) session-IsOrderly.index session-Exists

abbrev with_b : Session host
with_b = (find_package host (b'a' ∷ []) (b'b' ∷ []) session).1

finds_b : find_package host (b'a' ∷ []) (b'b' ∷ []) session ≡ (ok 1, with_b)
unfolding find_package make_base_package ◌>>=◌ from create_directories split_last behind_last
    before_text starts_with text with_name_space add_package text_eq find_named members_of
finds_b = refl

find_package-find_package_example :
    find_package host (b'a' ∷ []) (b'b' ∷ []) with_b ≡ (ok 1, with_b)
find_package-find_package_example =
    find_package-find_package host session with_b (b'a' ∷ []) (b'b' ∷ []) 1 session-IsOrderly.index
      session-Exists finds_b

-- The feature "k" is set for the packages below "a".
abbrev features : FeatureMap
features = (b'a' ∷ b':' ∷ b'k' ∷ [], b'v' ∷ []) ∷ []

get_feature_value_lem_example :
    get_feature_value 5 features (b'a' ∷ b'/' ∷ b'b' ∷ []) (b'k' ∷ [])
    ≡ value_of (first_of features (keys (b'a' ∷ b'/' ∷ b'b' ∷ []) (b'k' ∷ [])))
get_feature_value_lem_example =
    get_feature_value_lem 5 features (b'a' ∷ b'/' ∷ b'b' ∷ []) (b'k' ∷ []) (omega arith)

-- Every text is the number 2.
abbrev two : Text → Outcome ℤ
two s = ok (pos 2)

abbrev config : Config
config = record {
  settings = settings;
  features = [];
  parse_only = false;
  keep_going = false;
  fetch_only = false;
  threads_limit = pos 0;
  verbose = false;
  ignored_features = [];
}

abbrev items : List Item
items =
    clean
    ∷ overlay (b'o' ∷ [])
    ∷ parallel_packages (b'2' ∷ []) (pos 2)
    ∷ force (b'p' ∷ [])
    ∷ mirror_map (b'u' ∷ []) (b'v' ∷ [])
    ∷ []

u-Lacks : Lacks b',' (b'u' ∷ [])
u-Lacks = (omega arith, tt)

v-Lacks : Lacks b',' (b'v' ∷ [])
v-Lacks = (omega arith, tt)

items-IsWritten : All (IsWritten two) items
unfolding starts_with text
items-IsWritten = (tt, (tt, (refl, (refl, (((refl, u-Lacks), (refl, v-Lacks)), tt)))))

abbrev given : FeatureMap
given = (b'k' ∷ [], b'v' ∷ []) ∷ []

given-Lacks : All (λ (kv : Text × Text). Lacks b'=' kv.0) given
given-Lacks = ((omega arith, tt), tt)

parse_command_line-print_example :
    parse_command_line two
      ((b's' ∷ []) ∷ (b't' ∷ []) ∷ (print_items items ++ text "--" ∷ print_features two given))
      config
    ≡ (ok (b't' ∷ []), configured two items given config)
parse_command_line-print_example =
    parse_command_line-print two (b's' ∷ []) (b't' ∷ []) items given config items-IsWritten
      given-Lacks

overlay_takes : kind_of two (text "--overlay") ≡ takes (λ v. modify (add_overlay v))
unfolding kind_of text text_eq
overlay_takes = refl

parse_options-takes_example :
    parse_options two (print_items items ++ text "--overlay" ∷ []) config ≡ (
      throws (custom (text "--overlay" ++ text " requires an argument")),
      configure_all items config,
    )
parse_options-takes_example =
    parse_options-takes two items (text "--overlay") (λ v. modify (add_overlay v)) config
      items-IsWritten overlay_takes

no_option : IsUnknown (text "--nothing")
unfolding text text_eq starts_with
no_option = (
  refl,
  (
    refl,
    (
      refl,
      (
        refl,
        (refl, (refl, (refl, (refl, (refl, (refl, (refl, (refl, (refl, (refl, (refl, tt))))))))))),
      ),
    ),
  ),
)

parse_options-unrecognized_example :
    parse_options two (print_items items ++ text "--nothing" ∷ (b'q' ∷ []) ∷ []) config ≡ (
      throws (custom (text "Unrecognized option: " ++ text "--nothing")),
      configure_all items config,
    )
parse_options-unrecognized_example =
    parse_options-unrecognized two items (text "--nothing") ((b'q' ∷ []) ∷ []) config
      items-IsWritten no_option

-- A digest of one byte, the number of bytes.
abbrev counting : Host
counting = record host { sha256 = λ t. (length t % 256) ∷ [] }

counting_bytes : (t : Text) → All (λ b. b < 256) (counting.sha256 t)
counting_bytes t = (omega arith, tt)

content_hash_lem_example :
    (length (content_hash counting (some (b'x' ∷ []))) ≡ 2 * 1)
    × (all_hex (content_hash counting (some (b'x' ∷ []))) ≡ true)
content_hash_lem_example = content_hash_lem counting counting_bytes (b'x' ∷ [])

content_hash_iff_example :
    (content_hash counting (some (b'x' ∷ [])) ≡ content_hash counting (some []))
    ↔ (counting.sha256 (b'x' ∷ []) ≡ counting.sha256 [])
content_hash_iff_example = content_hash_iff counting counting_bytes (b'x' ∷ []) []
