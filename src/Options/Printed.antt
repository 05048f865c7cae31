-- ===== src/Options/Printed.antt =====
-- A command line that is written from the options, and what the parser makes of it.
use buildsyspp.Shared.{
  ℕ, ◌≡◌, refl, ◌∙◌, true, false, none, some, List, [], ◌∷◌, ◌++◌, append_assoc, Text, text,
  text_eq, starts_with, Lacks, Bool-cases, inl, inr, text_eq_sound, split_first, split_first-append,
  arith, All,
}
use buildsyspp.Effects.{Outcome, ok, throws, custom, ◌>>=◌, modify, pure, gets, from, throw}
use buildsyspp.Features.{FeatureMap, set_feature, set_feature_from}
use buildsyspp.Git.{add_ref_if_able_pattern}
use buildsyspp.World.{ℤ}
use buildsyspp.Options.{
  Config, Parsing, sets, takes, unrecognized, forced, kind_of, map_mirror, parse_options,
  set_features, parse_arguments, parse_command_line,
}
use buildsyspp.Options.Items.{
  Item, clean, parse_only, keep_going, fetch_only, quietly, verbose, keep_staging, cache_server,
  tarball_cache, overlay, ignore_fv, force, parallel_packages, mirror_map, print_item, print_items,
  configure, configure_all, IsWritten, IsUnknown,
}

-- A name that is no option is none of the texts that begin like one.
other_text :
    (v t : Text)
    → starts_with (text "--") v ≡ false
    → starts_with (text "--") t ≡ true
    → text_eq v t ≡ false
other_text v t a b = elim (Bool-cases (text_eq v t)) [
  | inl e ↦ cc (a, b, text_eq_sound v t e)
  | inr e ↦ e
]

split_first-Lacks : (c : ℕ) (s : Text) → Lacks c s → split_first c s ≡ none
unfolding split_first
split_first-Lacks c [] h = refl
split_first-Lacks c (x ∷ s) h = ground (arith, split_first-Lacks c s h.1)

set_from :
    (k v : Text) (m : FeatureMap)
    → Lacks b'=' k
    → set_feature_from (k ++ b'=' ∷ v) m ≡ (true, set_feature k v true m)
unfolding set_feature_from
set_from k v m h = rw (split_first-append b'=' k v h, set_feature_from) refl

module _ (stoi : Text → Outcome ℤ) where
  kind_of-force : (v : Text) → starts_with (text "--") v ≡ false → kind_of stoi v ≡ forced
  unfolding kind_of text starts_with
  kind_of-force v h =
      rw
        (
          other_text v (text "--clean") h refl,
          other_text v (text "--cache-server") h refl,
          other_text v (text "--tarball-cache") h refl,
          other_text v (text "--overlay") h refl,
          other_text v (text "--build-info-ignore-fv") h refl,
          other_text v (text "--parse-only") h refl,
          other_text v (text "--keep-going") h refl,
          other_text v (text "--fetch-only") h refl,
          other_text v (text "--quietly") h refl,
          other_text v (text "--verbose") h refl,
          other_text v (text "--keep-staging") h refl,
          other_text v (text "--parallel-packages") h refl,
          other_text v (text "--git-local-mirror-map") h refl,
          other_text v (text "--") h refl,
          h,
        )
        refl

  kind_of-IsUnknown : (a : Text) → IsUnknown a → kind_of stoi a ≡ unrecognized
  unfolding kind_of
  kind_of-IsUnknown a
        (
          h,
          (
            e1,
            (e2, (e3, (e4, (e5, (e6, (e7, (e8, (e9, (e10, (e11, (e12, (e13, (e14, e))))))))))))),
          ),
        ) =
      rw (e1, e2, e3, e4, e5, e6, e7, e8, e9, e10, e11, e12, e13, e14, h) refl

  after_sets :
      (a : Text) (f : Config → Config) (more : List Text) (c : Config)
      → kind_of stoi a ≡ sets f
      → parse_options stoi (a ∷ more) c ≡ parse_options stoi more (f c)
  unfolding parse_options ◌>>=◌ modify pure
  after_sets a f [] c e = rw e refl
  after_sets a f (v ∷ more) c e = rw e refl

  after_forced :
      (a : Text) (more : List Text) (c : Config)
      → kind_of stoi a ≡ forced
      → parse_options stoi (a ∷ more) c ≡ parse_options stoi more (configure (force a) c)
  unfolding parse_options ◌>>=◌ modify pure
  after_forced a [] c e = rw e refl
  after_forced a (v ∷ more) c e = rw e refl

  after_takes :
      (a v : Text) (f : Text → Parsing (Unit {0})) (more : List Text) (c d : Config)
      → kind_of stoi a ≡ takes f
      → f v c ≡ (ok tt, d)
      → parse_options stoi (a ∷ (v ∷ more)) c ≡ parse_options stoi more d
  unfolding parse_options ◌>>=◌
  after_takes a v f more c d e k = rw (e, k) refl

  add_pattern :
      (prefix replacement : Text) (pairs : List (Text × Text))
      → IsWritten stoi (mirror_map prefix replacement)
      → add_ref_if_able_pattern (prefix ++ b',' ∷ replacement) pairs
        ≡ some (pairs ++ (prefix, replacement) ∷ [])
  unfolding add_ref_if_able_pattern
  add_pattern prefix replacement pairs ((a, b), (d, e)) =
      rw
        (
          split_first-append b',' prefix replacement b,
          add_ref_if_able_pattern,
          split_first-Lacks b',' replacement e,
          a,
          d,
        )
        refl

  map_mirror_lem :
      (prefix replacement : Text) (c : Config)
      → IsWritten stoi (mirror_map prefix replacement)
      → map_mirror (prefix ++ b',' ∷ replacement) c
        ≡ (ok tt, configure (mirror_map prefix replacement) c)
  unfolding map_mirror gets from pure modify ◌>>=◌
  map_mirror_lem prefix replacement c w =
      rw (add_pattern prefix replacement c.settings.git_ref_if_able_pairs w) refl

  parse_options-item :
      (i : Item) (more : List Text) (c : Config)
      → IsWritten stoi i
      → parse_options stoi (print_item i ++ more) c ≡ parse_options stoi more (configure i c)
  unfolding kind_of text text_eq modify
  parse_options-item clean more c w = after_sets (text "--clean") _ more c refl
  parse_options-item (cache_server v) more c w =
      after_takes (text "--cache-server") v _ more c _ refl refl
  parse_options-item parse_only more c w = after_sets (text "--parse-only") _ more c refl
  parse_options-item keep_going more c w = after_sets (text "--keep-going") _ more c refl
  parse_options-item fetch_only more c w = after_sets (text "--fetch-only") _ more c refl
  parse_options-item quietly more c w = after_sets (text "--quietly") _ more c refl
  parse_options-item verbose more c w = after_sets (text "--verbose") _ more c refl
  parse_options-item keep_staging more c w = after_sets (text "--keep-staging") _ more c refl
  parse_options-item (tarball_cache v) more c w =
      after_takes (text "--tarball-cache") v _ more c _ refl refl
  parse_options-item (overlay v) more c w = after_takes (text "--overlay") v _ more c _ refl refl
  parse_options-item (ignore_fv v) more c w =
      after_takes (text "--build-info-ignore-fv") v _ more c _ refl refl
  parse_options-item (force v) more c w = after_forced v more c (kind_of-force v w)
  parse_options-item (parallel_packages v n) more c w =
      after_takes (text "--parallel-packages") v _ more c _ refl (rw w refl)
  parse_options-item (mirror_map prefix replacement) more c w =
      after_takes (text "--git-local-mirror-map") (prefix ++ b',' ∷ replacement) map_mirror more c _
        refl (map_mirror_lem prefix replacement c w)

  pub parse_options-items :
      (is : List Item) (more : List Text) (c : Config)
      → All (IsWritten stoi) is
      → parse_options stoi (print_items is ++ more) c ≡ parse_options stoi more (configure_all is c)
  parse_options-items [] more c w = refl
  parse_options-items (i ∷ is) more c w =
      rw
        (
          append_assoc (print_item i) (print_items is) more,
          parse_options-item i (print_items is ++ more) c w.0,
        )
        (parse_options-items is more (configure i c) w.1)

  -- The features behind the "--".
  abbrev pub print_features : FeatureMap → List Text
  print_features [] = []
  print_features ((k, v) ∷ kvs) = (k ++ b'=' ∷ v) ∷ print_features kvs

  abbrev pub set_all : FeatureMap → FeatureMap → FeatureMap
  set_all [] m = m
  set_all ((k, v) ∷ kvs) m = set_all kvs (set_feature k v true m)

  set_features_lem :
      (kvs : FeatureMap) (c : Config)
      → All (λ (kv : Text × Text). Lacks b'=' kv.0) kvs
      → set_features stoi (print_features kvs) c
        ≡ (ok tt, record c { features = set_all kvs c.features })
  unfolding set_features ◌>>=◌ gets pure modify
  set_features_lem [] c w = refl
  set_features_lem ((k, v) ∷ kvs) c w =
      rw (set_from k v c.features w.0)
        (set_features_lem kvs (record c { features = set_feature k v true c.features }) w.1)

  -- What a command line of these options and features leaves.
  abbrev pub configured : List Item → FeatureMap → Config → Config
  configured is kvs c =
      let d = configure_all is (record c { ignored_features = [] }) in
      record d {
        features = set_all kvs d.features;
        settings = record d.settings { ignored_features = d.ignored_features };
      }

  after_dashes : (fs : List Text) (c : Config) → parse_options stoi (text "--" ∷ fs) c ≡ (ok fs, c)
  unfolding parse_options kind_of text text_eq pure
  after_dashes [] c = refl
  after_dashes (f ∷ fs) c = refl

  options_read :
      (is : List Item) (fs : List Text) (c : Config)
      → All (IsWritten stoi) is
      → parse_options stoi (print_items is ++ text "--" ∷ fs) c ≡ (ok fs, configure_all is c)
  options_read is fs c w =
      parse_options-items is (text "--" ∷ fs) c w ∙ after_dashes fs (configure_all is c)

  -- What is written is read back: the options in their order, and the features behind them.
  pub parse_command_line-print :
      (program target : Text) (is : List Item) (kvs : FeatureMap) (c : Config)
      → All (IsWritten stoi) is
      → All (λ (kv : Text × Text). Lacks b'=' kv.0) kvs
      → parse_command_line stoi
          (program ∷ (target ∷ (print_items is ++ text "--" ∷ print_features kvs)))
          c
        ≡ (ok target, configured is kvs c)
  unfolding parse_command_line parse_arguments ◌>>=◌ modify pure
  parse_command_line-print program target is kvs c w k =
      rw
        (
          options_read is (print_features kvs) (record c { ignored_features = [] }) w,
          set_features_lem kvs (configure_all is (record c { ignored_features = [] })) k,
        )
        refl

  lacks_argument :
      (a : Text) (f : Text → Parsing (Unit {0})) (c : Config)
      → kind_of stoi a ≡ takes f
      → parse_options stoi (a ∷ []) c ≡ (throws (custom (a ++ text " requires an argument")), c)
  unfolding parse_options throw
  lacks_argument a f c e = rw e refl

  unknown :
      (a : Text) (more : List Text) (c : Config)
      → kind_of stoi a ≡ unrecognized
      → parse_options stoi (a ∷ more) c ≡ (throws (custom (text "Unrecognized option: " ++ a)), c)
  unfolding parse_options throw
  unknown a [] c e = rw e refl
  unknown a (v ∷ more) c e = rw e refl

  -- Behind options that are read, an option that lacks its argument ends the parsing: the exception
  -- names it, and the options before it are set.
  pub parse_options-takes :
      (is : List Item) (a : Text) (f : Text → Parsing (Unit {0})) (c : Config)
      → All (IsWritten stoi) is
      → kind_of stoi a ≡ takes f
      → parse_options stoi (print_items is ++ a ∷ []) c
        ≡ (throws (custom (a ++ text " requires an argument")), configure_all is c)
  parse_options-takes is a f c w e =
      parse_options-items is (a ∷ []) c w ∙ lacks_argument a f (configure_all is c) e

  -- Behind options that are read, a text that begins with "--" and is none of the options ends the
  -- parsing: the exception names it, the options before it are set, and nothing behind it is read.
  pub parse_options-unrecognized :
      (is : List Item) (a : Text) (more : List Text) (c : Config)
      → All (IsWritten stoi) is
      → IsUnknown a
      → parse_options stoi (print_items is ++ a ∷ more) c
        ≡ (throws (custom (text "Unrecognized option: " ++ a)), configure_all is c)
  parse_options-unrecognized is a more c w e =
      parse_options-items is (a ∷ more) c w
      ∙ unknown a more (configure_all is c) (kind_of-IsUnknown a e)
