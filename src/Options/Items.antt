-- ===== src/Options/Items.antt =====
-- The options of a command line: how they are written, and what they ask for.
use buildsyspp.Shared.{
  ◌≡◌, true, false, List, [], ◌∷◌, ◌++◌, Text, text, text_eq, starts_with, empty, Lacks, All,
}
use buildsyspp.Effects.{Outcome, ok}
use buildsyspp.World.{ℤ}
use buildsyspp.Options.{Config, with_settings}

-- One option of a command line.
pub data Item : Type 0 where
  clean parse_only keep_going fetch_only quietly verbose keep_staging : Item
  cache_server tarball_cache overlay ignore_fv force : Text → Item
  parallel_packages : Text → ℤ → Item
  mirror_map : (prefix replacement : Text) → Item

abbrev pub print_item : Item → List Text
print_item clean = text "--clean" ∷ []
print_item parse_only = text "--parse-only" ∷ []
print_item keep_going = text "--keep-going" ∷ []
print_item fetch_only = text "--fetch-only" ∷ []
print_item quietly = text "--quietly" ∷ []
print_item verbose = text "--verbose" ∷ []
print_item keep_staging = text "--keep-staging" ∷ []
print_item (cache_server v) = text "--cache-server" ∷ v ∷ []
print_item (tarball_cache v) = text "--tarball-cache" ∷ v ∷ []
print_item (overlay v) = text "--overlay" ∷ v ∷ []
print_item (ignore_fv v) = text "--build-info-ignore-fv" ∷ v ∷ []
print_item (force v) = v ∷ []
print_item (parallel_packages v n) = text "--parallel-packages" ∷ v ∷ []
print_item (mirror_map prefix replacement) =
    text "--git-local-mirror-map" ∷ (prefix ++ b',' ∷ replacement) ∷ []

abbrev pub print_items : List Item → List Text
print_items [] = []
print_items (i ∷ is) = print_item i ++ print_items is

-- What the option asks for.
abbrev pub configure : Item → Config → Config
configure clean = with_settings (λ s. record s { clean_all_packages = true })
configure parse_only = λ c. record c { parse_only = true }
configure keep_going = λ c. record c { keep_going = true }
configure fetch_only = λ c. record c { fetch_only = true }
configure quietly = with_settings (λ s. record s { quiet_packages = true })
configure verbose = λ c. record c { verbose = true }
configure keep_staging = with_settings (λ s. record s { keep_staging = true })
configure (cache_server v) = with_settings (λ s. record s { build_cache = v })
configure (tarball_cache v) = with_settings (λ s. record s { tarball_cache = v })
configure (overlay v) = with_settings (λ s. record s { overlays = s.overlays ++ v ∷ [] })
configure (ignore_fv v) = λ c. record c { ignored_features = c.ignored_features ++ v ∷ [] }
configure (force v) =
    with_settings (λ s. record s { forced_packages = s.forced_packages ++ v ∷ [] })
configure (parallel_packages v n) = λ c. record c {
  threads_limit = n;
  settings = record c.settings { extract_in_parallel = false };
}
configure (mirror_map prefix replacement) = with_settings (λ s. record s {
  git_ref_if_able_pairs = s.git_ref_if_able_pairs ++ (prefix, replacement) ∷ [];
})

abbrev pub configure_all : List Item → Config → Config
configure_all [] c = c
configure_all (i ∷ is) c = configure_all is (configure i c)

-- What can be written: a limit that std::stoi reads, a package's name that does not look like an
-- option, and a pair with one comma between two texts.
abbrev pub IsWritten : (Text → Outcome ℤ) → Item → Type 0
IsWritten stoi (parallel_packages v n) = stoi v ≡ ok n
IsWritten stoi (force v) = starts_with (text "--") v ≡ false
IsWritten stoi (mirror_map prefix replacement) =
    ((empty prefix ≡ false) × Lacks b',' prefix)
    × ((empty replacement ≡ false) × Lacks b',' replacement)
IsWritten stoi clean = Unit
IsWritten stoi parse_only = Unit
IsWritten stoi keep_going = Unit
IsWritten stoi fetch_only = Unit
IsWritten stoi quietly = Unit
IsWritten stoi verbose = Unit
IsWritten stoi keep_staging = Unit
IsWritten stoi (cache_server v) = Unit
IsWritten stoi (tarball_cache v) = Unit
IsWritten stoi (overlay v) = Unit
IsWritten stoi (ignore_fv v) = Unit

-- The options of the program, and what ends them.
abbrev pub known_options : List Text
known_options =
    text "--clean"
    ∷ text "--cache-server"
    ∷ text "--tarball-cache"
    ∷ text "--overlay"
    ∷ text "--build-info-ignore-fv"
    ∷ text "--parse-only"
    ∷ text "--keep-going"
    ∷ text "--fetch-only"
    ∷ text "--quietly"
    ∷ text "--verbose"
    ∷ text "--keep-staging"
    ∷ text "--parallel-packages"
    ∷ text "--git-local-mirror-map"
    ∷ text "--"
    ∷ []

-- A text that begins with "--" and is no option.
abbrev pub IsUnknown : Text → Type 0
IsUnknown a =
    (starts_with (text "--") a ≡ true) × All (λ (o : Text). text_eq a o ≡ false) known_options
