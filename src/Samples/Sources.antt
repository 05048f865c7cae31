-- ===== src/Samples/Sources.antt =====
-- Downloads and lists of sources, and the theorems on them.
use buildsyspp.Shared.{◌≡◌, refl, true, false, List, [], ◌∷◌, Text, text_eq, empty, In}
use buildsyspp.Effects.{ok}
use buildsyspp.Model.{Sys, FetchInfo, object_text}
use buildsyspp.Files.{content_hash}
use buildsyspp.Fetch.{full_name, dl_path, download_fetch}
use buildsyspp.Fetch.Checked.{download_fetch_lem}
use buildsyspp.Package.Info.{distinct_sources, source_key}
use buildsyspp.Package.Sources.{AreDistinct, distinct_sources_lem}
use buildsyspp.Samples.{host, settings, packages, start}

abbrev asked : Sys host
asked = record start { unit_hash = λ u. b'0' ∷ [] }

abbrev uri : Text
uri = b'h' ∷ b'/' ∷ b'f' ∷ []

download_fetch_lem_example :
    let p = packages 0 in
    let fullname = full_name uri [] in
    let recorded = object_text fullname asked.dl_objects in
    let r = download_fetch host settings 0 p 7 uri [] asked in
    (r.0 ≡ ok true
      → asked.unit_hash 7
        ≡ content_hash host (host.read_file (dl_path host settings 0 p fullname) r.1.disk))
    × (empty recorded ≡ false
        → text_eq recorded (asked.unit_hash 7) ≡ false
        → r ≡ (ok false, asked))
download_fetch_lem_example = download_fetch_lem host settings 0 (packages 0) 7 uri [] asked refl

abbrev source : Text → FetchInfo
source type = record { type = type; uri = uri; path = []; ref = []; hash = []; hash_algorithm = [] }

abbrev twice : List FetchInfo
twice = source (b'a' ∷ []) ∷ source (b'b' ∷ []) ∷ []

distinct_sources_lem_example :
    let r = distinct_sources [] twice in
    AreDistinct [] r
    × ((i : FetchInfo) → In i r → In i twice)
    × ((i : FetchInfo) → In i twice → (j : FetchInfo) × In j r × (source_key j ≡ source_key i))
distinct_sources_lem_example = distinct_sources_lem twice
