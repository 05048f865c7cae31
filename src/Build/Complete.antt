-- ===== src/Build/Complete.antt =====
-- Package::build as a whole: it ends, and a successful build leaves everything built that the
-- package needs.
use buildsyspp.Shared.{ℕ, ◌<◌, ◌≡◌, ◌≢◌, refl, Bool, true, false, Text}
use buildsyspp.Host.{Host}
use buildsyspp.Effects.{Outcome, ok, throws, exhausted}
use buildsyspp.Model.{Settings, Package, Progress, Sys}
use buildsyspp.Depends.{IsRanked}
use buildsyspp.Depends.Reached.{Reaches, direct, onward}
use buildsyspp.Fetch.Steps.{Marks, marks}
use buildsyspp.Build.{build}
use buildsyspp.Build.Rules.{Known, now, Ends}
use buildsyspp.Build.Parts.{build-Builds}

-- What holds of the packages between two builds: a built package has its dependencies built, and
-- one that was built in this run is built.
abbrev pub IsConsistent : (ℕ → Package) → (ℕ → Progress) → Type 0
IsConsistent pkgs progress = Known pkgs (λ e. ⊥) (marks progress)

-- Without a dependency loop, and with a depth above the package's rank, `build` ends: it returns or
-- throws and does not run out of depth. Whatever it returns or throws, packages that were built
-- stay built and the packages stay consistent. If it returns true, then the package is built, and
-- so is every package that it reaches by dependencies.
pub build_lem :
    (h : Host) (replace_all : Text → Text → Text → Text) (cfg : Settings) (pkgs : ℕ → Package)
    (rank : ℕ → ℕ)
    → IsRanked pkgs rank
    → (fuel : ℕ) (locally fetch_only : Bool) (q : ℕ) (s : Sys h) → rank q < fuel
    → IsConsistent pkgs s.progress
    → let r = build h replace_all cfg pkgs fuel locally fetch_only q s in
      (r.0 ≢ exhausted)
      × IsConsistent pkgs r.1.progress
      × ((e : ℕ) → (s.progress e).built ≡ true → (r.1.progress e).built ≡ true)
      × (r.0 ≡ ok true
          → (r.1.progress q).built ≡ true
            × ((e : ℕ) → Reaches pkgs (λ d. true) q e → (r.1.progress e).built ≡ true))
build_lem h replace_all cfg pkgs rank ranked fuel locally fetch_only q s enough good =
    finish_up (build h replace_all cfg pkgs fuel locally fetch_only q s) (
      (build-Builds h replace_all cfg pkgs rank ranked fuel locally fetch_only q enough Old).run s
        start)
  where
    Old : ℕ → Type 0
    Old e = (s.progress e).built ≡ true

    start : Known pkgs Old (now pkgs h s)
    start = record { closed = good.closed; local = good.local; known = λ e b. b }

    consistent : {m : ℕ → Marks} → Known pkgs Old m → Known pkgs (λ e. ⊥) m
    consistent k = record { closed = k.closed; local = k.local; known = λ e b. absurd b }

    reached :
        (m : ℕ → Marks)
        → Known pkgs Old m
        → (m q).built ≡ true
        → (e : ℕ) → Reaches pkgs (λ d. true) q e
        → (m e).built ≡ true
    reached m k b e (direct dep) = k.closed q b e dep
    reached m k b e (onward {d = d} r p dep) = k.closed d (reached m k b d r) e dep

    finish_up :
        (r : Outcome Bool × Sys h)
        → Ends pkgs h Old (λ a e. (a ≡ true) × (e ≡ q)) r
        → (r.0 ≢ exhausted)
          × Known pkgs (λ e. ⊥) (marks r.1.progress)
          × ((e : ℕ) → (s.progress e).built ≡ true → (r.1.progress e).built ≡ true)
          × (r.0 ≡ ok true
              → (r.1.progress q).built ≡ true
                × ((e : ℕ) → Reaches pkgs (λ d. true) q e → (r.1.progress e).built ≡ true))
    finish_up (ok true, t) e = (
      λ x. cc,
      consistent e.0,
      e.0.known,
      λ _. (e.1 q (refl, refl), reached (marks t.progress) e.0 (e.1 q (refl, refl))),
    )
    finish_up (ok false, t) e = (λ x. cc, consistent e.0, e.0.known, λ x. cc)
    finish_up (throws x, t) e = (λ y. cc, consistent e, e.known, λ y. cc)
    finish_up (exhausted, t) e = absurd e
