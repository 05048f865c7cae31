-- ===== src/Script/Sequence.antt =====
-- Packages that are processed one after the other, in any order: what is depended on is a package of
-- the session, each once.
use buildsyspp.Shared.{◌≢◌, Option, Text, ℕ, ◌<◌, ◌≤◌, [], ◌≡◌, refl, ◌∙◌, In, All-in, lt→ltb}
use buildsyspp.Host.{Host}
use buildsyspp.Effects.{exhausted}
use buildsyspp.Lua.{Lua}
use buildsyspp.Model.{PackageDepend}
use buildsyspp.Session.{Session, all_packages, new_progress}
use buildsyspp.Session.Names.{occurrences}
use buildsyspp.Session.Index.{IsIndex}
use buildsyspp.Script.Scope.{registry, InScope, Scope-start, Below, NotBuilt}
use buildsyspp.Script.Ending.{IsLayered, process-Keeps, process-Keeps_enough}
use buildsyspp.Script.Run.{process}

module _ (h : Host) where
  -- Every package stands once under its names, and what is depended on is a package.
  pub record IsOrderly (s : Session h) : Type 0 where
    pub index : IsIndex s.namespaces s.packages s.count
    pub targets : (i : ℕ) → i < s.count → Below s.count (s.packages i).depends

  -- The numbers that no package has stand for what depends on nothing.
  abbrev pub IsBlank : Session h → Type 0
  IsBlank s = (i : ℕ) → s.count ≤ i → (s.packages i).depends ≡ []

  module _ (lua : Lua) where
    -- Whatever its script does, and however it ends, the processing of a package of an orderly
    -- session leaves the other packages and their progress as they were, and of the package itself
    -- the names, the file names, the working directory and the build directories. There are as many
    -- packages or more, each stands once under its names in the namespaces, and what is depended on
    -- is a package of the session; the new ones depend on nothing and have the progress that a new
    -- package has. Where no package was built or building before, none is after; and where the
    -- numbers without a package stood for what depends on nothing, they still do.
    pub process-InScope :
        (s : Session h) (q fuel : ℕ)
        → IsOrderly s
        → q < s.count
        → InScope (new_progress h) (registry h s) q (registry h (process h lua q fuel s).1)
    process-InScope s q fuel o made =
        (process-Keeps h lua (registry h s) q made fuel).after s
          (Scope-start h s q o.index o.targets)

    -- Where the scripts are layered (in a sane state of Lua, a script requires scripts of a lower rank
    -- only, and leaves Lua in a sane state), fuel above the rank of the package's script is enough:
    -- the processing of the package ends, with a result or an exception, whatever the functions
    -- answer that the scripts call. The scripts stay as they are on the disk meanwhile.
    pub process-ends :
        (s : Session h) (q fuel : ℕ) (rank : Text → ℕ) (IsScript : Text → Type 0)
        (Sane : lua.LuaState → Type 0) (source : Text → Option Text)
        → IsOrderly s
        → q < s.count
        → IsLayered h lua q rank IsScript Sane source
        → IsScript (s.packages q).file
        → rank (s.packages q).file < fuel
        → (process h lua q fuel s).0 ≢ exhausted
    process-ends s q fuel rank IsScript Sane source o made layers script less e =
        (process-Keeps_enough h lua (registry h s) q made rank IsScript Sane source layers fuel
            script less).ends
          s (Scope-start h s q o.index o.targets) e

    -- Packages are processed, each of them made before.
    pub data Runs (s : Session h) : Session h → Type 0 where
      no_more : Runs s s
      one_more :
          {t : Session h} (q fuel : ℕ) → q < t.count → Runs s t → Runs s (process h lua q fuel t).1

    pub Runs-IsOrderly : (s t : Session h) → IsOrderly s → Runs s t → IsOrderly t
    Runs-IsOrderly s t o no_more = o
    Runs-IsOrderly s t o (one_more {t = u} q fuel made runs) =
        let i = process-InScope u q fuel (Runs-IsOrderly s u o runs) made in
        record { index = i.index; targets = i.targets }

    once_in :
        (s : Session h) (q : ℕ)
        → IsOrderly s
        → q < s.count
        → occurrences q (all_packages s.namespaces) ≡ 1
    once_in s q o made = o.index.once q ∙ rw (lt→ltb q s.count made) refl

    pub Runs-occurrences :
        (s t : Session h) (q : ℕ) (d : PackageDepend)
        → IsOrderly s
        → Runs s t
        → q < t.count
        → In d (t.packages q).depends
        → occurrences d.target (all_packages t.namespaces) ≡ 1
    Runs-occurrences s t q d o runs made m =
        let p = Runs-IsOrderly s t o runs in
        once_in t d.target p
          (All-in (λ (e : PackageDepend). e.target < t.count) (p.targets q made) m)

    -- Nothing is taken for built by processing packages.
    pub Runs-NotBuilt :
        (s t : Session h)
        → IsOrderly s
        → ((i : ℕ) → NotBuilt (s.sys.progress i))
        → Runs s t
        → (i : ℕ) → NotBuilt (t.sys.progress i)
    Runs-NotBuilt s t o fresh no_more = fresh
    Runs-NotBuilt s t o fresh (one_more {t = u} q fuel made runs) =
        (process-InScope u q fuel (Runs-IsOrderly s u o runs) made).unbuilt
          (Runs-NotBuilt s u o fresh runs)

    -- What is no package depends on nothing, before and after packages are processed.
    pub Runs-IsBlank : (s t : Session h) → IsOrderly s → IsBlank s → Runs s t → IsBlank t
    Runs-IsBlank s t o empty no_more = empty
    Runs-IsBlank s t o empty (one_more {t = u} q fuel made runs) =
        (process-InScope u q fuel (Runs-IsOrderly s u o runs) made).blank
          (Runs-IsBlank s u o empty runs)
