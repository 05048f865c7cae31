-- ===== src/Samples/Loops.antt =====
-- Searches for dependency loops, and a package that depends on itself.
use buildsyspp.Shared.{
  ℕ, zero, suc, ◌<◌, ◌≡◌, ◌≢◌, refl, sym, subst, true, false, Bool-cases, ◌⊎◌, inl, inr, List, [],
  ◌∷◌, In, first, later, length, ltb, ltb→lt, ◌==◌, ==_iff, if◌then◌else◌,
}
use buildsyspp.Model.{Package}
use buildsyspp.Depends.Reached.{Reaches}
use buildsyspp.Graph.{Edges, fill, fill_nodes, fill_edges, get_cycled_packages, put_ends}
use buildsyspp.Graph.Cycles.{Way, stays, IsBack, IsSearch}
use buildsyspp.World.{pos, prepare_build}
use buildsyspp.World.Prepared.{prepare_build-refused}
use buildsyspp.Samples.{package_with, fresh}
use buildsyspp.Samples.Schedules.{in_order}

cons≢nil : {A : Type 0} {x : A} {xs : List A} → x ∷ xs ≢ []
cons≢nil e = cc e

abbrev highest : (ℕ → ℕ) → ℕ → Edges → ℕ
highest f v [] = 0
highest f v ((a, b) ∷ es) =
    let rest = highest f v es in
    if a == v then (if ltb (f b) rest then rest else suc (f b)) else rest

-- The length of the longest way from a vertex, `k` at most.
abbrev level : ℕ → Edges → ℕ → ℕ
level zero es v = 0
level (suc k) es v = highest (level k es) v es

abbrev rising : (ℕ → ℕ) → Edges → Edges
rising f [] = []
rising f ((a, b) ∷ es) = if ltb (f b) (f a) then rising f es else (a, b) ∷ rising f es

-- The edges that do not go down a level.
abbrev pub search : List ℕ → Edges → Edges
search nodes edges = rising (level (length nodes) edges) edges

rising-cons :
    (f : ℕ → ℕ) (x y : ℕ) (es : Edges)
    → rising f ((x, y) ∷ es) ≡ []
    → (f y < f x) × (rising f es ≡ [])
rising-cons f x y es e = elim (Bool-cases (ltb (f y) (f x))) [
  | inl k ↦ (
    ltb→lt (f y) (f x) k,
    subst (λ t. (if t then rising f es else (x, y) ∷ rising f es) ≡ []) k e,
  )
  | inr k ↦
      absurd (cons≢nil (subst (λ t. (if t then rising f es else (x, y) ∷ rising f es) ≡ []) k e))
]

rising-nil : (f : ℕ → ℕ) (a b : ℕ) (es : Edges) → rising f es ≡ [] → In (a, b) es → f b < f a
rising-nil f a b es e (first {xs = xs}) = (rising-cons f a b xs e).0
rising-nil f a b es e (later {x = (x, y)} {xs = xs} m) =
    rising-nil f a b xs (rising-cons f x y xs e).1 m

pub search-IsSearch : IsSearch search
search-IsSearch = record {
  ranks = λ nodes edges inside none.
      (level (length nodes) edges, λ a b. rising-nil (level (length nodes) edges) a b edges none);
}

-- The edges from a vertex to itself.
abbrev turns : Edges → Edges
turns [] = []
turns ((a, b) ∷ es) = if a == b then (a, b) ∷ turns es else turns es

turned :
    (x y a b : ℕ) (ts es : Edges)
    → x ≡ y
    → (In (a, b) ts → In (a, b) es × (b ≡ a))
    → In (a, b) ((x, y) ∷ ts)
    → In (a, b) ((x, y) ∷ es) × (b ≡ a)
turned x y a b ts es e k first = (first, sym e)
turned x y a b ts es e k (later m) = (later (k m).0, (k m).1)

turns-In : (es : Edges) (a b : ℕ) → In (a, b) (turns es) → In (a, b) es × (b ≡ a)
turns-In [] a b m = elim m [ ]
turns-In ((x, y) ∷ es) a b m =
    let rest = turns-In es a b in
    elim (Bool-cases (x == y)) [
      | inl k ↦
          turned x y a b (turns es) es ((==_iff x y).0 k) rest
            (subst (λ t. In (a, b) (if t then (x, y) ∷ turns es else turns es)) k m)
      | inr k ↦
          let r = rest (subst (λ t. In (a, b) (if t then (x, y) ∷ turns es else turns es)) k m) in
          (later r.0, r.1)
    ]

abbrev only_turns : List ℕ → Edges → Edges
only_turns nodes edges = turns edges

only_turns-IsBack : IsBack only_turns
only_turns-IsBack = record {
  edge = λ nodes edges a b m. (turns-In edges a b m).0;
  back = λ nodes edges a b m. subst (λ x. Way edges x a) (sym (turns-In edges a b m).1) stays;
}

abbrev looped : ℕ → Package
looped q = package_with (record { target = q; locally = false } ∷ [])

looped-refused :
    prepare_build in_order looped (pos 1) false 0 only_turns false false (λ q. fresh) (0 ∷ [])
    ≡ inl false
unfolding prepare_build fill fill_nodes fill_edges get_cycled_packages put_ends
looped-refused = refl

prepare_build-refused_example : (false ≡ true) ⊎ ((p : ℕ) × Reaches looped (λ d. true) p p)
prepare_build-refused_example =
    prepare_build-refused in_order looped (pos 1) false 0 only_turns false (λ q. fresh) (0 ∷ [])
      false only_turns-IsBack looped-refused
