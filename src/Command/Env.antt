-- ===== src/Command/Env.antt =====
-- PackageCmd::addEnv against the environment as a map from keys to entries.
use buildsyspp.Shared.{
  ◌≤◌, ◌≡◌, ◌≢◌, refl, ap, true, false, inl, inr, List, [], ◌∷◌, ◌++◌, ◌==◌, if◌then◌else◌,
  Bool-cases, arith, Text, Lacks, length, split_first-append, starts_with, append_assoc,
}
use buildsyspp.Command.{PackageCmd, add_env, replace_entry}

-- The entries `key=...` of an environment, for the prefix `key=`.
abbrev pub entries : Text → List Text → List Text
entries key [] = []
entries key (e ∷ es) = if starts_with key e then e ∷ entries key es else entries key es

starts_with-append : (p s : Text) → starts_with p (p ++ s) ≡ true
unfolding starts_with
starts_with-append [] s = refl
starts_with-append (c ∷ p) s = ground (arith, starts_with-append p s)

-- Two keys with no `=` inside, each closed by one: no entry begins with both.
starts_with_other :
    (j k s : Text)
    → Lacks b'=' j
    → Lacks b'=' k
    → j ≢ k
    → starts_with (k ++ b'=' ∷ []) s ≡ true
    → starts_with (j ++ b'=' ∷ []) s ≡ false
unfolding starts_with
starts_with_other [] [] s lj lk ne h = absurd (ne refl)
starts_with_other [] (c ∷ k) [] lj lk ne h = refl
starts_with_other [] (c ∷ k) (d ∷ s) lj lk ne h = ground arith
starts_with_other (c ∷ j) k [] lj lk ne h = refl
starts_with_other (c ∷ j) [] (d ∷ s) lj lk ne h = ground arith
starts_with_other (c ∷ j) (d ∷ k) (x ∷ s) lj lk ne h = elim (Bool-cases (c == x)) [
  | inl e ↦ rw e (starts_with_other j k s lj.1 lk.1 (λ q. ne (ground (arith, q))) (ground arith))
  | inr e ↦ rw e refl
]

entries_none :
    (key env : Text) (es : List Text)
    → starts_with key env ≡ true
    → entries key es ≡ []
    → entries key (replace_entry key env es) ≡ env ∷ []
unfolding replace_entry
entries_none key env [] s h = ground arith
entries_none key env (e ∷ es) s h = ground (arith, entries_none key env es)

entries-replace_self :
    (key env : Text) (es : List Text)
    → starts_with key env ≡ true
    → length (entries key es) ≤ 1
    → entries key (replace_entry key env es) ≡ env ∷ []
unfolding replace_entry
entries-replace_self key env [] s h = ground arith
entries-replace_self key env (e ∷ es) s h = elim (Bool-cases (starts_with key e)) [
  | inl t ↦ rw (t, s) (ap (◌∷◌ env) (none_left (entries key es) (rw t at h)))
  | inr t ↦ rw (t, t) (entries-replace_self key env es s (rw t at h))
]
  where
    none_left : (xs : List Text) → length (e ∷ xs) ≤ 1 → xs ≡ []
    none_left [] k = refl
    none_left (x ∷ xs) k = absurd (omega arith)

entries-replace_ne :
    (j k env : Text) (es : List Text)
    → Lacks b'=' j
    → Lacks b'=' k
    → j ≢ k
    → starts_with (k ++ b'=' ∷ []) env ≡ true
    → entries (j ++ b'=' ∷ []) (replace_entry (k ++ b'=' ∷ []) env es) ≡ entries (j ++ b'=' ∷ []) es
unfolding replace_entry
entries-replace_ne j k env [] lj lk ne s = ground (arith, starts_with_other j k env lj lk ne s)
entries-replace_ne j k env (e ∷ es) lj lk ne s = ground (
  arith,
  starts_with_other j k env lj lk ne s,
  starts_with_other j k e lj lk ne,
  entries-replace_ne j k env es lj lk ne s,
)

-- Setting `key=value`, for a key without `=`, in an environment that holds at most one entry for
-- that key leaves exactly the one entry `key=value` for it, and leaves the entries of every other
-- key without `=` as they were.
pub entries-add_env :
    (pc : PackageCmd) (key value : Text)
    → Lacks b'=' key
    → length (entries (key ++ b'=' ∷ []) pc.envp) ≤ 1
    → let env = key ++ b'=' ∷ value in
      (entries (key ++ b'=' ∷ []) (add_env pc env).envp ≡ env ∷ [])
      × ((j : Text)
          → Lacks b'=' j
          → j ≢ key
          → entries (j ++ b'=' ∷ []) (add_env pc env).envp ≡ entries (j ++ b'=' ∷ []) pc.envp)
unfolding add_env
entries-add_env pc key value lacks one =
    rw (replaced, add_env)
      (
        entries-replace_self (key ++ b'=' ∷ []) _ pc.envp begins one,
        λ j lj ne. entries-replace_ne j key _ pc.envp lj lacks ne begins,
      )
  where
    begins : starts_with (key ++ b'=' ∷ []) (key ++ b'=' ∷ value) ≡ true
    begins = rw append_assoc at (starts_with-append (key ++ b'=' ∷ []) value)

    replaced :
        (add_env pc (key ++ b'=' ∷ value)).envp
        ≡ replace_entry (key ++ b'=' ∷ []) (key ++ b'=' ∷ value) pc.envp
    replaced = rw (split_first-append b'=' key value lacks, add_env) refl
