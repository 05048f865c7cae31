-- ===== src/Fetch/Checked.antt =====
-- What a successful download guarantees.
use buildsyspp.Shared.{
  ℕ, ◌≡◌, refl, sym, ap, subst, ◌∙◌, Bool, true, false, not, ◌&&◌, Bool-cases, inl, inr, Text,
  empty, text_eq, text_eq_sound, if◌then◌else◌,
}
use buildsyspp.Host.{Host}
use buildsyspp.Effects.{Outcome, ok, throws, exhausted, Action, pure, gets, when, ◌>>=◌, ◌>>◌}
use buildsyspp.Model.{Settings, Package, Sys, object_text}
use buildsyspp.Files.{content_hash, hash_file}
use buildsyspp.Files.Calls.{Act, remove}
use buildsyspp.Fetch.{full_name, dl_path, check_hash, obtain, record_hash, download_fetch}

ok_injective : {A : Type 0} {a b : A} → ok a ≡ ok b → a ≡ b
ok_injective e = cc

module _ {S A B : Type 0} where
  -- An action that returns has its first part return.
  bind-ok :
      (m : Action S A) (f : A → Action S B) (s t : S) (b : B)
      → (m >>= f) s ≡ (ok b, t)
      → (a : A) × (u : S) × (m s ≡ (ok a, u)) × (f a u ≡ (ok b, t))
  unfolding ◌>>=◌
  bind-ok m f s t b e = by_result (m s) refl e
    where
      by_result :
          (r : Outcome A × S)
          → m s ≡ r
          → ((λ (_ : S). r) >>= f) r.1 ≡ (ok b, t)
          → (a : A) × (u : S) × (m s ≡ (ok a, u)) × (f a u ≡ (ok b, t))
      by_result (ok a, u) d e' = (a, u, d, e')
      by_result (throws x, u) d e' = absurd (cc)
      by_result (exhausted, u) d e' = absurd (cc)

module _ (h : Host) (cfg : Settings) (q : ℕ) (p : Package) where
  hash_file-result :
      (path : Text) (s u : Sys h) (found : Text)
      → hash_file h path s ≡ (ok found, u)
      → found ≡ content_hash h (h.read_file path u.disk)
  unfolding hash_file gets
  hash_file-result path s u found e =
      let same : s ≡ u = ap (λ z. z.1) e in
      ok_injective (sym (ap (λ z. z.0) e))
      ∙ ap (λ (x : Sys h). content_hash h (h.read_file path x.disk)) same

  pure-ok : (b : Bool) (u t : Sys h) → pure b u ≡ (ok true, t) → u ≡ t
  unfolding pure
  pure-ok b u t e = ap (λ z. z.1) e

  pure-not_true : (v t : Sys h) → pure false v ≡ (ok true, t) → ⊥
  unfolding pure
  pure-not_true v t e = cc

  check_hash-true :
      (hash fullname : Text) (s t : Sys h)
      → empty hash ≡ false
      → check_hash h cfg q p hash fullname s ≡ (ok true, t)
      → hash ≡ content_hash h (h.read_file (dl_path h cfg q p fullname) t.disk)
  unfolding check_hash
  check_hash-true hash fullname s t n e =
      let (found, u, d, e') =
        bind-ok (hash_file h (dl_path h cfg q p fullname)) (after_hash hash fullname) s t true
          (rw n at e) in
      matched found u (hash_file-result _ s u found d) e'
    where
      after_hash : Text → Text → Text → Act h Bool
      after_hash hash' fullname' found =
          if text_eq hash' found
          then pure true
          else remove h (dl_path h cfg q p fullname') >> pure false

      matched :
          (found : Text) (u : Sys h)
          → (found ≡ content_hash h (h.read_file (dl_path h cfg q p fullname) u.disk))
          → after_hash hash fullname found u ≡ (ok true, t)
          → hash ≡ content_hash h (h.read_file (dl_path h cfg q p fullname) t.disk)
      matched found u c e' = elim (Bool-cases (text_eq hash found)) [
        | inl same ↦
            let stays = pure-ok true u t (rw same at e') in
            subst (λ x. hash ≡ content_hash h (h.read_file (dl_path h cfg q p fullname) x.disk))
              stays (text_eq_sound hash found same ∙ c)
        | inr other ↦
            let (a, v, d, k) = bind-ok _ (λ _. pure false) u t true (rw other at e') in
            absurd (pure-not_true v t k)
      ]

  obtain-true :
      (hash fetch_uri fullname : Text) (s t : Sys h)
      → empty hash ≡ false
      → obtain h cfg q p hash fetch_uri fullname s ≡ (ok true, t)
      → hash ≡ content_hash h (h.read_file (dl_path h cfg q p fullname) t.disk)
  unfolding obtain
  obtain-true hash fetch_uri fullname s t n e =
      let (a, u, d, e') = bind-ok _ _ s t true e in
      let (a', u', d', e'') = bind-ok _ _ u t true e' in check_hash-true hash fullname u' t n e''

  abbrev conflict : Text → Text → Bool
  conflict hash recorded = not (empty hash) && not (empty recorded) && not (text_eq recorded hash)

  -- `fetch` with what it has read.
  abbrev proceed : Text → Text → Text → Text → Act h Bool
  proceed hash recorded fetch_uri fullname =
      if conflict hash recorded
      then pure false
      else when (not (empty hash) && empty recorded) (record_hash h cfg q p fullname hash)
        >> obtain h cfg q p hash fetch_uri fullname

  download_fetch-proceed :
      (id : ℕ) (fetch_uri filename : Text) (s : Sys h)
      → let fullname = full_name fetch_uri filename in
        download_fetch h cfg q p id fetch_uri filename s
        ≡ proceed (s.unit_hash id) (object_text fullname s.dl_objects) fetch_uri fullname s
  unfolding download_fetch gets ◌>>=◌
  download_fetch-proceed id fetch_uri filename s = refl

  proceed-true :
      (hash recorded fetch_uri fullname : Text) (s t : Sys h)
      → empty hash ≡ false
      → proceed hash recorded fetch_uri fullname s ≡ (ok true, t)
      → hash ≡ content_hash h (h.read_file (dl_path h cfg q p fullname) t.disk)
  proceed-true hash recorded fetch_uri fullname s t n e =
      elim (Bool-cases (conflict hash recorded)) [
        | inl c ↦ absurd (pure-not_true s t (rw c at e))
        | inr c ↦
            let (a, u, d, e') =
              bind-ok
                (when (not (empty hash) && empty recorded) (record_hash h cfg q p fullname hash))
                (λ _. obtain h cfg q p hash fetch_uri fullname) s t true (rw c at e) in
            obtain-true hash fetch_uri fullname u t n e'
      ]

  proceed-false :
      (hash recorded fetch_uri fullname : Text) (s : Sys h)
      → conflict hash recorded ≡ true
      → proceed hash recorded fetch_uri fullname s ≡ (ok false, s)
  unfolding pure
  proceed-false hash recorded fetch_uri fullname s c = rw c refl

  -- A download with a hash that returns true has left a file with that hash in its place, wherever
  -- the file came from. If another hash is recorded for the same file, then it returns false and
  -- changes nothing.
  pub download_fetch_lem :
      (id : ℕ) (fetch_uri filename : Text) (s : Sys h)
      → empty (s.unit_hash id) ≡ false
      → let fullname = full_name fetch_uri filename in
        let recorded = object_text fullname s.dl_objects in
        let r = download_fetch h cfg q p id fetch_uri filename s in
        (r.0 ≡ ok true
          → s.unit_hash id ≡ content_hash h (h.read_file (dl_path h cfg q p fullname) r.1.disk))
        × (empty recorded ≡ false → text_eq recorded (s.unit_hash id) ≡ false → r ≡ (ok false, s))
  download_fetch_lem id fetch_uri filename s n = (
    λ e.
        obtained (download_fetch h cfg q p id fetch_uri filename s)
          (download_fetch-proceed id fetch_uri filename s) e,
    λ a b.
        download_fetch-proceed id fetch_uri filename s
        ∙ proceed-false _ _ fetch_uri _ s (rw (n, a, b) refl),
  )
    where
      obtained :
          (r : Outcome Bool × Sys h)
          → r
            ≡ proceed
                (s.unit_hash id)
                (object_text (full_name fetch_uri filename) s.dl_objects)
                fetch_uri
                (full_name fetch_uri filename)
                s
          → r.0 ≡ ok true
          → s.unit_hash id
            ≡ content_hash h
                (h.read_file (dl_path h cfg q p (full_name fetch_uri filename)) r.1.disk)
      obtained (o, t) d e =
          proceed-true (s.unit_hash id) (object_text (full_name fetch_uri filename) s.dl_objects)
            fetch_uri (full_name fetch_uri filename) s t n
            (sym d ∙ ap (λ (x : Outcome Bool). (x, t)) e)
