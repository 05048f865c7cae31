-- ===== src/Command/Output.antt =====
-- The log lines of pipe_data_thread against the bytes that the child wrote, and Run's verdict.
use buildsyspp.Shared.{
  ℕ, zero, suc, ◌≡◌, ◌≢◌, refl, ap, sym, ◌∙◌, true, ◌⊎◌, inl, inr, ◌↔◌, List, [], ◌∷◌, ◌++◌, ◌==◌,
  ==_iff, Bool-cases, arith, Text, Lacks, All, append_assoc, append-nil,
}
use buildsyspp.Command.{PackageCmd, Status, exited, signaled, run_verdict, pipe_data}

-- The bytes of lines that each end in a newline.
abbrev pub unlines : List Text → Text
unlines [] = []
unlines (l ∷ ls) = l ++ b'\n' ∷ unlines ls

Lacks-snoc : (c x : ℕ) (s : Text) → Lacks c s → x ≢ c → Lacks c (s ++ x ∷ [])
Lacks-snoc c x [] h n = (n, tt)
Lacks-snoc c x (y ∷ s) h n = (h.0, Lacks-snoc c x s h.1 n)

-- No logged line holds a newline, if what is in the buffer holds none.
pipe_data-Lacks : (buf bytes : Text) → Lacks b'\n' buf → All (Lacks b'\n') (pipe_data buf bytes)
unfolding pipe_data
pipe_data-Lacks [] [] h = tt
pipe_data-Lacks (c ∷ buf) [] h = (h, tt)
pipe_data-Lacks buf (c ∷ rest) h = elim (Bool-cases (c == b'\n')) [
  | inl e ↦ rw e (h, pipe_data-Lacks [] rest tt)
  | inr e ↦ rw e (pipe_data-Lacks (buf ++ c ∷ []) rest (Lacks-snoc b'\n' c buf h (ground arith)))
]

pipe_data-buf :
    (buf bytes : Text)
    → (unlines (pipe_data buf bytes) ≡ buf ++ bytes)
      ⊎ (unlines (pipe_data buf bytes) ≡ (buf ++ bytes) ++ b'\n' ∷ [])
unfolding pipe_data
pipe_data-buf [] [] = inl refl
pipe_data-buf (c ∷ buf) [] = inr (rw append-nil refl)
pipe_data-buf buf (c ∷ rest) = elim (Bool-cases (c == b'\n')) [
  | inl e ↦
      rw (e, (==_iff c b'\n').0 e)
        (elim (pipe_data-buf [] rest) [
          | inl r ↦ inl (rw r)
          | inr r ↦ inr (rw r (sym (append_assoc buf (b'\n' ∷ rest) (b'\n' ∷ []))))
        ])
  | inr e ↦ rw e (elim (pipe_data-buf (buf ++ c ∷ []) rest) [
    | inl r ↦ inl (r ∙ append_assoc buf (c ∷ []) rest)
    | inr r ↦ inr (r ∙ ap (λ t. t ++ b'\n' ∷ []) (append_assoc buf (c ∷ []) rest))
  ])
]

-- What a command writes reaches the log whole and in order, cut at its newlines only: no logged
-- line holds a newline, and the lines, each with a newline behind it, are the bytes that were
-- written, up to one newline at the end.
pub pipe_data_lem :
    (bytes : Text)
    → All (Lacks b'\n') (pipe_data [] bytes)
      × ((unlines (pipe_data [] bytes) ≡ bytes)
          ⊎ (unlines (pipe_data [] bytes) ≡ bytes ++ b'\n' ∷ []))
pipe_data_lem bytes = (pipe_data-Lacks [] bytes tt, pipe_data-buf [] bytes)

-- A command succeeds exactly when the child exits with code 0. It is silent on success, and on a
-- failure only if failure was allowed and the child exited by itself: death by a signal is always
-- reported.
pub run_verdict_lem :
    (pc : PackageCmd) (status : Status)
    → (((run_verdict pc status).0 ≡ true) ↔ (status ≡ exited 0))
      × (((run_verdict pc status).1 ≡ []) ↔ (
          (status ≡ exited 0)
          ⊎ ((pc.failure_expected ≡ true) × ((code : ℕ) × (status ≡ exited code)))))
unfolding run_verdict
run_verdict_lem pc (exited zero) = ((λ _. refl, λ _. refl), (λ _. inl refl, λ _. refl))
run_verdict_lem pc (exited (suc code)) = elim (Bool-cases pc.failure_expected) [
  | inl e ↦ rw (e, run_verdict) ((λ h. cc, λ h. cc), (λ h. inr (refl, (suc code, refl)), λ h. refl))
  | inr e ↦ rw (e, run_verdict) ((λ h. cc, λ h. cc), (λ h. cc, λ h. ground arith))
]
run_verdict_lem pc (signaled sig) = ((λ h. cc, λ h. cc), (λ h. cc, λ h. ground arith))
