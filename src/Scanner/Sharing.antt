-- ===== src/Scanner/Sharing.antt =====
-- No file lies inside two of the sources that a scan accepts, so no two of them compete for a row of
-- files_state.
use fmon.Base.{
  ◌≡◌, refl, inl, inr, true, false, Option, none, some, List, [], ◌∷◌, Bool-cases, All, All-append,
  Pairwise, Text, text_lt,
}
use fmon.Base.Dict.{contains}
use fmon.Base.Sorting.{insert_sorted, sort}
use fmon.Exec.{Env, World, Result, ok, err}
use fmon.Exec.Keeps.{Succeeds, Succeeds-bind}
use fmon.Paths.{within, overlaps}
use fmon.Paths.Clean.{is_abs, clean}
use fmon.Paths.Disjoint.{overlaps_of_shared}
use fmon.Paths.Trimmed.{IsTrimmed, clean-IsTrimmed, is_abs-clean}
use fmon.Scanner.Accepted.{IsPlan, accept_sources-IsPlan}
use fmon.Scanner.Plan.{
  normalize_source, normalize_sources, find_conflict, accept_source, accept_sources,
  accept_configured,
}

module _ (P : Text → Type 0) where
  All-insert_sorted :
      (p : Text) (ps : List Text) → P p → All P ps → All P (insert_sorted text_lt p ps)
  unfolding insert_sorted
  All-insert_sorted p [] h a = (h, tt)
  All-insert_sorted p (q ∷ ps) h a = elim (Bool-cases (text_lt q p)) [
    | inl e ↦ rw e (a.0, All-insert_sorted p ps h a.1)
    | inr e ↦ rw e (h, a)
  ]

  All-sort : (ps : List Text) → All P ps → All P (sort text_lt ps)
  unfolding sort
  All-sort [] a = tt
  All-sort (p ∷ ps) a = All-insert_sorted p (sort text_lt ps) a.0 (All-sort ps a.1)

  accept_source-All :
      (p : Text) (accepted : List Text) (env : Env) (w : World)
      → P p
      → All P accepted
      → Succeeds (λ r _. All P r) (accept_source p accepted env w)
  unfolding accept_source
  accept_source-All p accepted env w h a = by_conflict (find_conflict p accepted) refl
    where
      by_conflict :
          (o : Option Text)
          → find_conflict p accepted ≡ o
          → Succeeds (λ r _. All P r) (accept_source p accepted env w)
      by_conflict none e = rw (e, accept_source) (All-append P accepted (p ∷ []) a (h, tt))
      by_conflict (some q) e = rw (e, accept_source) a

  accept_sources-All :
      (ps accepted : List Text) (env : Env) (w : World)
      → All P ps
      → All P accepted
      → Succeeds (λ r _. All P r) (accept_sources ps accepted env w)
  unfolding accept_sources
  accept_sources-All [] accepted env w h a = a
  accept_sources-All (p ∷ ps) accepted env w h a =
      Succeeds-bind (λ r _. All P r) (λ r _. All P r) env (accept_source p accepted env w)
        (accept_sources ps) (accept_source-All p accepted env w h.0 a)
        λ r v k. accept_sources-All ps r env v h.1 k

normalize_source-IsTrimmed :
    (p : Text) (configured : List Text) (env : Env) (w : World)
    → All IsTrimmed configured
    → Succeeds (λ r _. All IsTrimmed r) (normalize_source p configured env w)
unfolding normalize_source
normalize_source-IsTrimmed p configured env w a = elim (Bool-cases (is_abs (clean p))) [
  | inr e ↦ rw e a
  | inl e ↦ rw e (elim (Bool-cases (contains (clean p) configured)) [
    | inl k ↦ rw k a
    | inr k ↦ rw k (
        All-append IsTrimmed configured (clean p ∷ []) a (clean-IsTrimmed p (is_abs-clean p e), tt))
  ])
]

normalize_sources-IsTrimmed :
    (ps configured : List Text) (env : Env) (w : World)
    → All IsTrimmed configured
    → Succeeds (λ r _. All IsTrimmed r) (normalize_sources ps configured env w)
unfolding normalize_sources
normalize_sources-IsTrimmed [] configured env w a = a
normalize_sources-IsTrimmed (p ∷ ps) configured env w a =
    Succeeds-bind (λ r _. All IsTrimmed r) (λ r _. All IsTrimmed r) env
      (normalize_source p configured env w) (normalize_sources ps)
      (normalize_source-IsTrimmed p configured env w a)
      λ r v k. normalize_sources-IsTrimmed ps r env v k

-- No path lies inside both.
abbrev pub ShareNoFile : Text → Text → Type 0
ShareNoFile p q = (f : Text) → within f p ≡ true → within f q ≡ false

no_share : (p q : Text) → IsTrimmed p → IsTrimmed q → overlaps q p ≡ false → ShareNoFile p q
no_share p q tp tq a f h = elim (Bool-cases (within f q)) [
  | inl k ↦ let o : overlaps q p ≡ true = overlaps_of_shared f q p tq tp k h in cc
  | inr k ↦ k
]

apart_share :
    (p : Text) (qs : List Text)
    → IsTrimmed p
    → All IsTrimmed qs
    → All (λ q. overlaps q p ≡ false) qs
    → All (ShareNoFile p) qs
apart_share p [] tp ts a = tt
apart_share p (q ∷ qs) tp ts a = (no_share p q tp ts.0 a.0, apart_share p qs tp ts.1 a.1)

Pairwise-ShareNoFile :
    (ps : List Text)
    → All IsTrimmed ps
    → Pairwise (λ q p. overlaps p q ≡ false) ps
    → Pairwise ShareNoFile ps
Pairwise-ShareNoFile [] ts a = tt
Pairwise-ShareNoFile (p ∷ ps) ts a =
    (apart_share p ps ts.0 ts.1 a.0, Pairwise-ShareNoFile ps ts.1 a.1)

Succeeds-both :
    {A : Type 0} (Q R : A → World → Type 0) (r : Result A × World)
    → Succeeds Q r
    → Succeeds R r
    → Succeeds (λ a w. Q a w × R a w) r
Succeeds-both Q R (ok a, w) h k = (h, k)
Succeeds-both Q R (err e, w) h k = h

accept_sources-share :
    (ps : List Text) (env : Env) (w : World)
    → All IsTrimmed ps
    → Succeeds (λ accepted _. Pairwise ShareNoFile accepted) (accept_sources ps [] env w)
accept_sources-share ps env w ts = finish (accept_sources ps [] env w) (
    Succeeds-both _ _ _ (accept_sources-IsPlan ps env w)
      (accept_sources-All IsTrimmed ps [] env w ts tt))
  where
    finish :
        (r : Result (List Text) × World)
        → Succeeds (λ a _. IsPlan ps a × All IsTrimmed a) r
        → Succeeds (λ a _. Pairwise ShareNoFile a) r
    finish (ok a, v) h = Pairwise-ShareNoFile a h.1 h.0.apart
    finish (err e, v) h = h

-- Whatever fmon.toml lists, in whatever spelling: the step that chooses the sources returns, and no
-- file lies inside two of the sources that it accepts.
pub accept_configured-ShareNoFile :
    (cfg_sources : List Text) (env : Env) (w : World)
    → Succeeds (λ accepted _. Pairwise ShareNoFile accepted) (accept_configured cfg_sources env w)
unfolding accept_configured
accept_configured-ShareNoFile cfg_sources env w =
    Succeeds-bind (λ r _. All IsTrimmed r) (λ r _. Pairwise ShareNoFile r) env
      (normalize_sources cfg_sources [] env w)
      (λ configured. accept_sources (sort text_lt configured) [])
      (normalize_sources-IsTrimmed cfg_sources [] env w tt)
      λ configured v ts.
        accept_sources-share (sort text_lt configured) env v (All-sort IsTrimmed configured ts)
