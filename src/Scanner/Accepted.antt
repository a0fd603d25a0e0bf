-- ===== src/Scanner/Accepted.antt =====
-- reconcile: the accepted sources do not overlap, and every configured path is accepted or overlaps
-- an accepted one.
use mathlib.Core.List.{append_assoc, append-nil}
use mathlib.Core.Path.{subst}
use fmon.Base.{
  ◌≡◌, refl, ◌∙◌, inl, inr, Bool, true, false, ◌||◌, Option, none, some, List, [], ◌∷◌, ◌++◌, arith,
  if◌then◌else◌, Bool-cases, ◌==◌, any_of, any_of-append, All, All-append, All-map, Pairwise,
  Pairwise-snoc, Text, text_eq, text_eq_iff, nat_eq, text_equality,
}
use fmon.Base.Int.{int_equality}
use fmon.Exec.{Env, World}
use fmon.Exec.Keeps.{Succeeds, Succeeds-bind}
use fmon.Paths.{overlaps}
use fmon.Scanner.Plan.{find_conflict, accept_source, accept_sources}

abbrev Apart : Text → Text → Type 0
Apart q p = overlaps p q ≡ false

find_conflict-none :
    (p : Text) (accepted : List Text)
    → find_conflict p accepted ≡ none
    → All (λ q. Apart q p) accepted
unfolding find_conflict
find_conflict-none p [] h = tt
find_conflict-none p (q ∷ accepted) h = elim (Bool-cases (overlaps p q)) [
  | inl e ↦ absurd (ground arith)
  | inr e ↦ (e, find_conflict-none p accepted (rw (← if_false (overlaps p q) e) h))
]
  where
    if_false :
        (b : Bool)
        → b ≡ false
        → (if b then some q else find_conflict p accepted) ≡ find_conflict p accepted
    if_false b e = rw e

-- Covered by the accepted paths: the path is one of them or overlaps one.
pub data IsCovered (p : Text) (accepted : List Text) : Type 0 where
  is_covered : any_of (λ q. q == p || overlaps p q) accepted ≡ true → IsCovered p accepted

any_of_mono :
    (p : Text) (xs ys : List Text)
    → any_of (λ q. q == p || overlaps p q) xs ≡ true
    → any_of (λ q. q == p || overlaps p q) (xs ++ ys) ≡ true
any_of_mono p xs ys h = any_of-append (λ q. q == p || overlaps p q) xs ys ∙ rw h

find_conflict-some :
    (p q : Text) (accepted : List Text)
    → find_conflict p accepted ≡ some q
    → any_of (λ r. r == p || overlaps p r) accepted ≡ true
unfolding find_conflict
find_conflict-some p q [] h = absurd (ground arith)
find_conflict-some p q (r ∷ accepted) h = elim (Bool-cases (overlaps p r)) [
  | inl e ↦ ground arith
  | inr e ↦ ground (arith, find_conflict-some p q accepted)
]

-- What the loop over the sorted paths has built.
pub record IsPlan (done accepted : List Text) : Type 0 where
  pub apart : Pairwise Apart accepted
  pub covers : All (λ p. IsCovered p accepted) done

accept_step :
    (p : Text) (done accepted : List Text)
    → IsPlan done accepted
    → find_conflict p accepted ≡ none
    → IsPlan (done ++ p ∷ []) (accepted ++ p ∷ [])
accept_step p done accepted h e = record {
  apart = Pairwise-snoc Apart accepted p h.apart (find_conflict-none p accepted e);
  covers =
      All-append (λ r. IsCovered r (accepted ++ p ∷ [])) done (p ∷ [])
        (All-map (λ r. IsCovered r accepted) (λ r. IsCovered r (accepted ++ p ∷ [])) done widen
          h.covers)
        (is_covered own, tt);
}
  where
    widen : (r : Text) → IsCovered r accepted → IsCovered r (accepted ++ p ∷ [])
    widen r (is_covered c) = is_covered (any_of_mono r accepted (p ∷ []) c)

    own : any_of (λ q. q == p || overlaps p q) (accepted ++ p ∷ []) ≡ true
    own =
        let same : text_eq p p ≡ true = (text_eq_iff p p).1 refl in
        any_of-append (λ q. q == p || overlaps p q) accepted (p ∷ []) ∙ ground arith

skip_step :
    (p q : Text) (done accepted : List Text)
    → IsPlan done accepted
    → find_conflict p accepted ≡ some q
    → IsPlan (done ++ p ∷ []) accepted
skip_step p q done accepted h e = record {
  apart = h.apart;
  covers =
      All-append (λ r. IsCovered r accepted) done (p ∷ []) h.covers
        (is_covered (find_conflict-some p q accepted e), tt);
}

accept_source-IsPlan :
    (p : Text) (done accepted : List Text) (env : Env) (w : World)
    → IsPlan done accepted
    → Succeeds (λ r _. IsPlan (done ++ p ∷ []) r) (accept_source p accepted env w)
unfolding accept_source
accept_source-IsPlan p done accepted env w h = by_conflict (find_conflict p accepted) refl
  where
    by_conflict :
        (o : Option Text)
        → find_conflict p accepted ≡ o
        → Succeeds (λ r _. IsPlan (done ++ p ∷ []) r) (accept_source p accepted env w)
    by_conflict none e = rw (e, accept_source) (accept_step p done accepted h e)
    by_conflict (some q) e = rw (e, accept_source) (skip_step p q done accepted h e)

accept_sources-IsPlan_onto :
    (ps done accepted : List Text) (env : Env) (w : World)
    → IsPlan done accepted
    → Succeeds (λ r _. IsPlan (done ++ ps) r) (accept_sources ps accepted env w)
unfolding accept_sources
accept_sources-IsPlan_onto [] done accepted env w h = rw append-nil h
accept_sources-IsPlan_onto (p ∷ ps) done accepted env w h =
    Succeeds-bind (λ r _. IsPlan (done ++ p ∷ []) r) (λ r _. IsPlan (done ++ p ∷ ps) r) env
      (accept_source p accepted env w) (accept_sources ps)
      (accept_source-IsPlan p done accepted env w h)
      λ a v k.
        let regroup : (done ++ p ∷ []) ++ ps ≡ done ++ p ∷ ps = rw append_assoc in
        subst (λ (d : List Text). Succeeds (λ r _. IsPlan d r) (accept_sources ps a env v)) regroup
          (accept_sources-IsPlan_onto ps (done ++ p ∷ []) a env v k)

-- However the configured paths overlap: the accepted ones are pairwise apart, and each configured
-- path is accepted or overlaps an accepted one.
pub accept_sources-IsPlan :
    (ps : List Text) (env : Env) (w : World)
    → Succeeds (λ accepted _. IsPlan ps accepted) (accept_sources ps [] env w)
accept_sources-IsPlan ps env w =
    accept_sources-IsPlan_onto ps [] [] env w (record { apart = tt; covers = tt })
