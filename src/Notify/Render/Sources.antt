-- ===== src/Notify/Render/Sources.antt =====
-- The counts of a SOURCE line, against Counts.
use fmon.Base.{
  ◌+◌, ◌≡◌, refl, sym, ap, ◌∙◌, ◌⊎◌, inl, inr, Bool, true, false, Option, none, some, List, [], ◌∷◌,
  arith, if◌then◌else◌, Bool-cases, ◌==◌, keep_if, any_of, Text, text_eq, text_eq_iff, nat_eq,
  text_equality,
}
use fmon.Base.Dict.{Dict, lookup, insert, lookup-insert}
use fmon.Base.Int.{int_equality}
use fmon.Models.{EventType, event_added, event_modified, event_deleted, Change}
use fmon.Notify.Render.{Counts, bump, or_zero, source_counts}
use fmon.Report.{counts}

abbrev pub from_source : Text → Change → Bool
from_source s c = c.source == s

counts-cons :
    (c : Change) (cs : List Change) (n : Counts) → counts (c ∷ cs) n ≡ counts cs (bump c.event n)
unfolding counts
counts-cons c cs n = by_event c.event n
  where
    by_event :
        (e : EventType) (n : Counts)
        → counts cs (elim e [
          | event_added ↦ (n.0 + 1, n.1, n.2)
          | event_modified ↦ (n.0, n.1 + 1, n.2)
          | event_deleted ↦ (n.0, n.1, n.2 + 1)
        ])
          ≡ counts cs (bump e n)
    by_event event_added (a, m, d) = refl
    by_event event_modified (a, m, d) = refl
    by_event event_deleted (a, m, d) = refl

-- The counts of the changes of one source, from those counted before.
abbrev counted : Text → List Change → Option Counts → Option Counts
counted s cs n =
    if any_of (from_source s) cs then some (counts (keep_if (from_source s) cs) (or_zero n)) else n

counted-skip :
    (s : Text) (c : Change) (cs : List Change) (n : Option Counts)
    → text_eq c.source s ≡ false
    → counted s cs n ≡ counted s (c ∷ cs) n
counted-skip s c cs n e = rw e refl

keep_if-none {ℓ} :
    {A : Type ℓ} (p : A → Bool) (xs : List A) → any_of p xs ≡ false → keep_if p xs ≡ []
keep_if-none p [] h = refl
keep_if-none p (x ∷ xs) h = ground (arith, keep_if-none p xs)

counted-take :
    (s : Text) (c : Change) (cs : List Change) (n : Option Counts)
    → text_eq c.source s ≡ true
    → counted s cs (some (bump c.event (or_zero n))) ≡ counted s (c ∷ cs) n
unfolding counts
counted-take s c cs n e = elim (Bool-cases (any_of (from_source s) cs)) [
  | inl f ↦ rw (e, f) (ap some (sym (counts-cons c (keep_if (from_source s) cs) (or_zero n))))
  | inr f ↦
      let none_left = keep_if-none (from_source s) cs f in
      rw (e, f)
        (ap some (sym (counts-cons c (keep_if (from_source s) cs) (or_zero n) ∙ rw none_left refl)))
]

lookup-source_counts :
    (s : Text) (cs : List Change) (per : Dict Counts)
    → lookup s (source_counts cs per) ≡ counted s cs (lookup s per)
unfolding source_counts lookup
lookup-source_counts s [] per = refl
lookup-source_counts s (c ∷ cs) per =
    let n = bump c.event (or_zero (lookup c.source per)) in
    lookup-source_counts s cs (insert c.source n per)
    ∙ (ap (counted s cs) (lookup-insert c.source s n per)
        ∙ by_source (Bool-cases (text_eq c.source s)))
  where
    by_source :
        (text_eq c.source s ≡ true) ⊎ (text_eq c.source s ≡ false)
        → counted s cs (
            if text_eq c.source s
            then some (bump c.event (or_zero (lookup c.source per)))
            else lookup s per)
          ≡ counted s (c ∷ cs) (lookup s per)
    by_source (inl e) =
        let same : c.source ≡ s = (text_eq_iff c.source s).0 e in
        let counted_here : (if text_eq c.source s
              then some (bump c.event (or_zero (lookup c.source per)))
              else lookup s per)
            ≡ some (bump c.event (or_zero (lookup s per))) =
          rw e (ap (λ p. some (bump c.event (or_zero (lookup p per)))) same) in
        ap (counted s cs) counted_here ∙ counted-take s c cs (lookup s per) e
    by_source (inr e) = rw e refl

-- The counts that Render prints for a source are those of Counts on the changes of that source
-- alone; a source with no change has no line.
pub lookup-source_counts-counts :
    (s : Text) (cs : List Change)
    → lookup s (source_counts cs []) ≡ (
        if any_of (from_source s) cs
        then some (counts (keep_if (from_source s) cs) (0, 0, 0))
        else none)
unfolding lookup
lookup-source_counts-counts s cs = lookup-source_counts s cs []
