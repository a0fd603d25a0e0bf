-- ===== src/Main/Loop.antt =====
-- main.go: the loop of parseInterspersed.
use fmon.Base.{ℕ, zero, suc, ◌≤◌, ◌<◌, ◌≡◌, refl, some, List, [], ◌∷◌, ◌++◌, arith, length, Text}
use fmon.Main.Args.{SubFlags, Parsed, parsed, asked_help, bad_flags, FlagParser, parse_interspersed}

-- Documented behaviour: what Parse leaves is a part of the arguments that it was given.
abbrev pub LeavesLess : FlagParser → Type 0
LeavesLess fp =
    (flags : SubFlags) (args : List Text) (flags' : SubFlags) (rest : List Text)
    → fp.parse_sub flags args ≡ parsed (flags', rest)
    → length rest ≤ length args

module _ (fp : FlagParser) (less : LeavesLess fp) where
  -- Both fuels give this result.
  abbrev Agree : ℕ → ℕ → SubFlags → List Text → List Text → Type 0
  Agree n m flags positional args =
      (r : Parsed (SubFlags × List Text)) × (parse_interspersed fp n flags positional args ≡ some r)
      × (parse_interspersed fp m flags positional args ≡ some r)

  -- The loop ends: any fuel above the number of arguments gives a result, and always the same one, if
  -- Parse leaves no more arguments than it was given.
  pub parse_interspersed-Agree :
      (n m : ℕ) (flags : SubFlags) (positional args : List Text)
      → length args < n
      → length args < m
      → (r : Parsed (SubFlags × List Text)) × (parse_interspersed fp n flags positional args
          ≡ some r)
        × (parse_interspersed fp m flags positional args ≡ some r)
  unfolding parse_interspersed
  parse_interspersed-Agree zero m flags positional args h k = absurd (omega arith)
  parse_interspersed-Agree (suc n) zero flags positional args h k = absurd (omega arith)
  parse_interspersed-Agree (suc n) (suc m) flags positional args h k =
      by_parse (fp.parse_sub flags args) refl
        λ flags' p l. parse_interspersed-Agree n m flags' (positional ++ p ∷ []) l
    where
      by_parse :
          (o : Parsed (SubFlags × List Text))
          → fp.parse_sub flags args ≡ o
          → ((flags' : SubFlags) (p : Text) (l : List Text)
              → length l < n
              → length l < m
              → Agree n m flags' (positional ++ p ∷ []) l)
          → Agree (suc n) (suc m) flags positional args
      by_parse asked_help e ih =
          (asked_help, rw (e, parse_interspersed) refl, rw (e, parse_interspersed) refl)
      by_parse bad_flags e ih =
          (bad_flags, rw (e, parse_interspersed) refl, rw (e, parse_interspersed) refl)
      by_parse (parsed (flags', [])) e ih = (
        parsed (flags', positional),
        rw (e, parse_interspersed) refl,
        rw (e, parse_interspersed) refl,
      )
      by_parse (parsed (flags', p ∷ l)) e ih =
          let shorter = less flags args flags' (p ∷ l) e in
          let (r, first, second) = ih flags' p l (omega arith) (omega arith) in
          (r, rw (e, parse_interspersed) first, rw (e, parse_interspersed) second)
