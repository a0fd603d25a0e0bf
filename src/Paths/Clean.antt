-- ===== src/Paths/Clean.antt =====
-- filepath.Clean and filepath.IsAbs of the Unix builds: the lexical form without empty, "." and
-- inner ".." elements.
use fmon.Base.{
  ℕ, Bool, false, ◌||◌, List, [], ◌∷◌, ◌++◌, if◌then◌else◌, ◌==◌, Text, bytes, nat_eq,
  text_equality,
}
use fmon.Base.Int.{int_equality}

abbrev slash : ℕ
slash = b'/'

unfoldable pub split_path : Text → List Text
split_path [] = [] ∷ []
split_path (x ∷ xs) =
    let rest = split_path xs in
    if x == slash then [] ∷ rest else elim rest [ [] ↦ (x ∷ []) ∷ [] | c ∷ cs ↦ (x ∷ c) ∷ cs ]

-- One element, onto the elements so far, the last one first.
unfoldable pub push_element : Bool → List Text → Text → List Text
push_element rooted stack e =
    if e == [] || e == bytes "."
    then stack
    else if e == bytes ".."
    then (elim stack [
      | [] ↦ if rooted then [] else e ∷ []
      | t ∷ ts ↦ if t == bytes ".." then e ∷ t ∷ ts else ts
    ])
    else e ∷ stack

unfoldable pub push_elements : Bool → List Text → List Text → List Text
unfolding push_element
push_elements rooted stack [] = stack
push_elements rooted stack (e ∷ es) = push_elements rooted (push_element rooted stack e) es

-- The stack's elements in order, joined by the separator.
unfoldable pub join_stack : List Text → Text
join_stack [] = []
join_stack (e ∷ []) = e
join_stack (e ∷ f ∷ es) = join_stack (f ∷ es) ++ slash ∷ e

unfoldable pub is_abs : Text → Bool
is_abs [] = false
is_abs (x ∷ xs) = x == slash

unfoldable pub clean : Text → Text
unfolding split_path push_elements join_stack is_abs
clean p =
    let rooted = is_abs p in
    let joined = join_stack (push_elements rooted [] (split_path p)) in
    if rooted then slash ∷ joined else if joined == [] then bytes "." else joined
