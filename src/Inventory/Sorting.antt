-- ===== src/Inventory/Sorting.antt =====
-- The order of the lines of a bulk reservation (apps/inventory/services.py).
use high_performance_e_comme.Common.{
  ℕ, ◌≤◌, inl, inr, List, [], ◌∷◌, arith, leb, Bool-cases, From, IsSorted, From-le,
}
use high_performance_e_comme.Inventory.{Line, insert_line, sorted_lines}

abbrev pub line_key : Line → ℕ
line_key line = line.0

insert_line-From :
    (p : ℕ) (x : Line) (ls : List Line)
    → p ≤ x.0
    → From line_key p ls
    → From line_key p (insert_line x ls)
unfolding insert_line
insert_line-From p x [] h k = (h, tt)
insert_line-From p x (y ∷ ys) h (k, ks) = elim (Bool-cases (leb x.0 y.0)) [
  | inl first ↦ rw first (h, (k, ks))
  | inr later ↦ rw later (k, insert_line-From p x ys h ks)
]

insert_line-IsSorted :
    (x : Line) (ls : List Line) → IsSorted line_key ls → IsSorted line_key (insert_line x ls)
unfolding insert_line
insert_line-IsSorted x [] h = (tt, tt)
insert_line-IsSorted x (y ∷ ys) (h, hs) = elim (Bool-cases (leb x.0 y.0)) [
  | inl first ↦
      let le : x.0 ≤ y.0 = ground arith in
      rw first ((le, From-le line_key x.0 y.0 ys le h), (h, hs))
  | inr later ↦ rw later (insert_line-From y.0 x ys (ground arith) h, insert_line-IsSorted x ys hs)
]

pub sorted_lines-IsSorted : (ls : List Line) → IsSorted line_key (sorted_lines ls)
unfolding sorted_lines
sorted_lines-IsSorted [] = tt
sorted_lines-IsSorted (x ∷ xs) = insert_line-IsSorted x (sorted_lines xs) (sorted_lines-IsSorted xs)
