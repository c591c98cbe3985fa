-- ===== src/Keys/Memory.antt =====
-- A reader of keys that does what is documented: the table is in the order of the query already, and
-- the last row loses its seventh cell where that is empty.
use mathlib.Core.List.Perm
use sub2api_gate.Base.{
  ◌≡◌, refl, inl, inr, Bool, true, false, Bool-cases, List, [], ◌∷◌, map, take, drop, Text, decimal,
  if◌then◌else◌, ok,
}
use sub2api_gate.Base.Decimal.{decimal-show_nat}
use sub2api_gate.Keys.{KeyReader, key_columns}
use sub2api_gate.Keys.Shown.{IsDocumented, ReadsBack}

abbrev is_blank : List Text → Bool
is_blank ([] ∷ []) = true
is_blank _ = false

is_blank-eq : (cells : List Text) → is_blank cells ≡ true → cells ≡ [] ∷ []
is_blank-eq ([] ∷ []) h = refl
is_blank-eq _ h = cc

abbrev pub strip_last : List (List Text) → List (List Text)
strip_last [] = []
strip_last (row ∷ []) = (if is_blank (drop 6 row) then take 6 row else row) ∷ []
strip_last (row ∷ next ∷ rows) = row ∷ strip_last (next ∷ rows)

strip_last-ReadsBack : (rows : List (List Text)) → ReadsBack rows (strip_last rows)
strip_last-ReadsBack [] = tt
strip_last-ReadsBack (row ∷ []) = elim (Bool-cases (is_blank (drop 6 row))) [
  | inl blank ↦ rw blank (inr (refl, refl, refl, is_blank-eq (drop 6 row) blank))
  | inr shown ↦ rw shown (inl (refl, tt))
]
strip_last-ReadsBack (row ∷ next ∷ rows) = inl (refl, strip_last-ReadsBack (next ∷ rows))

abbrev pub memory : KeyReader
memory = record {
  order_by_id = λ keys. keys;
  read_back = strip_last;
  number_of = λ t. ok (decimal t);
}

pub memory-IsDocumented : IsDocumented memory
memory-IsDocumented = record {
  ordered = λ keys. Perm.rfl;
  reads = λ groups keys plain. strip_last-ReadsBack (map (key_columns groups) keys);
  numbers = λ n. rw (decimal-show_nat n);
}
