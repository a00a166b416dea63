-- ===== src/Prelude/Sorted.antt =====
-- A set of texts in the order of `sorted`.
use Prim.Native.String.{String, compare}
use Prim.Native.Nat.Ordering.{lt, eq, gt}
use mathlib.Core.Path.{◌≡◌, refl}
use mathlib.Core.Bool.{◌||◌}
use mathlib.Core.List.{List, [], ◌∷◌}
use native.Mathlib.Omega.{arith}
use text.Mathlib.Text.{◌==◌}
use text.Mathlib.TextEquality.{eq_iff}
use imbi_api.Prelude.Lists.{member}

-- A name into an ordered list of names, once.
unfoldable pub insert_name : String → List String → List String
insert_name name [] = name ∷ []
insert_name name (n ∷ names) =
    let later = insert_name name names in
    elim (compare name n) [ lt ↦ name ∷ n ∷ names | eq ↦ n ∷ names | gt ↦ n ∷ later ]

-- sorted(set(names))
unfoldable pub sort_names : List String → List String
sort_names [] = []
sort_names (name ∷ names) = insert_name name (sort_names names)

member-insert_name :
    (p name : String) (names : List String)
    → member p (insert_name name names) ≡ (name == p || member p names)
unfolding insert_name
member-insert_name p name [] = refl
member-insert_name p name (n ∷ names) =
    let ih = member-insert_name p name names in ground (arith, ih, eq_iff name n)

pub member-sort_names :
    (p : String) (names : List String) → member p (sort_names names) ≡ member p names
unfolding sort_names
member-sort_names p [] = refl
member-sort_names p (name ∷ names) =
    let ih = member-sort_names p names in
    let one = member-insert_name p name (sort_names names) in ground (arith, ih, one)
