-- ===== src/Sort/Tests.antt =====
-- A sort at a concrete input.
use lazypock.Base.{◌≡◌, refl, true, false, [], ◌∷◌, List, ok}
use lazypock.Base.Text.{codes}
use lazypock.Sort.{SortField, parse_sort}

abbrev keys : List SortField
keys =
    record { path = codes "created" ∷ []; descending = true }
    ∷ record { path = codes "author" ∷ codes "name" ∷ []; descending = false }
    ∷ []

keys_read : parse_sort (codes "-created, author.name") ≡ ok keys
unfolding parse_sort
keys_read = refl
