-- ===== src/LinkedList/Contents.antt =====
-- The lists of src/utils/lklist.c by their contents: what find_and_remove takes out.
use simulazione_transazioni.Prelude.{List, [], ◌∷◌, Option, none, some, if◌then◌else◌}
use simulazione_transazioni.Common.{Transaction}
use simulazione_transazioni.LinkedList.{compare_transactions}

-- The first transaction of the list that compares equal.
unfoldable pub find_first : Transaction → List Transaction → Option Transaction
find_first t [] = none
find_first t (u ∷ us) = if compare_transactions u t then some u else find_first t us

-- The list without it.
unfoldable pub remove_first : Transaction → List Transaction → List Transaction
remove_first t [] = []
remove_first t (u ∷ us) = if compare_transactions u t then us else u ∷ remove_first t us
