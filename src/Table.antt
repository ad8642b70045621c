-- ===== src/Table.antt =====
-- A GHashTable with string keys, as the list of its entries: what src/main.c uses of it. A key
-- is inserted only after a lookup that did not find it, so an insertion replaces nothing.
pub mod Uses
use sib_tcp.Prelude.{
  ℕ, ◌≡◌, refl, Option, none, some, List, [], ◌∷◌, Bytes, arith, bytes_eq, bytes_eq_iff,
  if◌then◌else◌,
}

abbrev pub Table : Type 0
Table = List (Bytes × ℕ)

-- g_hash_table_lookup
unfoldable pub lookup : Bytes → Table → Option ℕ
lookup k [] = none
lookup k ((j, p) ∷ t) = if bytes_eq j k then some p else lookup k t

-- g_hash_table_insert
unfoldable pub insert : Bytes → ℕ → Table → Table
insert k p t = (k, p) ∷ t

-- g_hash_table_remove, without the call of the destroy functions
unfoldable pub remove : Bytes → Table → Table
remove k [] = []
remove k ((j, p) ∷ t) = let rest = remove k t in if bytes_eq j k then rest else (j, p) ∷ rest

pub lookup-insert :
    (k j : Bytes) (p : ℕ) (t : Table)
    → lookup j (insert k p t) ≡ (if bytes_eq k j then some p else lookup j t)
unfolding lookup insert
lookup-insert k j p t = refl

pub lookup-remove :
    (k j : Bytes) (t : Table) → lookup j (remove k t) ≡ (if bytes_eq k j then none else lookup j t)
unfolding lookup remove
lookup-remove k j [] = ground arith
lookup-remove k j ((i, p) ∷ t) =
    ground (arith, lookup-remove k j t, bytes_eq_iff i k, bytes_eq_iff i j, bytes_eq_iff k j)

remove_absent : (k : Bytes) (t : Table) → lookup k t ≡ none → remove k t ≡ t
unfolding lookup remove
remove_absent k [] h = refl
remove_absent k ((j, p) ∷ t) h = ground (arith, remove_absent k t)

-- A key that was not there leaves no trace when it goes again.
pub remove-insert :
    (k : Bytes) (p : ℕ) (t : Table) → lookup k t ≡ none → remove k (insert k p t) ≡ t
unfolding remove insert
remove-insert k p t h = ground (arith, bytes_eq_iff k k, remove_absent k t h)

pub ruleset table_laws = (lookup-insert, lookup-remove)
