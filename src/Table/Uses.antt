-- ===== src/Table/Uses.antt =====
-- How often a table points to a waiter.
use sib_tcp.Prelude.{
  ℕ, ◌+◌, ◌≤◌, ◌≡◌, refl, some, [], ◌∷◌, Bytes, arith, bytes_eq_iff, ◌==◌, if◌then◌else◌,
}
use sib_tcp.Table.{Table, lookup, insert, remove}

-- The number of entries for the waiter `p`.
unfoldable pub uses : ℕ → Table → ℕ
uses p [] = 0
uses p ((k, q) ∷ t) = (if q == p then 1 else 0) + uses p t

pub uses-insert :
    (p : ℕ) (k : Bytes) (q : ℕ) (t : Table)
    → uses p (insert k q t) ≡ (if q == p then 1 else 0) + uses p t
unfolding uses insert
uses-insert p k q t = refl

pub uses-remove-le : (p : ℕ) (k : Bytes) (t : Table) → uses p (remove k t) ≤ uses p t
unfolding uses remove
uses-remove-le p k [] = omega arith
uses-remove-le p k ((j, q) ∷ t) = ground (arith, uses-remove-le p k t)

pub uses_of_lookup :
    (p : ℕ) (k : Bytes) (t : Table) → lookup k t ≡ some p → uses p (remove k t) + 1 ≤ uses p t
unfolding uses remove lookup
uses_of_lookup p k [] h = cc
uses_of_lookup p k ((j, q) ∷ t) h = ground (arith, uses_of_lookup p k t, uses-remove-le p k t)

-- A waiter with one entry is found under one key.
pub lookup-injective :
    (p : ℕ) (k j : Bytes) (t : Table)
    → uses p t ≤ 1
    → lookup k t ≡ some p
    → lookup j t ≡ some p
    → k ≡ j
unfolding uses lookup
lookup-injective p k j [] h a b = cc
lookup-injective p k j ((i, q) ∷ t) h a b = ground (
  arith,
  bytes_eq_iff i k,
  bytes_eq_iff i j,
  uses_of_lookup p k t,
  uses_of_lookup p j t,
  lookup-injective p k j t,
)
