-- ===== src/WriteOperations/Expected.antt =====
-- What the evaluation of write_operations.py finds in the expected operation sequence itself.
use delivery_system.Base.{
  ℕ_eq, String, String_eq, List_eq, ◌≡◌, refl, Bool, true, ◌&&◌, List, [], ◌∷◌, map, all, contains,
  distinct, subset, Eq, arith,
}
use delivery_system.WriteOperations.{WriteOperation, PlannedPair, PlannedPair_eq, OperationKind_eq}
use delivery_system.WriteOperations.Evaluate.{
  create_refs, operation_pairs, relationship_operation, expected_operations, loop_blockers,
}

module _ {ℓ} {A : Type ℓ} ⦃e : Eq A⦄ where
  pub contains-head : (x : A) (xs : List A) → contains (x ∷ xs) x ≡ true
  contains-head x xs = ground arith

  pub subset-cons : (y : A) (xs ys : List A) → subset xs ys ≡ true → subset xs (y ∷ ys) ≡ true
  subset-cons y [] ys h = refl
  subset-cons y (x ∷ xs) ys h = ground (arith, subset-cons y xs ys)

  pub subset_refl : (xs : List A) → subset xs xs ≡ true
  subset_refl [] = refl
  subset_refl (x ∷ xs) = ground (arith, subset-cons x xs xs (subset_refl xs))

create_refs-relationships :
    (pairs : List PlannedPair) → create_refs (map relationship_operation pairs) ≡ []
unfolding create_refs relationship_operation
create_refs-relationships [] = refl
create_refs-relationships (p ∷ pairs) = ground (arith, create_refs-relationships pairs)

-- The creations of the expected sequence are those of the items, in their order.
pub create_refs-expected :
    (refs : List String) (pairs : List PlannedPair)
    → create_refs (expected_operations refs pairs) ≡ refs
unfolding create_refs expected_operations
create_refs-expected [] pairs = create_refs-relationships pairs
create_refs-expected (r ∷ refs) pairs = ground (arith, create_refs-expected refs pairs)

operation_pairs-relationships :
    (pairs : List PlannedPair) → operation_pairs (map relationship_operation pairs) ≡ pairs
unfolding operation_pairs relationship_operation
operation_pairs-relationships [] = refl
operation_pairs-relationships (p ∷ pairs) = ground (arith, operation_pairs-relationships pairs)

-- The relationships of the expected sequence are the planned ones.
pub operation_pairs-expected :
    (refs : List String) (pairs : List PlannedPair)
    → operation_pairs (expected_operations refs pairs) ≡ pairs
unfolding operation_pairs expected_operations
operation_pairs-expected [] pairs = operation_pairs-relationships pairs
operation_pairs-expected (r ∷ refs) pairs = operation_pairs-expected refs pairs

-- Both ends of a planned relationship are items of the plan.
unfoldable pub endpoints_known : List String → PlannedPair → Bool
endpoints_known refs pair = contains refs pair.source && contains refs pair.target

-- No operation names an item twice.
unfoldable pub refs_distinct : WriteOperation → Bool
refs_distinct op = distinct op.client_refs

loop_blockers-relationships :
    (known_refs : List String) (pairs : List PlannedPair)
    → all (endpoints_known known_refs) pairs ≡ true
    → all refs_distinct (map relationship_operation pairs) ≡ true
    → loop_blockers known_refs (map relationship_operation pairs) ≡ []
unfolding loop_blockers endpoints_known refs_distinct relationship_operation
loop_blockers-relationships known_refs [] h d = refl
loop_blockers-relationships known_refs (p ∷ pairs) h d =
    ground (arith, loop_blockers-relationships known_refs pairs)

-- The first loop raises no blocker on the expected sequence.
pub loop_blockers-expected :
    (known_refs refs : List String) (pairs : List PlannedPair)
    → subset refs known_refs ≡ true
    → all (endpoints_known known_refs) pairs ≡ true
    → all refs_distinct (expected_operations refs pairs) ≡ true
    → loop_blockers known_refs (expected_operations refs pairs) ≡ []
unfolding loop_blockers expected_operations
loop_blockers-expected known_refs [] pairs s h d = loop_blockers-relationships known_refs pairs h d
loop_blockers-expected known_refs (r ∷ refs) pairs s h d =
    ground (arith, loop_blockers-expected known_refs refs pairs)
