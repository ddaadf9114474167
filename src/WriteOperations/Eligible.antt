-- ===== src/WriteOperations/Eligible.antt =====
-- Write eligibility of write_operations.py: the blockers all vanish for one operation sequence only.
use delivery_system.Base.{
  ℕ_eq, String, String_eq, List_eq, ◌≡◌, refl, ◌↔◌, true, false, not, List, [], ◌∷◌, ◌++◌, map, all,
  any, contains, distinct, subset, Eq, arith,
}
use delivery_system.Errors.{ok, or_raise, write_operation_set_invalid, >>=-eq-ok}
use delivery_system.Value.{Value, Fields, as_sequence}
use delivery_system.WriteOperations.{
  WriteOperation, WriteOperation_eq, PlannedPair, PlannedPair_eq, normalize_operation,
  normalize_each, normalize_write_operations,
}
use delivery_system.WriteOperations.Evaluate.{
  Blocker, WriteOperationEvaluation, blockers_of, loop_blockers, expected_operations, is_empty,
  item_refs, planned_pairs, evaluate_write_operations, evaluation_of, relationship_operation,
}
use delivery_system.WriteOperations.Expected.{
  subset_refl, create_refs-expected, operation_pairs-expected, endpoints_known, refs_distinct,
  loop_blockers-expected,
}

-- Nothing of a subset is missing.
absent-none {ℓ} :
    {A : Type ℓ} ⦃e : Eq A⦄ (xs ys : List A)
    → subset xs ys ≡ true
    → any (λ x. not (contains ys x)) xs ≡ false
absent-none [] ys h = refl
absent-none (x ∷ xs) ys h = ground (arith, absent-none xs ys)

is_empty-append :
    (xs ys : List Blocker)
    → is_empty (xs ++ ys) ≡ true
    → (is_empty xs ≡ true) × (is_empty ys ≡ true)
unfolding is_empty
is_empty-append [] ys h = (refl, h)
is_empty-append (x ∷ xs) ys h = cc

normalize_operation-refs_distinct :
    (v : Value) (op : WriteOperation) → normalize_operation v ≡ ok op → refs_distinct op ≡ true
unfolding normalize_operation refs_distinct
normalize_operation-refs_distinct v op h = ground arith

-- Every operation that normalization lets through names pairwise different items.
normalize_each-refs_distinct :
    (vs : List Value) (ops : List WriteOperation)
    → normalize_each vs ≡ ok ops
    → all refs_distinct ops ≡ true
unfolding normalize_each
normalize_each-refs_distinct [] ops h = ground arith
normalize_each-refs_distinct (v ∷ vs) ops h =
    let (op, read, rest_read) = >>=-eq-ok (normalize_operation v) _ h in
    let (rest, reads, same) = >>=-eq-ok (normalize_each vs) _ rest_read in
    ground (
      arith,
      normalize_operation-refs_distinct v op read,
      normalize_each-refs_distinct vs rest reads,
    )

blockers-expected :
    (refs : List String) (pairs : List PlannedPair)
    → distinct refs ≡ true
    → all (endpoints_known refs) pairs ≡ true
    → all refs_distinct (expected_operations refs pairs) ≡ true
    → is_empty (blockers_of refs pairs (expected_operations refs pairs)) ≡ true
unfolding blockers_of is_empty
blockers-expected refs pairs d h r =
    rw
      (
        loop_blockers-expected refs refs pairs (subset_refl refs) h r,
        create_refs-expected,
        operation_pairs-expected,
      )
      (ground (arith, subset_refl refs, absent-none pairs pairs (subset_refl pairs)))

known-of-relationships :
    (known_refs : List String) (pairs : List PlannedPair)
    → is_empty (loop_blockers known_refs (map relationship_operation pairs)) ≡ true
    → all (endpoints_known known_refs) pairs ≡ true
unfolding loop_blockers is_empty endpoints_known relationship_operation
known-of-relationships known_refs [] h = refl
known-of-relationships known_refs (p ∷ pairs) h =
    ground (arith, known-of-relationships known_refs pairs)

known-of-expected :
    (known_refs refs : List String) (pairs : List PlannedPair)
    → is_empty (loop_blockers known_refs (expected_operations refs pairs)) ≡ true
    → all (endpoints_known known_refs) pairs ≡ true
unfolding loop_blockers is_empty expected_operations
known-of-expected known_refs [] pairs h = known-of-relationships known_refs pairs h
known-of-expected known_refs (r ∷ refs) pairs h =
    ground (arith, known-of-expected known_refs refs pairs)

-- What the source checks before it looks for blockers.
item_refs-distinct :
    (items : List Value) (refs : List String) → item_refs items ≡ ok refs → distinct refs ≡ true
unfolding item_refs
item_refs-distinct items refs h = ground arith

normalize-refs_distinct :
    (intents : Value) (ops : List WriteOperation)
    → normalize_write_operations intents ≡ ok ops
    → all refs_distinct ops ≡ true
unfolding normalize_write_operations
normalize-refs_distinct intents ops h =
    let (vs, sequence, each) =
      >>=-eq-ok (or_raise (as_sequence intents) write_operation_set_invalid) _ h in
    normalize_each-refs_distinct vs ops each

eligible-expected :
    (refs : List String) (pairs : List PlannedPair) (ops : List WriteOperation)
    → is_empty (blockers_of refs pairs ops) ≡ true
    → ops ≡ expected_operations refs pairs
unfolding blockers_of is_empty
eligible-expected refs pairs ops h =
    ground (arith, (is_empty-append (loop_blockers refs ops) _ h).1)

loop-of-blockers :
    (refs : List String) (pairs : List PlannedPair) (ops : List WriteOperation)
    → is_empty (blockers_of refs pairs ops) ≡ true
    → is_empty (loop_blockers refs ops) ≡ true
unfolding blockers_of
loop-of-blockers refs pairs ops h = (is_empty-append (loop_blockers refs ops) _ h).0

evaluate-eq-ok :
    (intents : Value) (items : List Value) (semantic_payload : Fields) (refs : List String)
    (pairs : List PlannedPair) (evaluation : WriteOperationEvaluation)
    → item_refs items ≡ ok refs
    → planned_pairs semantic_payload ≡ ok pairs
    → evaluate_write_operations intents items semantic_payload ≡ ok evaluation
    → (ops : List WriteOperation) × (normalize_write_operations intents ≡ ok ops)
      × (evaluation ≡ evaluation_of refs pairs ops)
unfolding evaluate_write_operations
evaluate-eq-ok intents items semantic_payload refs pairs evaluation hi hp h =
    let (ops, normal, rest) = >>=-eq-ok (normalize_write_operations intents) _ h in
    (ops, normal, ground arith)

-- An evaluation that returns finds the operations write-eligible exactly when they are the expected
-- sequence, the creations of the items in order and then the planned relationships, and every
-- planned relationship joins two items of the plan.
pub eligible-iff-expected :
    (intents : Value) (items : List Value) (semantic_payload : Fields) (refs : List String)
    (pairs : List PlannedPair) (evaluation : WriteOperationEvaluation)
    → item_refs items ≡ ok refs
    → planned_pairs semantic_payload ≡ ok pairs
    → evaluate_write_operations intents items semantic_payload ≡ ok evaluation
    → (evaluation.eligible ≡ true) ↔ (
        (evaluation.operations ≡ expected_operations refs pairs)
        × (all (endpoints_known refs) pairs ≡ true))
unfolding evaluation_of
eligible-iff-expected intents items semantic_payload refs pairs evaluation hi hp h =
    let (ops, normal, same) =
      evaluate-eq-ok intents items semantic_payload refs pairs evaluation hi hp h in
    rw same (
      λ eligible.
          let expected = eligible-expected refs pairs ops eligible in
          (
            expected,
            known-of-expected refs refs pairs
                (rw expected at (loop-of-blockers refs pairs ops eligible)),
          ),
      λ (expected, known).
          let distinct_refs = rw expected at (normalize-refs_distinct intents ops normal) in
          rw expected
            (blockers-expected refs pairs (item_refs-distinct items refs hi) known distinct_refs),
    )
