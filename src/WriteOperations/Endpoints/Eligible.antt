-- ===== src/WriteOperations/Endpoints/Eligible.antt =====
-- When the V2 contract of write_operations.py finds operations write-eligible.
use delivery_system.Base.{
  sym, ap, ◌∙◌, ◌≢◌, ◌⊎◌, inl, inr, ◌&&◌, ◌==◌, map, String, String_eq, List_eq, List, [], ◌∷◌,
  ◌++◌, Bool, true, false, not, ◌||◌, ◌!=◌, ◌≡◌, refl, some, any, contains, distinct, same_set,
  !=-eq-false, eq_refl,
}
use delivery_system.Errors.{
  ok, >>=-eq-ok, raise_if-then-eq-ok, or_raise, or_raise-eq-ok, ok-injective,
  write_operation_item_set_invalid, write_operation_endpoint_set_invalid,
  write_operation_reference_namespace_collision,
}
use delivery_system.Value.{Value, Fields}
use delivery_system.WriteOperations.Endpoints.{
  EndpointKind, work_item, existing_issue, EndpointKind-discrete, EndpointKind_eq, Endpoint,
  Endpoint_eq, create_item, relate, EndpointOperation, EndpointOperation_eq, EndpointPair,
  EndpointPair_eq, normalize_write_operations_v2,
}
use delivery_system.WriteOperations.Endpoints.Evaluate.{
  EndpointBlocker, EndpointEvaluation, order, append_if, refs_of, has_items, all_operation_blockers,
  created_refs, related_pairs, pair_blockers, already_exists, expected_endpoint_operations,
  endpoint_blockers, no_blockers, planned_endpoint_pairs, evaluate_write_operations_v2,
  create_incomplete, relationships_incomplete, relationship_exists, relationship_shape,
  existing_to_existing,
}

no_blockers-append :
    (xs ys : List EndpointBlocker)
    → no_blockers (xs ++ ys) ≡ true
    → (xs ≡ []) × (no_blockers ys ≡ true)
unfolding no_blockers
no_blockers-append [] ys h = (refl, h)
no_blockers-append (x ∷ xs) ys h = cc

append_if-none :
    (test : Bool) (b : EndpointBlocker) → no_blockers (append_if test b) ≡ true → test ≡ false
unfolding no_blockers
append_if-none true b h = cc
append_if-none false b h = refl

unblocked :
    (work existing : List String) (pairs : List EndpointPair) (bindings records : List Value)
    (ops : List EndpointOperation)
    → no_blockers (endpoint_blockers work existing pairs bindings records ops) ≡ true
    → (ops ≡ expected_endpoint_operations work pairs) × (pair_blockers pairs ≡ [])
unfolding endpoint_blockers
unblocked work existing pairs bindings records ops h =
    let (a, h1) = no_blockers-append (all_operation_blockers work existing ops) _ h in
    let (b, h2) =
      no_blockers-append
        (append_if (not (distinct (created_refs ops)) || not (same_set (created_refs ops) work))
          create_incomplete)
        _ h1 in
    let (c, h3) = no_blockers-append (pair_blockers pairs) _ h2 in
    let (d, h4) =
      no_blockers-append
        (append_if (not (same_set pairs (related_pairs ops))) relationships_incomplete) _ h3 in
    let (e, h5) =
      no_blockers-append
        (append_if (any (already_exists bindings records) pairs) relationship_exists) _ h4 in
    (
      !=-eq-false ops (expected_endpoint_operations work pairs)
          (append_if-none (ops != expected_endpoint_operations work pairs) order h5),
      c,
    )

-- Relationships of two different endpoints, of which at least one is an item of the plan.
pub data AllJoin : List EndpointPair → Type 0 where
  no_pair : AllJoin []
  one_more :
      (p : EndpointPair) (ps : List EndpointPair)
      → p.source ≢ p.target
      → (p.source.endpoint_kind ≡ work_item) ⊎ (p.target.endpoint_kind ≡ work_item)
      → AllJoin ps
      → AllJoin (p ∷ ps)

append_if-empty : (test : Bool) (b : EndpointBlocker) → append_if test b ≡ [] → test ≡ false
append_if-empty true b h = cc
append_if-empty false b h = refl

append-empty {ℓ} : {A : Type ℓ} (xs ys : List A) → xs ++ ys ≡ [] → (xs ≡ []) × (ys ≡ [])
append-empty [] ys h = (refl, h)
append-empty (x ∷ xs) ys h = cc

one_is_item :
    (first second : EndpointKind)
    → (first == existing_issue && second == existing_issue) ≡ false
    → (first ≡ work_item) ⊎ (second ≡ work_item)
unfolding EndpointKind-discrete EndpointKind_eq
one_is_item work_item second h = inl refl
one_is_item existing_issue work_item h = inr refl
one_is_item existing_issue existing_issue h = cc

differ : (e e' : Endpoint) → (e == e') ≡ false → e ≢ e'
differ e e' h same = let equal : (e == e') ≡ true = rw⁻¹ same (eq_refl e) in cc

pair_blockers-AllJoin : (pairs : List EndpointPair) → pair_blockers pairs ≡ [] → AllJoin pairs
unfolding pair_blockers
pair_blockers-AllJoin [] h = no_pair
pair_blockers-AllJoin (p ∷ ps) h =
    let (shape, h1) = append-empty (append_if (p.source == p.target) relationship_shape) _ h in
    let (kinds, h2) =
      append-empty
        (append_if
          (p.source.endpoint_kind == existing_issue && p.target.endpoint_kind == existing_issue)
          existing_to_existing)
        _ h1 in
    one_more p ps (differ p.source p.target (append_if-empty _ relationship_shape shape))
      (one_is_item p.source.endpoint_kind p.target.endpoint_kind
        (append_if-empty _ existing_to_existing kinds))
      (pair_blockers-AllJoin ps h2)

-- A V2 evaluation that returns and finds the operations write-eligible returns exactly the creations of
-- the items in order followed by the planned relationships, all without dependencies, and each planned
-- relationship joins two different endpoints, of which at least one is an item.
pub evaluate_v2-eligible :
    (intents : Value) (items : List Value) (payload : Fields) (bindings records : List Value)
    (work : List String) (pairs : List EndpointPair) (evaluation : EndpointEvaluation)
    → refs_of "client_ref" items ≡ some work
    → planned_endpoint_pairs payload ≡ ok pairs
    → evaluate_write_operations_v2 intents items payload bindings records ≡ ok evaluation
    → evaluation.eligible ≡ true
    → (evaluation.operations
        ≡ map (λ ref. create_item (record { endpoint_kind = work_item; ref = ref }) []) work
          ++ map (λ (p : EndpointPair). relate p.relationship p.source p.target []) pairs)
      × AllJoin pairs
unfolding evaluate_write_operations_v2 expected_endpoint_operations
evaluate_v2-eligible intents items payload bindings records work pairs evaluation hw hp h eligible =
    let (ops, normal, h1) = >>=-eq-ok (normalize_write_operations_v2 intents) _ h in
    let (work', read, h2) =
      >>=-eq-ok (or_raise (refs_of "client_ref" items) write_operation_item_set_invalid) _ h1 in
    let (f1, h3) =
      raise_if-then-eq-ok (not (has_items work') || not (distinct work'))
        write_operation_item_set_invalid _ h2 in
    let (existing, read', h4) =
      >>=-eq-ok (or_raise (refs_of "endpoint_ref" bindings) write_operation_endpoint_set_invalid) _
        h3 in
    let (f2, h5) =
      raise_if-then-eq-ok (not (distinct existing)) write_operation_endpoint_set_invalid _ h4 in
    let (f3, h6) =
      raise_if-then-eq-ok (any (contains existing) work')
        write_operation_reference_namespace_collision _ h5 in
    let (pairs', planned, h7) = >>=-eq-ok (planned_endpoint_pairs payload) _ h6 in
    let same_work : some work' ≡ some work = sym (or_raise-eq-ok _ _ read) ∙ hw in
    let work_eq : work' ≡ work = cc in
    let pairs_eq : pairs' ≡ pairs = ok-injective _ _ (sym planned ∙ hp) in
    let made = ok-injective _ _ h7 in
    let (expected, clean) =
      unblocked work' existing pairs' bindings records ops
        (ap (λ (v : EndpointEvaluation). v.eligible) made ∙ eligible) in
    (
      ap (λ (v : EndpointEvaluation). v.operations) (sym made)
          ∙ (expected
              ∙ (ap (λ w. expected_endpoint_operations w pairs') work_eq
                  ∙ ap (expected_endpoint_operations work) pairs_eq)),
      pair_blockers-AllJoin pairs (ap pair_blockers (sym pairs_eq) ∙ clean),
    )
