-- ===== src/Execution/Transitions/Progress.antt =====
-- What the state machines of execution_state.py guarantee of every accepted step and of every chain
-- of accepted steps.
use mathlib.Core.List.{append-nil, append_assoc}
use mathlib.Core.Path.{◌∙◌, sym}
use delivery_system.Base.{
  ap, suc, ◌+◌, ℕ_eq, String, String_eq, List_eq, Option_eq, List, [], ◌∷◌, ◌++◌, Bool, true, false,
  not, ◌&&◌, ◌||◌, none, ◌==◌, ◌!=◌, length, ◌≡◌, arith, refl, ◌⊎◌, inl, inr, length-append,
  ||-eq-false, not-eq-false, !=-eq-false, ==-eq-true,
}
use delivery_system.Errors.{ok, raise_if-then-eq-ok}
use delivery_system.Identity.{ApplicationIdentity_eq, CredentialContinuityAnchor_eq}
use delivery_system.Execution.{
  Status, pending, applying, partially_applied, Status_eq, ApplicationExecution,
}
use delivery_system.Execution.Transitions.{
  application_transition, all_but_last, validate_coordination, validate_application_transition,
  is_missing,
}

-- Both states that end an attempt or an application, and success, which only finalization writes.
abbrev pub IsTerminal : Status → Type 0
IsTerminal pending = ⊥
IsTerminal applying = ⊥
IsTerminal partially_applied = ⊥
IsTerminal _ = Unit

-- What the coordination fields hold in each state that is not terminal.
abbrev pub Coordinated : Status → ApplicationExecution → Type 0
Coordinated pending s = (s.owner_id ≡ none) × (s.current_attempt_id ≡ none)
Coordinated partially_applied s = (s.owner_id ≡ none) × (s.current_attempt_id ≡ none)
Coordinated applying s = (is_missing s.owner_id ≡ false) × (is_missing s.current_attempt_id ≡ false)
Coordinated _ s = Unit

-- The receipts that a step adds: none, or one at the end, as the claimed operation is completed.
pub data Extends (p c : ApplicationExecution) : Type 0 where
  same : c.operation_receipt_refs ≡ p.operation_receipt_refs → Extends p c
  appended :
      (ref : String)
      → c.operation_receipt_refs ≡ p.operation_receipt_refs ++ ref ∷ []
      → p.state ≡ applying
      → c.state ≡ partially_applied
      → Extends p c

last-of-longer {ℓ} :
    {A : Type ℓ} (xs ys : List A)
    → length ys ≡ suc (length xs)
    → all_but_last ys ≡ xs
    → (y : A) × (ys ≡ xs ++ y ∷ [])
unfolding all_but_last
last-of-longer xs [] h e = absurd (omega arith)
last-of-longer [] (y ∷ []) h e = (y, refl)
last-of-longer [] (y ∷ z ∷ ys) h e = absurd (omega arith)
last-of-longer (x ∷ xs) (y ∷ []) h e = absurd (omega arith)
last-of-longer (x ∷ xs) (y ∷ z ∷ ys) h e =
    let (w, q) = last-of-longer xs (z ∷ ys) (omega arith) (ground arith) in (w, ground arith)

abbrev pub IsStep : ApplicationExecution → ApplicationExecution → Type 0
IsStep p c = validate_application_transition p c ≡ ok tt

-- The checks that an accepted step has passed, one by one.
record Checks (p c : ApplicationExecution) : Type 0 where
  allowed : application_transition p.state c.state ≡ true
  same_application : p.application_id ≡ c.application_id
  same_identity : p.identity ≡ c.identity
  same_anchor : p.continuity_anchor ≡ c.continuity_anchor
  same_start : p.started_at ≡ c.started_at
  same_policy : p.orchestration_policy ≡ c.orchestration_policy
  before : p.next_operation_index ≡ length p.operation_receipt_refs
  after : c.next_operation_index ≡ length c.operation_receipt_refs
  delta :
      (c.next_operation_index == p.next_operation_index
        || c.next_operation_index == p.next_operation_index + 1)
      ≡ true
  elsewhere :
      ((p.state != applying || c.state != partially_applied)
        && (not (c.next_operation_index == p.next_operation_index)
            || not (c.operation_receipt_refs == p.operation_receipt_refs)))
      ≡ false
  unmoved :
      (c.next_operation_index == p.next_operation_index
        && not (c.operation_receipt_refs == p.operation_receipt_refs))
      ≡ false
  moved :
      (c.next_operation_index == p.next_operation_index + 1
        && all_but_last c.operation_receipt_refs != p.operation_receipt_refs)
      ≡ false
  coordination : validate_coordination p.state p c ≡ ok tt

step-Checks : (p c : ApplicationExecution) → IsStep p c → Checks p c
unfolding validate_application_transition
step-Checks p c h =
    let (f1, h1) = raise_if-then-eq-ok _ _ _ h in
    let (f2, h2) = raise_if-then-eq-ok _ _ _ h1 in
    let (f3, h3) = raise_if-then-eq-ok _ _ _ h2 in
    let (f4, h4) = raise_if-then-eq-ok _ _ _ h3 in
    let (f5, h5) = raise_if-then-eq-ok _ _ _ h4 in
    let (f6, h6) = raise_if-then-eq-ok _ _ _ h5 in
    let (f7, h7) = raise_if-then-eq-ok _ _ _ h6 in
    let (f8, h8) = raise_if-then-eq-ok _ _ _ h7 in
    let (f9, h9) = raise_if-then-eq-ok _ _ _ h8 in
    let (a, bcd) = ||-eq-false _ _ f2 in
    let (b, cd) = ||-eq-false _ _ bcd in
    let (x, d) = ||-eq-false _ _ cd in
    let (m, n) = ||-eq-false _ _ f5 in
    record {
      allowed = not-eq-false _ f1;
      same_application = !=-eq-false _ _ a;
      same_identity = !=-eq-false _ _ b;
      same_anchor = !=-eq-false _ _ x;
      same_start = !=-eq-false _ _ d;
      same_policy = !=-eq-false _ _ f3;
      before = !=-eq-false _ _ m;
      after = !=-eq-false _ _ n;
      delta = not-eq-false _ f6;
      elsewhere = f7;
      unmoved = f8;
      moved = f9;
      coordination = h9;
    }

-- The tests of the progress checks, as plain Booleans: the receipts stay, or the index advances.
either_way :
    (stays advances keeps from into cut : Bool)
    → (stays || advances) ≡ true
    → ((from || into) && (not stays || not keeps)) ≡ false
    → (stays && not keeps) ≡ false
    → (advances && cut) ≡ false
    → (keeps ≡ true) ⊎ ((advances ≡ true) × (cut ≡ false) × (from ≡ false) × (into ≡ false))
either_way stays advances keeps from into cut a b c d = ground arith

-- An accepted step leaves the receipts as they are, or completes the claimed operation by one more.
pub step-Extends : (p c : ApplicationExecution) → IsStep p c → Extends p c
step-Extends p c h =
    let k = step-Checks p c h in
    elim (either_way (c.next_operation_index == p.next_operation_index)
      (c.next_operation_index == p.next_operation_index + 1)
      (c.operation_receipt_refs == p.operation_receipt_refs) (p.state != applying)
      (c.state != partially_applied)
      (all_but_last c.operation_receipt_refs != p.operation_receipt_refs) k.delta k.elsewhere
      k.unmoved k.moved) [
        | inl kept ↦ same (==-eq-true c.operation_receipt_refs p.operation_receipt_refs kept)
        | inr (advances, uncut, from, into) ↦
            let index = ==-eq-true c.next_operation_index (p.next_operation_index + 1) advances in
            let longer : length c.operation_receipt_refs ≡ suc (length p.operation_receipt_refs) =
              omega (arith, k.before, k.after, index) in
            let (ref, grown) =
              last-of-longer p.operation_receipt_refs c.operation_receipt_refs longer (
                !=-eq-false (all_but_last c.operation_receipt_refs) p.operation_receipt_refs
                  uncut) in
            appended ref grown (!=-eq-false p.state applying from)
              (!=-eq-false c.state partially_applied into)
      ]

-- A chain of accepted steps.
pub data Chain (p : ApplicationExecution) : ApplicationExecution → Type 0 where
  here : Chain p p
  next :
      {q c : ApplicationExecution}
      → Chain p q
      → validate_application_transition q c ≡ ok tt
      → Chain p c

-- What a chain leaves alone, and the receipts that it adds.
pub record Progress (p c : ApplicationExecution) : Type 0 where
  pub application : p.application_id ≡ c.application_id
  pub identity : p.identity ≡ c.identity
  pub anchor : p.continuity_anchor ≡ c.continuity_anchor
  pub start : p.started_at ≡ c.started_at
  pub policy : p.orchestration_policy ≡ c.orchestration_policy
  pub added : List String
  pub receipts : c.operation_receipt_refs ≡ p.operation_receipt_refs ++ added
  pub index : c.next_operation_index ≡ p.next_operation_index + length added

Progress-refl : (p : ApplicationExecution) → Progress p p
Progress-refl p = record {
  application = refl;
  identity = refl;
  anchor = refl;
  start = refl;
  policy = refl;
  added = [];
  receipts = sym (append-nil _);
  index = omega arith;
}

added_by : {p c : ApplicationExecution} → Extends p c → List String
added_by (same e) = []
added_by (appended ref e f g) = ref ∷ []

receipts_by :
    (p c : ApplicationExecution) (x : Extends p c)
    → c.operation_receipt_refs ≡ p.operation_receipt_refs ++ added_by x
unfolding added_by
receipts_by p c (same e) = e ∙ sym (append-nil _)
receipts_by p c (appended ref e f g) = e

Progress-step : (p q c : ApplicationExecution) → Progress p q → IsStep q c → Progress p c
Progress-step p q c h st =
    let k = step-Checks q c st in
    let x = step-Extends q c st in
    let grown : c.operation_receipt_refs ≡ p.operation_receipt_refs ++ (h.added ++ added_by x) =
      receipts_by q c x
      ∙ ap (λ refs. refs ++ added_by x) h.receipts
      ∙ append_assoc p.operation_receipt_refs h.added (added_by x) in
    record {
      application = h.application ∙ k.same_application;
      identity = h.identity ∙ k.same_identity;
      anchor = h.anchor ∙ k.same_anchor;
      start = h.start ∙ k.same_start;
      policy = h.policy ∙ k.same_policy;
      added = h.added ++ added_by x;
      receipts = grown;
      index = omega (
        arith,
        k.before,
        k.after,
        h.index,
        ap length (receipts_by q c x),
        length-append q.operation_receipt_refs (added_by x),
        length-append h.added (added_by x),
      );
    }

-- Along any chain of accepted steps the bindings of the application stay the same, the receipts only
-- grow at the end, and the index of the next operation counts exactly the receipts added.
pub Chain-Progress : {p c : ApplicationExecution} → Chain p c → Progress p c
Chain-Progress {p} here = Progress-refl p
Chain-Progress {p} {c} (next {q} r st) = Progress-step p q c (Chain-Progress r) st

pub step-allowed :
    (p c : ApplicationExecution) → IsStep p c → application_transition p.state c.state ≡ true
step-allowed p c h = (step-Checks p c h).allowed

pub step-coordination :
    (p c : ApplicationExecution) → IsStep p c → validate_coordination p.state p c ≡ ok tt
step-coordination p c h = (step-Checks p c h).coordination
