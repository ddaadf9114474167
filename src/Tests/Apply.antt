-- ===== src/Tests/Apply.antt =====
-- Runs of the Applier on an application of two operations.
use Prim.Native.String.{◌++◌, count}
use package.text.Mathlib.TextLemmas.{length-append}
use delivery_system.Base.{
  ℕ, zero, suc, String, [], ◌∷◌, true, none, some, ℕ_eq, ◌≡◌, refl, ap, arith, ◌∙◌, sym,
}
use delivery_system.Errors.{ok}
use delivery_system.Value.{Value, Fields, field, end, text, list, integer, pos, nil, dict}
use delivery_system.Receipts.{Digests}
use delivery_system.Applier.Commands.{TextLibrary, WriteObservation, definitive_success, ambiguous}
use delivery_system.Applier.Evidence.{write_executor_identity}
use delivery_system.Applier.References.{SealedContent}
use delivery_system.Applier.Round.{Round}
use delivery_system.Applier.Sealed.{DistinguishesIndex}
use delivery_system.Tests.Fixtures.{digests, always, owner}

-- A digest that writes the index in unary.
abbrev pub ones : ℕ → String
ones zero = "1"
ones (suc n) = "1" ++ ones n

count-ones : (n : ℕ) → count (ones n) ≡ suc n
count-ones zero = refl
count-ones (suc n) = omega (arith, length-append "1" (ones n), count-ones n)

abbrev pub unary_digests : Digests
unary_digests = record digests {
  states = record digests.states { execution_digest = λ s. ones s.next_operation_index };
}

pub unary-DistinguishesIndex : DistinguishesIndex unary_digests
unary-DistinguishesIndex a b h = omega (
  arith,
  sym (count-ones a.next_operation_index) ∙ (ap count h ∙ count-ones b.next_operation_index),
)

abbrev pub texts : TextLibrary
texts = record { strip = λ s. s; lower = λ s. s; str = λ v. "1"; dumps = λ v. "value" }

abbrev declared : Value → Value
declared v = dict (
    field "value" v (
      field "declared_source" (text "issue")
        (field "provenance_status" (text "declared_unverified") end)))

abbrev item : String → Fields
item ref = field "client_ref" (text ref) (
    field "role" (declared (text "task")) (
      field "title" (declared (text "Title")) (
        field "context_problem" (declared (text "context")) (
          field "outcome" (declared (text "outcome")) (
            field "scope" (declared (text "scope")) (
              field "non_goals" (declared (list nil)) (
                field "acceptance_criteria" (declared (list nil)) (
                  field "verification" (declared (text "tests")) (
                    field "required_capabilities" (declared (list nil))
                      (field "write_metadata" (declared (text "none")) end))))))))))

abbrev pub content : SealedContent
content = record {
  repository_identity = "owner/name";
  canonical_items = item "a" ∷ item "b" ∷ [];
  canonical_version = "1";
  bindings = [];
  issue_records = none;
  revalidate = λ ref kind references. ok tt;
}

abbrev created_payload : Fields
created_payload = field "repository_identity" (text "owner/name") (
    field "issue_number" (integer (pos 7)) (
      field "numeric_issue_id" (text "70") (
        field "node_id" (text "node") (
          field "executor_identity" (text write_executor_identity) (
            field "contract_version" (text "v1")
              (field "response_status" (integer (pos 201)) end))))))

abbrev pub succeeded : WriteObservation
succeeded = record {
  kind = definitive_success;
  result_identity = "70";
  result_payload = some (dict created_payload);
  code = none;
}

abbrev pub unknown : WriteObservation
unknown = record { kind = ambiguous; result_identity = ""; result_payload = none; code = none }

abbrev pub round_of : WriteObservation → Round
round_of observation = record {
  owner = owner;
  claim_time = "10:01Z";
  receipt_time = "10:01Z";
  end_time = "10:01Z";
  claim_current = always;
  validate_current = ok tt;
  before_dispatch = ok tt;
  after_dispatch = ok tt;
  receipt_current = always;
  end_current = always;
  receipt_registered = true;
  before_claim = λ db. db;
  before_reload = λ db. db;
  before_receipt = λ db. db;
  before_validation = λ db. db;
  before_materialization = λ db. db;
  before_end = λ db. db;
  revalidate = λ ref kind references. ok tt;
  dispatch = λ kind command. ok observation;
}

-- Every write succeeds.
abbrev pub all_succeed : ℕ → Round
all_succeed k = round_of succeeded

-- The second write is ambiguous.
abbrev pub second_unknown : ℕ → Round
second_unknown zero = round_of succeeded
second_unknown (suc k) = round_of unknown
