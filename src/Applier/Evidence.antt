-- ===== src/Applier/Evidence.antt =====
-- applier.py: which evidence of a write becomes a receipt, and to which state an operation without
-- success is settled.
use Prim.Native.Char.{code}
use Prim.Native.String.{◌++◌, count}
use delivery_system.Base.{
  ℕ_eq, String, String_eq, Bool, true, false, not, ◌&&◌, Option, none, some, [], ◌∷◌, ◌==◌, ◌!=◌,
  leb, ltb, same_set, if◌then◌else◌,
}
use delivery_system.Errors
use delivery_system.Errors.{
  Code, Result, ok, ◌>>=◌, ◌>>◌, raise, raise_if, or_raise, write_observation_invalid,
  write_operation_kind_invalid,
}
use delivery_system.Value.{Value, text, integer, float, pos, Fields, keys, get, as_dict}
use delivery_system.WriteOperations.{
  OperationKind, create_issue, add_sub_issue, add_dependency, unsupported,
}
use delivery_system.Execution.{Status, failed, blocked, outcome_unknown}
use delivery_system.Receipts.{RemoteResult}
use delivery_system.Applier.Commands.{WriteObservation, definitive_rejected, ambiguous}
use delivery_system.Applier.Render.{is_text_value}

-- `WRITE_EXECUTOR_IDENTITY`
abbrev pub write_executor_identity : String
write_executor_identity = "delivery-system:github-rest-write-v1"

-- `type(value) is int and value > 0`
unfoldable pub is_positive_integer : Option Value → Bool
is_positive_integer (some (integer (pos n))) = ltb 0 n
is_positive_integer _ = false

-- `all("0" <= char <= "9" for char in text)`
unfoldable pub all_digits : String → Bool
all_digits String.[] = true
all_digits (String.◌∷◌ c s) = leb 48 (code c) && leb (code c) 57 && all_digits s

unfoldable pub starts_with_zero : String → Bool
starts_with_zero String.[] = false
starts_with_zero (String.◌∷◌ c s) = code c == 48

-- A decimal numeral of at most twenty digits, that does not start with 0.
unfoldable pub is_numeric_id : Option Value → Bool
unfolding all_digits starts_with_zero
is_numeric_id (some (text s)) =
    leb 1 (count s) && (leb (count s) 20 && (not (starts_with_zero s) && all_digits s))
is_numeric_id _ = false

unfoldable pub is_any_text : Option Value → Bool
is_any_text (some (text s)) = true
is_any_text _ = false

unfoldable pub is_nonempty_text : Option Value → Bool
is_nonempty_text (some (text s)) = s != ""
is_nonempty_text _ = false

-- `value == 201`: the float 201.0 equals it.
unfoldable pub is_created_status : Option Value → Bool
is_created_status (some (integer (pos n))) = n == 201
is_created_status (some (float s)) = s == "201.0"
is_created_status _ = false

-- The two sets of conditions of `_trusted_success_result` on the payload.
unfoldable pub is_issue_evidence : String → Fields → Bool
unfolding is_positive_integer is_numeric_id is_any_text is_nonempty_text is_created_status
    is_text_value
is_issue_evidence repository_identity payload =
    same_set (keys payload) (
      "repository_identity" ∷ "issue_number" ∷ "numeric_issue_id" ∷ "node_id" ∷ "executor_identity"
      ∷ "contract_version" ∷ "response_status" ∷ [])
    && (is_text_value (get payload "repository_identity") repository_identity
        && (is_positive_integer (get payload "issue_number")
            && (is_numeric_id (get payload "numeric_issue_id")
                && (is_nonempty_text (get payload "node_id")
                    && (is_text_value (get payload "executor_identity") write_executor_identity
                        && (is_any_text (get payload "contract_version")
                            && is_created_status (get payload "response_status")))))))

unfoldable pub is_relationship_evidence : String → Fields → Bool
unfolding is_any_text is_created_status is_text_value
is_relationship_evidence repository_identity payload =
    is_text_value (get payload "repository_identity") repository_identity
    && (is_text_value (get payload "executor_identity") write_executor_identity
        && (is_any_text (get payload "contract_version")
            && is_created_status (get payload "response_status")))

unfoldable pub check_evidence : OperationKind → String → Fields → Result (Unit {0})
unfolding is_issue_evidence is_relationship_evidence
check_evidence create_issue repository payload =
    raise_if (not (is_issue_evidence repository payload)) write_observation_invalid
check_evidence add_sub_issue repository payload =
    raise_if (not (is_relationship_evidence repository payload)) write_observation_invalid
check_evidence add_dependency repository payload =
    raise_if (not (is_relationship_evidence repository payload)) write_observation_invalid
check_evidence (unsupported kind) repository payload = raise write_operation_kind_invalid

unfoldable pub kind_text : OperationKind → String
kind_text create_issue = "create_issue"
kind_text add_sub_issue = "add_sub_issue"
kind_text add_dependency = "add_dependency"
kind_text (unsupported kind) = kind

-- `_trusted_success_result`, with the digest of a JSON value
unfoldable pub trusted_success_result :
    (Value → String) → String → OperationKind → WriteObservation → Result RemoteResult
unfolding check_evidence kind_text
trusted_success_result digest repository_identity kind observation = do
  payload ← or_raise (as_dict observation.result_payload) write_observation_invalid
  check_evidence kind repository_identity payload
  raise_if (observation.result_identity == "") write_observation_invalid
  ok (record {
    result_kind = "github." ++ kind_text kind ++ ".v1";
    result_identity = observation.result_identity;
    result_digest = digest (Value.dict payload);
    result_payload = Value.dict payload;
  })

-- The exceptions of the materialization that block the operation; the others fail it.
unfoldable pub blocks_materialization : Code → Bool
blocks_materialization Errors.existing_endpoint_not_found = true
blocks_materialization Errors.existing_endpoint_repository_mismatch = true
blocks_materialization Errors.existing_endpoint_identity_mismatch = true
blocks_materialization Errors.existing_endpoint_write_address_invalid = true
blocks_materialization Errors.existing_endpoint_semantic_stale = true
blocks_materialization Errors.relationship_already_exists = true
blocks_materialization Errors.remote_observation_unavailable = true
blocks_materialization Errors.write_reference_unavailable = true
blocks_materialization Errors.write_executor_invalid = true
blocks_materialization Errors.runtime_authority_required = true
blocks_materialization _ = false

unfoldable pub materialization_target : Code → Status
unfolding blocks_materialization
materialization_target code = if blocks_materialization code then blocked else failed

-- The exceptions of a dispatch that block the operation; the others leave it claimed.
unfoldable pub blocks_dispatch : Code → Bool
blocks_dispatch Errors.credential_capability_unregistered = true
blocks_dispatch Errors.credential_principal_mismatch = true
blocks_dispatch Errors.credential_instance_mismatch = true
blocks_dispatch Errors.credential_repository_mismatch = true
blocks_dispatch Errors.credential_scope_mismatch = true
blocks_dispatch Errors.credential_capability_mismatch = true
blocks_dispatch Errors.credential_currentness_mismatch = true
blocks_dispatch Errors.credential_expired = true
blocks_dispatch _ = false

unfoldable pub blocks_observation : Code → Bool
blocks_observation Errors.github_write_authority_rejected = true
blocks_observation Errors.github_write_target_unavailable = true
blocks_observation Errors.github_write_conflict = true
blocks_observation Errors.github_write_rate_limited = true
blocks_observation Errors.github_write_redirect_rejected = true
blocks_observation _ = false

-- `observation.code or (…)`
unfoldable pub observation_code : WriteObservation → Code
observation_code observation = elim observation.code [
  | some code ↦ code
  | none ↦ elim observation.kind [
    | definitive_rejected ↦ Errors.github_write_rejected
    | _ ↦ Errors.github_write_transport_ambiguous
  ]
]

-- The state of an operation that was not a definitive success.
unfoldable pub observation_target : WriteObservation → Status
unfolding blocks_observation observation_code
observation_target observation = elim observation.kind [
  | ambiguous ↦ outcome_unknown
  | _ ↦ if blocks_observation (observation_code observation) then blocked else failed
]
