-- ===== src/Applier/Commands.antt =====
-- drivers/write_contract.py: what the Applier hands to a write executor, and what comes back.
use Prim.Native.Char.{code}
use Prim.Native.String.{◌++◌}
use delivery_system.Base.{
  ℕ, ℕ_eq, Option, String, String_eq, List, [], ◌∷◌, Bool, ◌||◌, ◌==◌, ◌!=◌, Eq, any, if◌then◌else◌,
  String-discrete,
}
use delivery_system.Errors.{
  Code, Result, ok, ◌>>=◌, ◌>>◌, raise, raise_if, write_reference_invalid, write_command_invalid,
  repository_identity_invalid,
}
use delivery_system.Value.{Value}

-- What the code uses of Python's `str` and `json`.
pub record TextLibrary : Type 0 where
  pub strip : String → String
  pub lower : String → String
  -- `str` of a JSON value
  pub str : Value → String
  -- `json.dumps` with sorted keys and without spaces
  pub dumps : Value → String

-- `text.split("/")`
unfoldable pub split_slash : String → List String
split_slash String.[] = "" ∷ []
split_slash (String.◌∷◌ c s) =
    let parts = split_slash s in
    if code c == 47
    then "" ∷ parts
    else elim parts [ [] ↦ [] | part ∷ rest ↦ (String.◌∷◌ c part) ∷ rest ]

pub record RemoteIssueReference : Type 0 where
  pub repository_identity : String
  pub issue_number : ℕ
  pub numeric_issue_id : String
  pub node_id : String

unfoldable pub RemoteIssueReference-discrete : Discrete RemoteIssueReference
unfolding ℕ_eq
RemoteIssueReference-discrete = hlevel (String-discrete, ℕ_eq.dec)

instance unfoldable pub RemoteIssueReference_eq : Eq RemoteIssueReference
RemoteIssueReference_eq = record { dec = RemoteIssueReference-discrete }

pub record CreateIssueCommand : Type 0 where
  pub repository_identity : String
  pub client_ref : String
  pub title : String
  pub body : String
  pub request_identity : String

pub record RelationshipCommand : Type 0 where
  pub repository_identity : String
  pub first : RemoteIssueReference
  pub second : RemoteIssueReference

pub data Command : Type 0 where
  creates : CreateIssueCommand → Command
  relates : RelationshipCommand → Command

pub data WriteObservationKind : Type 0 where
  definitive_success definitive_rejected ambiguous : WriteObservationKind

-- The empty code of an observation is `none`, as is a payload that it does not carry.
pub record WriteObservation : Type 0 where
  pub kind : WriteObservationKind
  pub result_identity : String
  pub result_payload : Option Value
  pub code : Option Code

module _ (texts : TextLibrary) where
  -- The two parts of a repository's name, stripped; anything else is refused.
  unfoldable pub join_parts : List String → Result String
  join_parts (owner ∷ name ∷ []) =
      if texts.strip owner == "" || texts.strip name == ""
      then raise repository_identity_invalid
      else ok (texts.lower (texts.strip owner) ++ "/" ++ texts.lower (texts.strip name))
  join_parts _ = raise repository_identity_invalid

  -- `normalize_repository_identity` of drivers/contract.py
  unfoldable pub normalize_repository_identity : String → Result String
  unfolding join_parts split_slash
  normalize_repository_identity repository = join_parts (split_slash repository)

  unfoldable pub has_blank : List String → Bool
  has_blank values = any (λ value. texts.strip value == "") values

  -- `RemoteIssueReference(…)`, with a number that is an integer
  unfoldable pub remote_issue_reference : String → ℕ → String → String → Result RemoteIssueReference
  unfolding normalize_repository_identity has_blank
  remote_issue_reference repository_identity issue_number numeric_issue_id node_id = do
    repository ← normalize_repository_identity repository_identity
    raise_if (issue_number == 0) write_reference_invalid
    raise_if (has_blank (numeric_issue_id ∷ node_id ∷ [])) write_reference_invalid
    ok (record {
      repository_identity = repository;
      issue_number = issue_number;
      numeric_issue_id = numeric_issue_id;
      node_id = node_id;
    })

  -- `CreateIssueCommand(…)`
  unfoldable pub create_issue_command : String → String → String → String → String → Result Command
  unfolding normalize_repository_identity has_blank
  create_issue_command repository_identity client_ref title body request_identity = do
    repository ← normalize_repository_identity repository_identity
    raise_if (has_blank (client_ref ∷ title ∷ body ∷ request_identity ∷ [])) write_command_invalid
    ok (
        creates (record {
          repository_identity = repository;
          client_ref = client_ref;
          title = title;
          body = body;
          request_identity = request_identity;
        }))

  -- `RelationshipCommand(…)`
  unfoldable pub relationship_command :
      String → RemoteIssueReference → RemoteIssueReference → Result Command
  unfolding normalize_repository_identity
  relationship_command repository_identity first second = do
    repository ← normalize_repository_identity repository_identity
    raise_if
        (first.repository_identity != repository
          || (second.repository_identity != repository || first == second))
        write_command_invalid
    ok (relates (record { repository_identity = repository; first = first; second = second }))
