-- ===== src/Driver/Evidence.antt =====
-- drivers/github_write.py: what a dispatch sends, and what its report says was answered.
use Prim.Native.String.{◌++◌}
use mathlib.Core.Path.{subst}
use delivery_system.Base.{◌≡◌, refl, sym, ap, ◌∙◌, ℕ_eq, String, String_eq, Bool, not, [], ◌∷◌}
use delivery_system.Errors.{Result, ok, err}
use delivery_system.Value.{Value, Fields, text, integer, pos, dict, field, end}
use delivery_system.WriteOperations
use delivery_system.WriteOperations.{OperationKind}
use delivery_system.Applier.Commands.{
  TextLibrary, Command, creates, relates, CreateIssueCommand, RelationshipCommand, WriteObservation,
}
use delivery_system.Driver.Response.{HttpLibrary, WriteTransportResponse, normalize_response}
use delivery_system.Driver.Dispatch.{
  Connection, responded, Sending, without_post, after_check, posted, credential,
  dispatch_relationship, validate_repository, check_issue_number, check_decimal_id, parse_decimal,
  normalize_created, create_result, create_issue, add_sub_issue, add_dependency, dispatch,
  raised_if, is_request_id, has_marker, issues_path,
}
use delivery_system.Driver.Honest.{
  Supports, normalize_response-Supports, normalize_created-Supports, observed-Supports,
}

-- A dispatch that returned an observation passed its check.
pub after_check-eq-ok {ℓ} :
    {A : Type ℓ} (r : Result A) (f : A → Sending) {o : WriteObservation}
    → (after_check r f).result ≡ ok o
    → (a : A) × (r ≡ ok a) × (after_check r f ≡ f a)
unfolding after_check without_post
after_check-eq-ok (ok a) f h = (a, refl, refl)
after_check-eq-ok (err e) f h = cc

-- The check that a dispatch passed, and the rest of the dispatch.
pub after_check-then {ℓ} :
    {A : Type ℓ} (r : Result A) (f : A → Sending) {o : WriteObservation}
    → (after_check r f).result ≡ ok o
    → (a : A) × (r ≡ ok a) × (after_check r f ≡ f a) × ((f a).result ≡ ok o)
after_check-then r f h =
    let (a, passed, same) = after_check-eq-ok r f h in
    (a, passed, same, ap (λ (s : Sending). s.result) (sym same) ∙ h)

abbrev pub repository_of : Command → String
repository_of (creates command) = command.repository_identity
repository_of (relates command) = command.repository_identity

-- What is to be sent for a command of a kind on a repository: the path and the request.
pub data Asks (texts : TextLibrary) (repository : String)
    : OperationKind → Command → String → Value → Type 0 where
  issue :
      (c : CreateIssueCommand)
      → Asks texts repository WriteOperations.create_issue
          (creates c)
          ("/repos/" ++ repository ++ "/issues" ++ "")
          (dict (
            field "body"
              (text (c.body ++ "\n\n<!-- delivery-system-request:" ++ c.request_identity ++ " -->"))
              (field "title" (text c.title) end)))
  sub_issue :
      (c : RelationshipCommand)
      → Asks texts repository WriteOperations.add_sub_issue
          (relates c)
          ("/repos/"
            ++ repository
            ++ "/issues"
            ++ ("/" ++ texts.str (integer (pos c.second.issue_number)) ++ "/sub_issues"))
          (dict
            (field "sub_issue_id" (integer (pos (parse_decimal c.first.numeric_issue_id 0))) end))
  dependency :
      (c : RelationshipCommand)
      → Asks texts repository WriteOperations.add_dependency
          (relates c)
          ("/repos/"
            ++ repository
            ++ "/issues"
            ++ ("/"
                ++ texts.str (integer (pos c.first.issue_number))
                ++ "/dependencies/blocked_by"))
          (dict (field "issue_id" (integer (pos (parse_decimal c.second.numeric_issue_id 0))) end))

module _ (texts : TextLibrary) (library : HttpLibrary) (connection : Connection) where
  -- A dispatch that made one POST, and whose observation is supported by the answer to it.
  pub record Posts (path : String) (request : Value) (s : Sending) (observation : WriteObservation)
      : Type 0 where
    pub token : String
    pub under : credential texts library connection ≡ ok token
    pub once : s.posts ≡ (record { path = path; request = request; token = token }) ∷ []
    pub supported : Supports texts library (connection.post path request token) observation

  -- One POST for a command on its validated repository.
  pub record Sent (kind : OperationKind) (command : Command) (s : Sending)
      (observation : WriteObservation) : Type 0 where
    pub repository : String
    pub valid : validate_repository texts library connection (repository_of command) ≡ ok repository
    pub path : String
    pub request : Value
    pub asks : Asks texts repository kind command path request
    pub posts : Posts path request s observation

  posted-Posts :
      (normalize : WriteTransportResponse → WriteObservation) (path : String) (request : Value)
      (observation : WriteObservation)
      → ((response : WriteTransportResponse)
          → Supports texts library (responded response) (normalize response))
      → (after_check (credential texts library connection) (λ token.
          posted texts library connection normalize
            (record { path = path; request = request; token = token }))).result
        ≡ ok observation
      → Posts path request
          (after_check (credential texts library connection) (λ token.
            posted texts library connection normalize
              (record { path = path; request = request; token = token })))
          observation
  unfolding posted
  posted-Posts normalize path request observation supports h =
      let (token, under, same, h1) = after_check-then (credential texts library connection) _ h in
      record {
        token = token;
        under = under;
        once = ap (λ (s : Sending). s.posts) same;
        supported =
            observed-Supports texts library connection normalize
              (connection.post path request token) observation supports h1;
      }

  dispatch_relationship-Posts :
      (path : String) (request : Value) (result : Fields) (observation : WriteObservation)
      → (dispatch_relationship texts library connection path request result).result ≡ ok observation
      → Posts path request
          (dispatch_relationship texts library connection path request result)
          observation
  unfolding dispatch_relationship
  dispatch_relationship-Posts path request result observation h =
      posted-Posts (λ response. normalize_response texts library response result) path request
        observation (normalize_response-Supports texts library result) h

  create_result-Posts :
      (repository : String) (command : CreateIssueCommand) (request : Value)
      (observation : WriteObservation)
      → (create_result texts library connection repository command request).result ≡ ok observation
      → Posts
          ("/repos/" ++ repository ++ "/issues" ++ "")
          request
          (create_result texts library connection repository command request)
          observation
  unfolding create_result issues_path
  create_result-Posts repository command request observation h =
      posted-Posts (normalize_created texts library connection repository) _ request observation
        (normalize_created-Supports texts library connection repository) h

  Posts-same :
      {path : String} {request : Value} {s s' : Sending} {observation : WriteObservation}
      → s ≡ s'
      → Posts path request s' observation
      → Posts path request s observation
  Posts-same {path = path} {request = request} {observation = observation} same posts =
      subst (λ s. Posts path request s observation) (sym same) posts

  create_issue-Sent :
      (is_sendable : Value → Bool) (command : CreateIssueCommand) (observation : WriteObservation)
      → (create_issue texts library connection is_sendable command).result ≡ ok observation
      → Sent WriteOperations.create_issue
          (creates command)
          (create_issue texts library connection is_sendable command)
          observation
  unfolding create_issue
  create_issue-Sent is_sendable command observation h =
      let (repository, valid, s1, h1) =
        after_check-then (validate_repository texts library connection command.repository_identity)
          _ h in
      let (u1, e1, s2, h2) =
        after_check-then (raised_if (not (is_request_id command.request_identity))) _ h1 in
      let (u2, e2, s3, h3) = after_check-then (raised_if (has_marker command.body)) _ h2 in
      let (u3, e3, s4, h4) = after_check-then (raised_if (not (is_sendable _))) _ h3 in
      record {
        repository = repository;
        valid = valid;
        path = _;
        request = _;
        asks = issue command;
        posts =
            Posts-same (s1 ∙ (s2 ∙ (s3 ∙ s4)))
              (create_result-Posts repository command _ observation h4);
      }

  add_sub_issue-Sent :
      (command : RelationshipCommand) (observation : WriteObservation)
      → (add_sub_issue texts library connection command).result ≡ ok observation
      → Sent WriteOperations.add_sub_issue
          (relates command)
          (add_sub_issue texts library connection command)
          observation
  unfolding add_sub_issue issues_path
  add_sub_issue-Sent command observation h =
      let (repository, valid, s1, h1) =
        after_check-then (validate_repository texts library connection command.repository_identity)
          _ h in
      let (u1, e1, s2, h2) =
        after_check-then (check_issue_number texts library connection command.second.issue_number) _
          h1 in
      let (u2, e2, s3, h3) =
        after_check-then (check_decimal_id texts library connection command.first.numeric_issue_id)
          _ h2 in
      record {
        repository = repository;
        valid = valid;
        path = _;
        request = _;
        asks = sub_issue command;
        posts = Posts-same (s1 ∙ (s2 ∙ s3)) (dispatch_relationship-Posts _ _ _ observation h3);
      }

  add_dependency-Sent :
      (command : RelationshipCommand) (observation : WriteObservation)
      → (add_dependency texts library connection command).result ≡ ok observation
      → Sent WriteOperations.add_dependency
          (relates command)
          (add_dependency texts library connection command)
          observation
  unfolding add_dependency issues_path
  add_dependency-Sent command observation h =
      let (repository, valid, s1, h1) =
        after_check-then (validate_repository texts library connection command.repository_identity)
          _ h in
      let (u1, e1, s2, h2) =
        after_check-then (check_issue_number texts library connection command.first.issue_number) _
          h1 in
      let (u2, e2, s3, h3) =
        after_check-then (check_decimal_id texts library connection command.second.numeric_issue_id)
          _ h2 in
      record {
        repository = repository;
        valid = valid;
        path = _;
        request = _;
        asks = dependency command;
        posts = Posts-same (s1 ∙ (s2 ∙ s3)) (dispatch_relationship-Posts _ _ _ observation h3);
      }

  -- Where the executor returns an observation of a command, it made exactly one POST, under a valid
  -- credential, on the path of the command's validated repository and with the request that the
  -- command's kind asks for. The observation is ambiguous unless the server answered, with 201 and a
  -- JSON object where it is a definitive success, and with one of thirteen statuses of redirection or
  -- rejection where it is a definitive rejection.
  pub dispatch-Sent :
      (is_sendable : Value → Bool) (kind : OperationKind) (command : Command)
      (observation : WriteObservation)
      → (dispatch texts library connection is_sendable kind command).result ≡ ok observation
      → Sent kind command (dispatch texts library connection is_sendable kind command) observation
  unfolding dispatch without_post
  dispatch-Sent is_sendable WriteOperations.create_issue (creates command) observation h =
      create_issue-Sent is_sendable command observation h
  dispatch-Sent is_sendable WriteOperations.create_issue (relates command) observation h = cc
  dispatch-Sent is_sendable WriteOperations.add_sub_issue (creates command) observation h = cc
  dispatch-Sent is_sendable WriteOperations.add_sub_issue (relates command) observation h =
      add_sub_issue-Sent command observation h
  dispatch-Sent is_sendable WriteOperations.add_dependency (creates command) observation h = cc
  dispatch-Sent is_sendable WriteOperations.add_dependency (relates command) observation h =
      add_dependency-Sent command observation h
  dispatch-Sent is_sendable (WriteOperations.unsupported kind) (creates command) observation h = cc
  dispatch-Sent is_sendable (WriteOperations.unsupported kind) (relates command) observation h = cc
