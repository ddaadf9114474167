-- ===== src/Auditor/Lists.antt =====
-- The lists of auditor.py: texts that are sorted, sets of identities, and lookups by identity.
use delivery_system.Base.{
  ◌≡◌, refl, ◌≢◌, ℕ, zero, suc, String, String_eq, List, [], ◌∷◌, Bool, true, some, all, contains,
  subset, distinct, map, get_elem?, arith, &&-eq-true,
}
use delivery_system.Auditor.Children.{Evaluation}
use delivery_system.Auditor.Committed.{insert_text, sorted_texts, evaluation_of}

insert_text-not-empty : (s : String) (ts : List String) → insert_text s ts ≢ []
unfolding insert_text
insert_text-not-empty s [] h = cc
insert_text-not-empty s (t ∷ ts) h = ground arith

pub sorted_texts-empty : (ss : List String) → sorted_texts ss ≡ [] → ss ≡ []
unfolding sorted_texts
sorted_texts-empty [] h = refl
sorted_texts-empty (s ∷ ss) h = absurd (insert_text-not-empty s (sorted_texts ss) h)

pub subset-contains :
    (xs ys : List String) (a : String)
    → subset xs ys ≡ true
    → contains xs a ≡ true
    → contains ys a ≡ true
subset-contains [] ys a h k = cc
subset-contains (x ∷ xs) ys a h k =
    let (here, rest) = &&-eq-true _ _ h in ground (arith, subset-contains xs ys a rest)

pub get_elem?-contains {ℓ} :
    {A : Type ℓ} (f : A → String) (xs : List A) (i : ℕ) (x : A)
    → get_elem? xs i ≡ some x
    → contains (map f xs) (f x) ≡ true
get_elem?-contains f [] i x h = cc
get_elem?-contains f (y ∷ xs) zero x h = ground arith
get_elem?-contains f (y ∷ xs) (suc i) x h = ground (arith, get_elem?-contains f xs i x h)

abbrev pub rule_ids : List Evaluation → List String
rule_ids evaluations = map (λ (e : Evaluation). e.rule_id) evaluations

-- What holds of the evaluation that each rule finds holds of all evaluations, of distinct rules.
pub all-evaluations :
    (p : Evaluation → Bool) (evaluations : List Evaluation)
    → distinct (rule_ids evaluations) ≡ true
    → ((id : String)
        → contains (rule_ids evaluations) id ≡ true
        → (e : Evaluation) × (evaluation_of evaluations id ≡ some e) × (p e ≡ true))
    → all p evaluations ≡ true
unfolding evaluation_of
all-evaluations p [] apart found = refl
all-evaluations p (e ∷ es) apart found =
    let (fresh, rest) = &&-eq-true _ _ apart in
    let (e', at, holds) = found e.rule_id (ground arith) in
    let tail = all-evaluations p es rest (λ id present.
      let (f, at_id, holds_f) = found id (ground arith) in (f, ground arith, holds_f)) in
    ground arith
