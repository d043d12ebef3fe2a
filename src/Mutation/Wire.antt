-- ===== src/Mutation/Wire.antt =====
-- The requests of mutations: a round trip, and the methods that are owned here.
use periodic.Prelude.{
  ◌≡◌, refl, Bool, true, false, ◌||◌, Option, none, some, List, Text, codes, text_eq, if◌then◌else◌,
}
use periodic.Mutation.{
  Mutation, pause, resume, remove, add, replace, Value, mutation_to_request, request_to_mutation,
  is_mutation_method,
}

-- A mutation is decoded from its own request, and the request's method is one that the daemon takes
-- for a mutation.
pub mutation-round_trip :
    (m : Mutation)
    → (request_to_mutation (mutation_to_request m).0 (mutation_to_request m).1 ≡ some m)
      × (is_mutation_method (mutation_to_request m).0 ≡ true)
unfolding mutation_to_request request_to_mutation is_mutation_method
mutation-round_trip (pause id) = (refl, refl)
mutation-round_trip (resume id) = (refl, refl)
mutation-round_trip (remove id) = (refl, refl)
mutation-round_trip (add block) = (refl, refl)
mutation-round_trip (replace content) = (refl, refl)

-- A request whose method is not a mutation's is never decoded to a mutation.
pub request_to_mutation-method :
    (method : Text) (params : List (Text × Value))
    → is_mutation_method method ≡ false
    → request_to_mutation method params ≡ none
unfolding request_to_mutation is_mutation_method
request_to_mutation-method method params h =
    go _ _ _ _ _ (text_eq method (codes "jobs.pause")) (text_eq method (codes "jobs.resume"))
      (text_eq method (codes "jobs.remove")) (text_eq method (codes "jobs.add"))
      (text_eq method (codes "config.replace")) h
  where
    go :
        (v w x y z : Option Mutation) (p q r s t : Bool)
        → (p || (q || (r || (s || t)))) ≡ false
        → (if p
            then v
            else if q
            then w
            else if r
            then x
            else if s
            then y
            else if t
            then z
            else none)
          ≡ none
    go v w x y z true q r s t e = cc
    go v w x y z false true r s t e = cc
    go v w x y z false false true s t e = cc
    go v w x y z false false false true t e = cc
    go v w x y z false false false false true e = cc
    go v w x y z false false false false false e = refl
