-- ===== src/Tests/Problems.antt =====
-- The problem responses of a conflict and of an invalid request.
use enterprise_knowledge_sea.Common.{
  ◌≡◌, refl, ◌≤◌, ◌<◌, ◌⊎◌, none, some, pos, codes, [], ◌∷◌, ◌++◌,
}
use enterprise_knowledge_sea.Status.{processing, document_status_value}
use enterprise_knowledge_sea.Errors.{
  deletion_conflict, request_validation, location_key, location_position,
}
use enterprise_knowledge_sea.Api.Problems.{
  Problem, issues, reported, request_invalid, problem_of, problem_of_lem, problem_response,
  deletion_refused, plain,
}
use enterprise_knowledge_sea.Tests.{platform}

abbrev conflict : Problem
conflict = record {
  problem_type = codes "urn:enterprise-knowledge-search:problem:document_deletion_conflict";
  title = codes "Document deletion conflict";
  status = 409;
  detail = codes "busy";
  instance_path = codes "/documents/5";
  code = codes "document_deletion_conflict";
  extensions = (codes "document_status", plain (codes "processing")) ∷ [];
  retry_after = none;
}

conflict_test :
    problem_of platform (codes "/documents/5") (codes "busy") (deletion_conflict 5 processing)
    ≡ some conflict
unfolding problem_of deletion_refused problem_response document_status_value
conflict_test = refl

problem_of_lem_example :
    (400 ≤ conflict.status)
    × (conflict.status < 600)
    × (conflict.problem_type ≡ codes "urn:enterprise-knowledge-search:problem:" ++ conflict.code)
    × (conflict.instance_path ≡ codes "/documents/5")
    × (((conflict.status ≡ 503) × (conflict.retry_after ≡ some (codes "5")))
        ⊎ ((conflict.status < 503) × (conflict.retry_after ≡ none)))
problem_of_lem_example =
    problem_of_lem platform (codes "/documents/5") (codes "busy") (deletion_conflict 5 processing)
      conflict conflict_test

-- the parts of a location become texts, positions too: here in unary
invalid_test :
    problem_of platform (codes "/search") [] (
      request_validation (
        record {
          location = location_key (codes "query") ∷ location_position (pos 2) ∷ [];
          message = codes "too long";
          kind = codes "string_too_long";
        }
        ∷ []))
    ≡ some (record {
      problem_type = codes "urn:enterprise-knowledge-search:problem:request_validation_failed";
      title = codes "Request validation failed";
      status = 422;
      detail = codes "One or more request values are invalid.";
      instance_path = codes "/search";
      code = codes "request_validation_failed";
      extensions =
          (
            codes "issues",
            issues (
                record {
                  location = codes "query" ∷ codes "11" ∷ [];
                  message = codes "too long";
                  kind = codes "string_too_long";
                }
                ∷ []),
          )
          ∷ [];
      retry_after = none;
    })
unfolding problem_of request_invalid reported problem_response
invalid_test = refl
