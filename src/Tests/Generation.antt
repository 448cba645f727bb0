-- ===== src/Tests/Generation.antt =====
-- The chat generator over an endpoint with one reply.
use enterprise_knowledge_sea.Common.{
  ℕ, ◌≡◌, refl, false, none, some, ◌⊎◌, Text, codes, strip, blank, is_empty, is_space, List, [],
  ◌∷◌, pos,
}
use enterprise_knowledge_sea.Errors.{Error, ok, err, generation_error}
use enterprise_knowledge_sea.Domain.Chunk.{Citation}
use enterprise_knowledge_sea.Generation.Evidence.{evidence_entry, AreQuotedFrom}
use enterprise_knowledge_sea.Generation.HttpChat.{
  Choice, CompletionResponse, Http, ChatCompletionsAnswerGenerator, initialize, answer_of,
  request_of, is_caught, exchange, generate, generate_outcomes,
}
use enterprise_knowledge_sea.Tests.{platform}

abbrev manual : Citation
manual = record {
  document_id = 5;
  chunk_id = 9;
  original_filename = codes "a.md";
  excerpt = codes "one";
  section_path = codes "A" ∷ codes "B" ∷ [];
  page_number = some (pos 2);
}

abbrev note_file : Citation
note_file = record {
  document_id = 6;
  chunk_id = 10;
  original_filename = codes "b.txt";
  excerpt = codes "two";
  section_path = [];
  page_number = none;
}

-- every reply is the same text
abbrev endpoint : Http ℕ Text Text
endpoint = record {
  open_client = λ timeout. record { post = λ url headers request t. ok (codes " Yes [1].\n") };
  raise_for_status = λ response. ok tt;
  json = λ response. ok response;
  model_validate =
      λ body. ok (record { choices = record { message = record { content = body } } ∷ [] });
}

abbrev generator : ChatCompletionsAnswerGenerator ℕ Text
generator = initialize (codes "http://chat/v1/") (codes "m") (some (codes "t")) 30 none

endpoint_stripped : generator.endpoint ≡ codes "http://chat/v1/chat/completions"
endpoint_stripped = refl

-- the platform of the tests writes integers in unary
second_entry :
    evidence_entry platform 2 note_file
    ≡ codes "[11] Document: b.txt; section: unspecified; page: unspecified\ntwo"
unfolding evidence_entry
second_entry = refl

generated_text :
    generate endpoint generator platform (codes "q") (manual ∷ note_file ∷ [])
    ≡ ok (codes "Yes [1].")
unfolding generate exchange answer_of strip is_space
generated_text = refl

generate_outcomes_example :
    ((answer : Text) × (message : Text) × (completion : CompletionResponse) × (choice : Choice)
      × (rest : List Choice) × (generate endpoint generator platform
            (codes "q")
            (manual ∷ note_file ∷ [])
          ≡ ok answer)
      × (is_empty (manual ∷ note_file ∷ []) ≡ false)
      × AreQuotedFrom platform 1 (manual ∷ note_file ∷ []) message
      × (exchange endpoint generator (request_of generator.model message) ≡ ok completion)
      × (blank answer ≡ false)
      × (completion.choices ≡ choice ∷ rest)
      × (answer ≡ strip choice.message.content))
    ⊎ ((generate endpoint generator platform (codes "q") (manual ∷ note_file ∷ [])
          ≡ err generation_error)
        ⊎ ((message : Text) × (e : Error) × (is_caught e ≡ false)
            × (exchange endpoint generator (request_of generator.model message) ≡ err e)
            × (generate endpoint generator platform (codes "q") (manual ∷ note_file ∷ []) ≡ err e)))
generate_outcomes_example =
    generate_outcomes endpoint generator platform (codes "q") (manual ∷ note_file ∷ [])
