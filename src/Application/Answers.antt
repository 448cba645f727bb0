-- ===== src/Application/Answers.antt =====
-- class AnswerService of knowledge_search/application/answers.py.
use enterprise_knowledge_sea.Common.{
  Bool, true, false, ◌≡◌, refl, not, Option, none, some, Text, List, [], ◌∷◌, map, is_empty, ℤ,
  if◌then◌else◌, arith, sym, ap, ◌∙◌, strip, blank, ◌⊎◌, inl, inr, Bool-cases,
}
use enterprise_knowledge_sea.Errors.{Result, ok, ◌>>=◌, Result-cases, ok-injective}
use enterprise_knowledge_sea.Domain.Chunk.{Citation}
use enterprise_knowledge_sea.Retrieval.Models.{SearchMode, SearchFilters}
use enterprise_knowledge_sea.Application.Search.{SearchExecution}
use enterprise_knowledge_sea.Platform.{Platform}
use enterprise_knowledge_sea.Generation.Evidence.{AreQuotedFrom}
use enterprise_knowledge_sea.Generation.HttpChat.{
  Choice, CompletionResponse, Http, ChatCompletionsAnswerGenerator, request_of, exchange, generate,
  generate_outcomes,
}

-- `AnswerStatus`
pub data AnswerStatus : Type 0 where
  generated disabled insufficient_evidence : AnswerStatus

pub record AnswerExecution (F : Type 0) : Type 0 where
  pub question : Text
  pub answer : Option Text
  pub status : AnswerStatus
  pub search : SearchExecution F

-- the search and the answer generator
pub record AnswerPorts (F : Type 0) : Type 0 where
  pub search : Text → SearchMode → ℤ → SearchFilters → Result (SearchExecution F)
  pub enabled : Bool
  pub generate : Text → List Citation → Result Text

-- `answer`
unfoldable pub answer :
    {F : Type 0}
    → AnswerPorts F
    → Text
    → SearchMode
    → ℤ
    → SearchFilters
    → Result (AnswerExecution F)
answer ports question mode limit filters = do
  search ← ports.search question mode limit filters
  let citations = map (λ r. r.citation) search.results
  if not ports.enabled
      then ok
          (record { question = search.query; answer = none; status = disabled; search = search })
      else (if is_empty citations
          then ok (record {
            question = search.query;
            answer = none;
            status = insufficient_evidence;
            search = search;
          })
          else (do
            text ← ports.generate search.query citations
            ok (record {
              question = search.query;
              answer = some text;
              status = generated;
              search = search;
            })))

is_empty-map : {A B : Type 0} (f : A → B) (rest : List A) → is_empty (map f rest) ≡ is_empty rest
is_empty-map f [] = refl
is_empty-map f (a ∷ more) = refl

-- What an answer that is returned is, by its status.
answer_branches :
    {F : Type 0} (ports : AnswerPorts F) (question : Text) (mode : SearchMode) (limit : ℤ)
    (filters : SearchFilters) (execution : AnswerExecution F)
    → answer ports question mode limit filters ≡ ok execution
    → (ports.search question mode limit filters ≡ ok execution.search)
      × (execution.question ≡ execution.search.query)
      × (((execution.status ≡ disabled) × (ports.enabled ≡ false) × (execution.answer ≡ none))
          ⊎ (((execution.status ≡ insufficient_evidence)
                × (ports.enabled ≡ true)
                × (is_empty execution.search.results ≡ true)
                × (execution.answer ≡ none))
              ⊎ ((execution.status ≡ generated)
                  × (ports.enabled ≡ true)
                  × (is_empty execution.search.results ≡ false)
                  × (text : Text) × (execution.answer ≡ some text)
                  × (ports.generate execution.search.query
                        (map (λ r. r.citation) execution.search.results)
                      ≡ ok text))))
unfolding answer
answer_branches ports question mode limit filters execution h =
    elim (Result-cases (ports.search question mode limit filters)) [
      | inr (x, e) ↦ ground arith
      | inl (found, e) ↦
          let m = is_empty-map (λ r. r.citation) found.results in
          elim (Bool-cases ports.enabled) [
            | inr off ↦ ground arith
            | inl on ↦ elim (Bool-cases (is_empty found.results)) [
              | inl nothing ↦ ground arith
              | inr some_there ↦
                  elim (Result-cases
                    (ports.generate found.query (map (λ r. r.citation) found.results))) [
                      | inr (x, g) ↦ ground arith
                      | inl (text, g) ↦ ground arith
                    ]
            ]
          ]
    ]

-- The ports of the service over the generator of generation/http_chat.py.
abbrev pub chat_ports :
    {F T Response Json : Type 0}
    → (Text → SearchMode → ℤ → SearchFilters → Result (SearchExecution F))
    → Bool
    → Http T Response Json
    → ChatCompletionsAnswerGenerator T Response
    → Platform
    → AnswerPorts F
chat_ports search enabled http generator p = record {
  search = search;
  enabled = enabled;
  generate = generate http generator p;
}

-- A generated text is the stripped, visible text of the first choice of the reply to a request that
-- quotes every citation under its number.
pub record IsQuoted {T Response Json : Type 0} (http : Http T Response Json)
    (generator : ChatCompletionsAnswerGenerator T Response) (p : Platform)
    (citations : List Citation) (text : Text) : Type 0 where
  pub message : Text
  pub completion : CompletionResponse
  pub choice : Choice
  pub rest : List Choice
  pub quoted : AreQuotedFrom p 1 citations message
  pub replied : exchange http generator (request_of generator.model message) ≡ ok completion
  pub first : completion.choices ≡ choice ∷ rest
  pub stripped : text ≡ strip choice.message.content
  pub visible : blank text ≡ false

generate-IsQuoted :
    {T Response Json : Type 0} (http : Http T Response Json)
    (generator : ChatCompletionsAnswerGenerator T Response) (p : Platform) (question : Text)
    (citations : List Citation) (text : Text)
    → generate http generator p question citations ≡ ok text
    → IsQuoted http generator p citations text
generate-IsQuoted http generator p question citations text h =
    elim (generate_outcomes http generator p question citations) [
      | inl
            (
              answer, message, completion, choice, rest, e, some_there, quoted, g, visible, first,
              stripped,
            ) ↦
          let same : answer ≡ text = ok-injective (sym e ∙ h) in
          record {
            message = message;
            completion = completion;
            choice = choice;
            rest = rest;
            quoted = quoted;
            replied = g;
            first = first;
            stripped = sym same ∙ stripped;
            visible = ap blank (sym same) ∙ visible;
          }
      | inr (inl e) ↦ absurd (ground arith)
      | inr (inr (message, x, caught, g, e)) ↦ absurd (ground arith)
    ]

-- Over any search and the chat generator, an answer that returns has the query and the results of
-- its search. It is disabled, without a text, where the generator is disabled, whatever was found;
-- where it is enabled and nothing was found, the evidence is insufficient and there is no text;
-- otherwise it is generated, and its text is the visible, stripped first choice of the reply to a
-- request that quotes the citation of every result, in order, under its number.
pub answer_grounded :
    {F T Response Json : Type 0}
    (search : Text → SearchMode → ℤ → SearchFilters → Result (SearchExecution F)) (enabled : Bool)
    (http : Http T Response Json) (generator : ChatCompletionsAnswerGenerator T Response)
    (p : Platform) (question : Text) (mode : SearchMode) (limit : ℤ) (filters : SearchFilters)
    (execution : AnswerExecution F)
    → answer (chat_ports search enabled http generator p) question mode limit filters ≡ ok execution
    → (search question mode limit filters ≡ ok execution.search)
      × (execution.question ≡ execution.search.query)
      × (((execution.status ≡ disabled) × (enabled ≡ false) × (execution.answer ≡ none))
          ⊎ (((execution.status ≡ insufficient_evidence)
                × (enabled ≡ true)
                × (is_empty execution.search.results ≡ true)
                × (execution.answer ≡ none))
              ⊎ ((execution.status ≡ generated)
                  × (enabled ≡ true)
                  × (is_empty execution.search.results ≡ false)
                  × (text : Text) × (execution.answer ≡ some text)
                  × IsQuoted http generator p
                      (map (λ r. r.citation) execution.search.results)
                      text)))
answer_grounded search enabled http generator p question mode limit filters execution h =
    let (found, asked, branches) =
      answer_branches (chat_ports search enabled http generator p) question mode limit filters
        execution h in
    (
      found,
      asked,
      elim branches [
        | inl off ↦ inl off
        | inr (inl nothing) ↦ inr (inl nothing)
        | inr (inr (status, on, some_there, text, answered, e)) ↦ inr (
            inr (
              status,
              on,
              some_there,
              text,
              answered,
              generate-IsQuoted http generator p execution.search.query
                  (map (λ r. r.citation) execution.search.results) text e,
            ))
      ],
    )
