-- ===== src/System/Completion.antt =====
-- The transactions that end a run of the job processor, as changes of the rows.
use enterprise_knowledge_sea.Common.{
  ℕ, ◌≡◌, inl, inr, none, some, Text, List, [], arith, sym, subst,
}
use enterprise_knowledge_sea.Status.{processing}
use enterprise_knowledge_sea.Errors.{ok}
use enterprise_knowledge_sea.Domain.Checks.{Datetime}
use enterprise_knowledge_sea.Domain.Document.{Document}
use enterprise_knowledge_sea.Domain.Job.{IngestionJob}
use enterprise_knowledge_sea.Domain.Chunk.{Chunk}
use enterprise_knowledge_sea.Persistence.Session.{Database, DatabaseLaws}
use enterprise_knowledge_sea.Persistence.Repositories.{get_document, get_job}
use enterprise_knowledge_sea.Application.Ingestion.{
  finish_job, mark_failed, fail_document, fail_job,
}
use enterprise_knowledge_sea.Application.Ingestion.Pairs.{Stored, SameRows, Replaced}
use enterprise_knowledge_sea.Application.Ingestion.Saving.{written, written-Replaced}
use enterprise_knowledge_sea.Application.Ingestion.Finish.{
  Finished, replaced, finish_job_returned, mark_failed_returned,
}
use enterprise_knowledge_sea.Application.Ingestion.Transactions.{
  IsAbout, stored, gone, replaced-SameRows, revision-SameRows,
}
use enterprise_knowledge_sea.System.{Move, fail}
use enterprise_knowledge_sea.System.Rows.{RowStep, advanced}
use enterprise_knowledge_sea.System.Effects.{unchanged, advance, ready_from}

module _ {S : Type 0} (db : Database S) (laws : DatabaseLaws db) (Fresh : ℕ → ℕ → Type 0) where
  -- Changes of the other tables before and after do not show in the rows.
  Replaced-between :
      (d : Document) (j : IngestionJob) (s u v t : S)
      → SameRows db s u
      → Replaced db d j u v
      → SameRows db v t
      → Replaced db d j s t
  Replaced-between d j s u v t m rep n = record {
    jobs = λ i. ground (arith, n.jobs i, rep.jobs i, m.jobs i);
    documents = λ k. ground (arith, n.documents k, rep.documents k, m.documents k);
  }

  finished-RowStep :
      (i : ℕ) (d : Document) (j : IngestionJob) (chunks : List Chunk) (s t : S)
      → Stored db i d j s
      → Finished db laws d j chunks s t
      → RowStep db Fresh s t
  finished-RowStep i d j chunks s t st f =
      let u = replaced db laws d.id chunks s in
      let v = written db laws f.document f.job u in
      subst (RowStep db Fresh s) (sym f.state) (
        advanced i d f.document j f.job st f.next
          (subst (λ x. Move (some d.status) (some x)) (sym f.document_status)
            (ready_from d.status f.allowed))
          (Replaced-between f.document f.job s u v _ (replaced-SameRows db laws d.id chunks s)
            (written-Replaced db laws f.document f.job u) (revision-SameRows db laws _ v)))

  finish_gone :
      (clock : ℕ → Datetime) (i e : ℕ) (chunks : List Chunk) (s t : S)
      → db.find_document e s ≡ none
      → finish_job db clock e i chunks s ≡ ok (tt, t)
      → t ≡ s
  unfolding finish_job get_document
  finish_gone clock i e chunks s t f h = ground arith

  pub finish-RowStep :
      (clock : ℕ → Datetime) (i e : ℕ) (chunks : List Chunk) (s t : S)
      → IsAbout db laws i e s
      → finish_job db clock e i chunks s ≡ ok (tt, t)
      → RowStep db Fresh s t
  finish-RowStep clock i e chunks s t (stored d j st f) h = finished-RowStep i d j chunks s t st (
      finish_job_returned db laws clock i chunks s d j t st
        (subst (λ x. finish_job db clock x i chunks s ≡ ok (tt, t)) (sym f) h))
  finish-RowStep clock i e chunks s t (gone f g) h =
      unchanged db laws Fresh s t (finish_gone clock i e chunks s t g h)

  mark_failed_gone :
      (clock : ℕ → Datetime) (i e : ℕ) (code : Text) (s t : S)
      → db.find_document e s ≡ none
      → db.find_job i s ≡ none
      → mark_failed db clock e i code s ≡ ok (tt, t)
      → t ≡ s
  unfolding mark_failed fail_document fail_job get_document get_job
  mark_failed_gone clock i e code s t f g h = ground arith

  pub mark_failed-RowStep :
      (clock : ℕ → Datetime) (i e : ℕ) (code : Text) (s t : S)
      → IsAbout db laws i e s
      → mark_failed db clock e i code s ≡ ok (tt, t)
      → RowStep db Fresh s t
  mark_failed-RowStep clock i e code s t (stored d j st f) h =
      elim (mark_failed_returned db laws clock i [] s d j code t st
        (subst (λ x. mark_failed db clock x i code s ≡ ok (tt, t)) (sym f) h)) [
          | inl same ↦ unchanged db laws Fresh s t same
          | inr q ↦
              advance db laws Fresh i d q.document j q.job s t st q.next
                (subst (λ x. Move (some x) (some q.document.status)) (sym q.was_processing)
                  (subst (λ x. Move (some processing) (some x)) (sym q.document_status) fail))
                q.state
        ]
  mark_failed-RowStep clock i e code s t (gone f g) h =
      unchanged db laws Fresh s t (mark_failed_gone clock i e code s t g f h)
