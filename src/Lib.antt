-- ===== src/Lib.antt =====
-- Enterprise Knowledge Search: documents are uploaded, split into chunks, indexed and searched. This
-- library models the program's core over src/knowledge_search and proves what makes it correct.
--
-- The parts, and how they interact. DocumentSubmissionService stores an upload, writes the rows of a
-- document and of its ingestion job in one transaction, and enqueues the job. A worker runs
-- IngestionJobProcessor on it: one transaction moves the pair to PROCESSING and RUNNING, the
-- content preparer extracts, normalizes and chunks the document, the vector index is written, and
-- a last transaction stores the chunks and the outcome. SearchService fuses the rankings of the
-- database and of the vector index; CachedSearchService and AnswerService stand in front of it.
-- DocumentDeletionService takes a document out of all of them. Transactions of several requests and
-- workers interleave: System takes each of them as a step of one relation, in any order.
--
-- Which file models which part:
--   Status, Errors          the enumerations and transition tables of domain/documents.py; the
--                           exceptions as values
--   Domain                  domain/documents.py: Locator, Document, Job and Chunk, each with its
--                           __post_init__; Document.History and Job.History are the sequences of calls
--   Ingestion               ingestion/: Tokens and Windows (_windows), Normalize
--                           (normalize_document_text), Extraction (the three extractors and the
--                           preparer), Chunking (the two chunkers), Pipeline (prepare)
--   Persistence             persistence/: Records (rows and conversions), Session (the database behind
--                           a session, and transaction), Repositories, Search (chunks and
--                           candidates for a search), Schema (the tables of models.py and the rows
--                           that they admit), Memory (for the tests)
--   Migrations              migrations/versions: the upgrades and downgrades of both revisions
--   Providers               providers/: LocalFiles (storage below a root directory), RedisCache,
--                           RedisQueue, Embeddings (fastembed) and Qdrant (the vector index)
--   Generation              generation/: the evidence message and the chat generator
--   Retrieval               retrieval/models.py, retrieval/ranking.py and the numbering of Candidates
--   Evaluation              evaluation/metrics.py: recall, reciprocal rank and gain of a ranking
--   Application             application/: Ingestion (the job processor), Documents (submission,
--                           queries, deletion, ReadBack for their composition), Search, Cache,
--                           Answers
--   System                  the interleavings of registrations, runs and deletions, on the rows of
--                           documents and jobs, the jobs held by runs and the documents that leave
--   Api                     api/errors.py: the problem response of each exception
--   Platform                what is used of Python's library and not implemented here
--   Common, Tests           shared helpers; concrete runs
--
-- How it is modelled. A call that may raise returns a Result; a transaction is a function from the
-- session's state to a Result, and rolls back when its body or its commit raises. That takes no two
-- transactions to overlap; PostgreSQL's READ COMMITTED, which the program uses without locks, allows
-- it, and then an update can be lost, which is outside of the model. The database is the record
-- Database with the laws DatabaseLaws. Ports that keep a state of their own return it
-- with their result. What other sessions commit between two transactions of a run is an argument,
-- as are the readings of the clock and the fresh UUIDs. Text is a list of character codes, UUIDs
-- are natural numbers, and Python's integers are the type of Common.Int. Floats are an abstract
-- type with the operations that the ranking uses. A chunk is refused where UTF-8 does not encode its
-- text, as for a surrogate; the columns refuse such texts and U+0000.
--
-- Fuel: the loop of _windows runs on one unit more than there are tokens, which is enough since
-- every turn moves its start on by size - overlap, at least one.
--
-- Not modelled: the HTTP routes and schemas, the scripts, the two SQL statements of the search
-- repository (parameters), the indexes and server defaults of the schema, the construction of models
-- and clients, settings, logging, metrics and the worker's process. The file system, the database and
-- what carries migrations out, Redis, Qdrant, fastembed, the HTTP client, the Markdown parser and the
-- PDF reader are parameters with the laws that the code relies on. SQL conditions are evaluated in
-- three truth values.
pub mod Common
pub mod Status
pub mod System
pub mod Migrations
pub mod Errors
pub mod Domain
pub mod Platform
pub mod Providers
pub mod Ingestion
pub mod Persistence
pub mod Generation
pub mod Retrieval
pub mod Evaluation
pub mod Application
pub mod Api
pub mod Tests
