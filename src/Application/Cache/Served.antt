-- ===== src/Application/Cache/Served.antt =====
-- Sequences of calls of CachedSearchService over one cache: which search an answer comes from.
use enterprise_knowledge_sea.Common.{
  ℕ, ◌≡◌, refl, sym, ap, ◌∙◌, ◌⊎◌, inl, inr, Bool-cases, none, some, Option-cases, Text, List, [],
  ◌∷◌, map, leb, ℤ, arith,
}
use enterprise_knowledge_sea.Errors.{Result, ok, err, Result-cases}
use enterprise_knowledge_sea.Status.{media_type_value}
use enterprise_knowledge_sea.Retrieval.Models.{SearchMode, SearchFilters}
use enterprise_knowledge_sea.Application.Search.{SearchExecution, normalize_query}
use enterprise_knowledge_sea.Application.Cache.{
  CachePorts, is_zero, sort_by, text_leb, cache_key, cached_search,
}

-- the normalized query, the mode, the limit, the sorted filters and the corpus revision
abbrev pub Fields : Type 0
Fields = Text × SearchMode × ℤ × List ℕ × List Text × ℤ

-- One call: the request, and what the search and the corpus revision give at the time.
pub record Call (F : Type 0) : Type 0 where
  pub query : Text
  pub mode : SearchMode
  pub limit : ℤ
  pub filters : SearchFilters
  pub search : Text → SearchMode → ℤ → SearchFilters → Result (SearchExecution F)
  pub current : Result ℤ

-- the fields of a call at a revision
abbrev pub fields_of : {F : Type 0} → Call F → ℤ → Fields
fields_of call revision = (
  normalize_query call.query,
  call.mode,
  call.limit,
  sort_by leb call.filters.document_ids,
  sort_by text_leb (map media_type_value call.filters.media_types),
  revision,
)

-- The execution is among those returned so far, for those fields.
abbrev pub InPast :
    {F : Type 0} → List (Fields × SearchExecution F) → Fields → SearchExecution F → Type 0
InPast [] g x = ⊥
InPast ((f, e) ∷ past) g x = ((f ≡ g) × (e ≡ x)) ⊎ InPast past g x

-- the past after a call: what its search returns, for its fields
abbrev pub grow :
    {F : Type 0}
    → Fields
    → Result (SearchExecution F)
    → List (Fields × SearchExecution F)
    → List (Fields × SearchExecution F)
grow fields (ok e) past = (fields, e) ∷ past
grow fields (err x) past = past

abbrev pub grown :
    {F : Type 0} → Call F → List (Fields × SearchExecution F) → List (Fields × SearchExecution F)
grown call past = elim call.current [
  | err x ↦ past
  | ok revision ↦
      grow (fields_of call revision) (call.search call.query call.mode call.limit call.filters) past
]

module _ {F Cache : Type 0} (ports : CachePorts F Cache) where
  abbrev pub digest_of : Fields → Text
  digest_of (query, mode, limit, ids, types, revision) =
      ports.digest query mode limit ids types revision

  -- What is relied on: what a cache has under a key was there before it was set, or is what it was
  -- set to under that key. Entries may expire.
  pub record CacheLaws : Type 0 where
    pub get-set :
        (k l : Text) (e x : SearchExecution F) (ttl : ℤ) (cache : Cache)
        → ports.get k (ports.set l e ttl cache) ≡ some x
        → ((l ≡ k) × (e ≡ x)) ⊎ (ports.get k cache ≡ some x)

  -- the ports at the time of a call
  abbrev pub at : Call F → CachePorts F Cache
  at call = record ports { search = call.search; current = call.current }

  -- the call of the service
  abbrev pub served : Call F → Cache → Result (SearchExecution F) × Cache
  served call cache = cached_search (at call) call.query call.mode call.limit call.filters cache

  -- The caches that sequences of calls reach from an empty one, with what their searches returned.
  pub data Reached (empty : Cache) : List (Fields × SearchExecution F) → Cache → Type 0 where
    start : Reached empty [] empty
    next :
        {past : List (Fields × SearchExecution F)} {cache : Cache}
        → Reached empty past cache
        → (call : Call F) → Reached empty (grown call past) (served call cache).1

  -- The execution was returned for fields that have the digest.
  abbrev pub IsOf : List (Fields × SearchExecution F) → Text → SearchExecution F → Type 0
  IsOf past key x = (g : Fields) × (digest_of g ≡ key) × InPast past g x

  -- Every entry was returned for fields that have its key as their digest.
  abbrev AreFromPast : List (Fields × SearchExecution F) → Cache → Type 0
  AreFromPast past cache =
      (key : Text) (x : SearchExecution F) → ports.get key cache ≡ some x → IsOf past key x

  InPast-grow :
      (fields : Fields) (r : Result (SearchExecution F)) (past : List (Fields × SearchExecution F))
      (g : Fields) (x : SearchExecution F)
      → InPast past g x
      → InPast (grow fields r past) g x
  InPast-grow fields (ok e) past g x h = inr h
  InPast-grow fields (err e) past g x h = h

  InPast-grown :
      (call : Call F) (past : List (Fields × SearchExecution F)) (g : Fields)
      (x : SearchExecution F)
      → InPast past g x
      → InPast (grown call past) g x
  InPast-grown call past g x h = elim (Result-cases call.current) [
    | inl (revision, e) ↦ rw e (
        InPast-grow (fields_of call revision)
          (call.search call.query call.mode call.limit call.filters) past g x h)
    | inr (error, e) ↦ rw e h
  ]

  IsOf-grown :
      (call : Call F) (past : List (Fields × SearchExecution F)) (key : Text)
      (x : SearchExecution F)
      → IsOf past key x
      → IsOf (grown call past) key x
  IsOf-grown call past key x (g, e, h) = (g, e, InPast-grown call past g x h)

  module _ (laws : CacheLaws) where
    -- The cache after a call is the one before it, or has what the search returned under its key.
    served_cache :
        (call : Call F) (cache : Cache)
        → ((served call cache).1 ≡ cache)
          ⊎ ((revision : ℤ) × (e : SearchExecution F) × (call.current ≡ ok revision)
              × (call.search call.query call.mode call.limit call.filters ≡ ok e)
              × ((served call cache).1
                  ≡ ports.set (digest_of (fields_of call revision)) e ports.ttl_seconds cache))
    unfolding cached_search cache_key
    served_cache call cache = elim (Bool-cases (is_zero ports.ttl_seconds)) [
      | inl off ↦ inl (ground arith)
      | inr on ↦ elim (Result-cases call.current) [
        | inr (x, r) ↦ inl (ground arith)
        | inl (revision, r) ↦
            elim (Option-cases (ports.get (digest_of (fields_of call revision)) cache)) [
              | inr (x, hit) ↦ inl (ground arith)
              | inl miss ↦
                  elim (Result-cases (call.search call.query call.mode call.limit call.filters)) [
                    | inr (x, found) ↦ inl (ground arith)
                    | inl (e, found) ↦ inr (revision, e, r, found, ground arith)
                  ]
            ]
      ]
    ]

    served-AreFromPast :
        (call : Call F) (past : List (Fields × SearchExecution F)) (cache : Cache)
        → AreFromPast past cache
        → AreFromPast (grown call past) (served call cache).1
    served-AreFromPast call past cache kept key x h = elim (served_cache call cache) [
      | inl same ↦ IsOf-grown call past key x (kept key x (sym (ap (ports.get key) same) ∙ h))
      | inr (revision, e, r, found, stored) ↦
          elim (laws.get-set key (digest_of (fields_of call revision)) e x ports.ttl_seconds cache
            (sym (ap (ports.get key) stored) ∙ h)) [
              | inl (same, value) ↦
                  (fields_of call revision, same, rw (r, found) (inl (refl, value)))
              | inr before ↦ IsOf-grown call past key x (kept key x before)
            ]
    ]

    Reached-AreFromPast :
        (empty : Cache) (past : List (Fields × SearchExecution F)) (cache : Cache)
        → ((k : Text) → ports.get k empty ≡ none)
        → Reached empty past cache
        → AreFromPast past cache
    Reached-AreFromPast empty past cache nothing start =
        λ key x h. absurd (ground (arith, nothing key))
    Reached-AreFromPast empty past cache nothing (next {past = before} {cache = old} reached call) =
        served-AreFromPast call before old (Reached-AreFromPast empty before old nothing reached)

    -- After any sequence of calls from an empty cache on, with searches and corpus revisions that
    -- may change from call to call: what a call returns where its revision can be read is what its
    -- own search returns now, or what the search of an earlier call of the sequence returned for a
    -- normalized query, mode, limit, sorted filters and corpus revision with the same digest: for
    -- the same ones, unless the digest collides.
    pub Reached-served :
        (empty : Cache) (past : List (Fields × SearchExecution F)) (cache : Cache) (call : Call F)
        (revision : ℤ) (e : SearchExecution F)
        → ((k : Text) → ports.get k empty ≡ none)
        → Reached empty past cache
        → call.current ≡ ok revision
        → (served call cache).0 ≡ ok e
        → (call.search call.query call.mode call.limit call.filters ≡ ok e)
          ⊎ IsOf past (digest_of (fields_of call revision)) e
    unfolding cached_search cache_key
    Reached-served empty past cache call revision e nothing reached r h =
        let kept = Reached-AreFromPast empty past cache nothing reached in
        elim (Bool-cases (is_zero ports.ttl_seconds)) [
          | inl off ↦ inl (ground arith)
          | inr on ↦ elim (Option-cases (ports.get (digest_of (fields_of call revision)) cache)) [
            | inr (x, hit) ↦
                let same : x ≡ e = ground arith in
                inr (kept (digest_of (fields_of call revision)) e (hit ∙ ap some same))
            | inl miss ↦
                elim (Result-cases (call.search call.query call.mode call.limit call.filters)) [
                  | inr (x, found) ↦ absurd (ground arith)
                  | inl (x, found) ↦ inl (ground arith)
                ]
          ]
        ]
