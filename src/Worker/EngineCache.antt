-- ===== src/Worker/EngineCache.antt =====
-- platform/worker/document_engine_cache.cpp: the engines that a worker keeps, the most recently used
-- first. What makes a path absolute and canonical, and an engine of a configuration, is a parameter.
pub mod Recency
mod Tests
use technical_doc_parser.Prelude.{
  ℕ, Bool, true, false, ◌&&◌, not, Option, none, some, List, [], ◌∷◌, Text, text_eq, ◌==◌, nat_beq,
  length, if◌then◌else◌,
}
use technical_doc_parser.Common.Status.{Status, ok}

-- `BackendOptions`
pub record BackendOptions : Type 0 where
  pub document : Text
  pub ocr : Text
  pub layout : Text
  pub table : Text
  pub registry_config : Text

abbrev pub is_empty {ℓ} : {A : Type ℓ} → List A → Bool
is_empty [] = true
is_empty (x ∷ xs) = false

-- The file system: `absolute` and `weakly_canonical` are `none` where they report an error.
pub record Paths : Type 0 where
  pub absolute : Text → Option Text
  pub weakly_canonical : Text → Option Text
  pub lexically_normal : Text → Text

abbrev pub or_else : Option Text → Text → Text
or_else none t = t
or_else (some s) t = s

unfoldable pub normalized_path : Paths → Text → Text
normalized_path paths [] = []
normalized_path paths (c ∷ path) =
    let absolute = or_else (paths.absolute (c ∷ path)) (c ∷ path) in
    or_else (paths.weakly_canonical absolute) (paths.lexically_normal absolute)

unfoldable pub normalized_backends : Paths → BackendOptions → BackendOptions
unfolding normalized_path
normalized_backends paths backends = record backends {
  registry_config = normalized_path paths backends.registry_config;
}

unfoldable pub same_backends : BackendOptions → BackendOptions → Bool
same_backends left right =
    left.document == right.document
    && left.ocr == right.ocr
    && left.layout == right.layout
    && left.table == right.table
    && left.registry_config == right.registry_config

unfoldable pub effective_backend_options : BackendOptions → BackendOptions → BackendOptions
effective_backend_options defaults requested =
    if is_empty requested.registry_config
    then record requested { registry_config = defaults.registry_config }
    else requested

-- What an engine tells of its initialization.
pub record Engines {ℓ} (E : Type ℓ) : Type ℓ where
  pub create_unique : BackendOptions → E
  pub is_ready : E → Bool
  pub initialization_status : E → Status

pub record Entry {ℓ} (E : Type ℓ) : Type ℓ where
  pub backends : BackendOptions
  pub engine : E

pub record DocumentEngineLookup {ℓ} (E : Type ℓ) : Type ℓ where
  pub engine : Option E
  pub status : Status
  pub cache_hit : Bool

pub record DocumentEngineCache {ℓ} (E : Type ℓ) : Type ℓ where
  pub capacity : ℕ
  pub entries : List (Entry E)

module _ {ℓ} {E : Type ℓ} where
  -- The constructor; `none` where it throws.
  unfoldable pub new_cache : ℕ → Option (DocumentEngineCache E)
  new_cache capacity =
      if nat_beq capacity 0 then none else some (record { capacity = capacity; entries = [] })

  -- The first entry of these backends, and the other entries.
  unfoldable pub take_out : BackendOptions → List (Entry E) → Option (Entry E × List (Entry E))
  take_out backends [] = none
  take_out backends (e ∷ entries) =
      let rest = take_out backends entries in
      if same_backends e.backends backends
      then some (e, entries)
      else elim rest [ none ↦ none | some (found, others) ↦ some (found, e ∷ others) ]

  unfoldable pub pop_back : List (Entry E) → List (Entry E)
  pop_back [] = []
  pop_back (e ∷ []) = []
  pop_back (e ∷ f ∷ entries) = e ∷ pop_back (f ∷ entries)

  -- `DocumentEngineCache::get`. A hit splices the entry to the front.
  unfoldable pub get :
      Paths
      → Engines E
      → BackendOptions
      → DocumentEngineCache E
      → DocumentEngineCache E × DocumentEngineLookup E
  unfolding normalized_backends take_out pop_back
  get paths engines backends cache =
      let normalized = normalized_backends paths backends in
      let engine = engines.create_unique normalized in
      let kept =
        if nat_beq (length cache.entries) cache.capacity
        then pop_back cache.entries
        else cache.entries in
      elim (take_out normalized cache.entries) [
        | some (found, others) ↦ (
          record cache { entries = found ∷ others },
          record { engine = some found.engine; status = ok; cache_hit = true },
        )
        | none ↦
            if not (engines.is_ready engine)
            then (
              cache,
              record {
                engine = none;
                status = engines.initialization_status engine;
                cache_hit = false;
              },
            )
            else (
              record cache { entries = record { backends = normalized; engine = engine } ∷ kept },
              record { engine = some engine; status = ok; cache_hit = false },
            )
      ]
