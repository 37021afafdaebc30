-- ===== src/Pipeline/Services.antt =====
-- cpp/pipeline/pipeline_service_factory.cpp: from the options and the registry to the backends of a run
-- and what is reported of them. A path is the text of it.
pub mod Creation
pub mod Models
pub mod Selection
pub mod Resolution
mod Tests
use technical_doc_parser.Prelude.{
  ℕ, Bool, true, false, Option, none, some, List, [], ◌∷◌, ◌++◌, Text, bytes, text_eq, ◌==◌, map,
  if◌then◌else◌,
}
use technical_doc_parser.Prelude.Int.{ℤ}
use technical_doc_parser.Common.Status.{Status, ok, error}
use technical_doc_parser.Worker.EngineCache.{BackendOptions}
use technical_doc_parser.Pipeline.Registry.{
  BackendCreationStatus, created, unknown, unavailable, Backend, BackendCreationResult, Registry,
  BackendRegistry, is_empty, create, create_document,
}
use technical_doc_parser.Pipeline.Config.{
  BackendRegistryConfig, FileJson, Read, failed, done, load_config, registered_in,
}
use technical_doc_parser.Pipeline.Chain.{NamedBackend, join_names, join_details, contains_backend}

pub record ModelProvenance : Type 0 where
  pub stage : Text
  pub backend : Text
  pub role : Text
  pub path : Text
  pub profile : Text

pub record BackendResolution : Type 0 where
  pub requested : BackendOptions
  pub resolved : BackendOptions
  pub config_source : Text

-- `RunProvenance`, up to the fallbacks that a run adds.
pub record RunProvenance : Type 0 where
  pub engine_version : Text
  pub git_revision : Text
  pub backends : BackendResolution
  pub models : List ModelProvenance

-- A backend that was chosen: one of the registry's, or the chain of several.
pub data Service {ℓ} (B : Type ℓ) : Type ℓ where
  single : B → Service B
  chained : List (NamedBackend B) → Service B

-- An OCR backend of the registry, or an `UnavailableOcrBackend` with its reason.
pub data OcrService {ℓ} (O : Type ℓ) : Type ℓ where
  usable : O → OcrService O
  unusable : Text → OcrService O

pub record PipelineServices {ℓ} (D O L T : Type ℓ) : Type ℓ where
  pub document : Option D
  pub ocr : Option (OcrService O)
  pub layout : Option (Service L)
  pub table : Option (Service T)

pub record PipelineServiceCreationResult {ℓ} (D O L T : Type ℓ) : Type ℓ where
  pub status : Status
  pub trace_message : Text
  pub provenance : RunProvenance
  pub services : PipelineServices D O L T

-- What the choice of a backend gives: if it fails, the code and the message of the creation's status, of
-- which the stage is "configure" and which is not to be retried. A creation returns
-- a backend exactly with the status `created`, so the choices ask for the backend.
pub data Choice {ℓ} (B : Type ℓ) : Type ℓ where
  refused : Text → Text → Choice B
  chosen : Text → B → Choice B

-- `setCreationError`; the detail is empty for none.
unfoldable pub creation_error {ℓ} :
    {B : Type ℓ} → Text → Text → BackendCreationStatus → Text → Choice B
creation_error stage backend status detail =
    let more = if is_empty detail then [] else bytes ": " ++ detail in
    refused
      (elim status [
        | unknown ↦ bytes "configure.backend_unknown"
        | _ ↦ bytes "configure.backend_unavailable"
      ])
      ((elim status [
        | unknown ↦ bytes "unknown " ++ stage ++ bytes " backend: " ++ backend
        | _ ↦ stage ++ bytes " backend is unavailable: " ++ backend
      ])
        ++ more)

module _ {ℓ} {D O L T : Type ℓ} (registry : BackendRegistry D O L T) where
  unfoldable pub first_document : List Text → Choice D
  unfolding create_document
  first_document [] =
      refused (bytes "configure.document_backend_unavailable")
        (bytes "no document backend from configured auto_order is available")
  first_document (name ∷ names) =
      let rest = first_document names in
      elim (create_document registry name).1 [ some d ↦ chosen name d | none ↦ rest ]

  unfoldable pub choose_document : BackendRegistryConfig → Text → Choice D
  unfolding first_document create_document creation_error
  choose_document config document =
      if document == bytes "auto"
      then first_document config.document_auto_order
      else (let (status, backend) = create_document registry document in
          elim backend [
            | some d ↦ chosen document d
            | none ↦ creation_error (bytes "document_source") document status []
          ])

abbrev pub map_choice {ℓ} : {B C : Type ℓ} → (B → C) → Choice B → Choice C
map_choice f (refused code message) = refused code message
map_choice f (chosen name b) = chosen name (f b)

-- What becomes of the available backends: none, one, or a chain.
unfoldable pub service_of {ℓ} :
    {B : Type ℓ} → Text → List Text → List (NamedBackend B) → Choice (Service B)
unfolding join_names join_details
service_of stage reasons [] =
    refused (bytes "configure." ++ stage ++ bytes "_backend_unavailable") (
      bytes "no "
      ++ stage
      ++ bytes " backend from configured auto_order is available: "
      ++ join_details reasons)
service_of stage reasons (b ∷ []) = chosen (join_names (b.name ∷ [])) (single b.backend)
service_of stage reasons (b ∷ c ∷ more) =
    chosen (join_names (map (λ n. n.name) (b ∷ c ∷ more))) (chained (b ∷ c ∷ more))

module _ {ℓ} {B : Type ℓ} (ops : Backend B) (registry : Registry B) where
  -- A backend that is asked for by its name.
  unfoldable pub choose_named : Text → Text → Choice B
  unfolding create creation_error
  choose_named stage name =
      let creation = create ops registry name in
      elim creation.backend [
        | some b ↦ chosen name b
        | none ↦ creation_error stage name creation.status creation.error_message
      ]

  unfoldable pub reason_of : Text → Text
  unfolding create
  reason_of name = name ++ bytes ": " ++ (create ops registry name).error_message

  -- The OCR backend of an order, after the reasons of those before it.
  unfoldable pub first_ocr : List Text → List Text → Text × OcrService B
  unfolding create reason_of join_details
  first_ocr reasons [] = (
    bytes "unavailable",
    unusable (
        bytes "no OCR backend from configured auto_order is available ("
        ++ join_details reasons
        ++ bytes "); install a backend or select --ocr-backend noop explicitly"),
  )
  first_ocr reasons (name ∷ names) =
      let rest = first_ocr (reasons ++ reason_of name ∷ []) names in
      elim (create ops registry name).backend [ some b ↦ (name, usable b) | none ↦ rest ]

  unfoldable pub choose_ocr : List Text → Text → Choice (OcrService B)
  unfolding first_ocr choose_named
  choose_ocr order name =
      if name == bytes "auto"
      then (let (selected, service) = first_ocr [] order in chosen selected service)
      else map_choice usable (choose_named (bytes "ocr") name)

  -- The backends of an order that are available, and the reasons of those that are not.
  unfoldable pub collect : List Text → List (NamedBackend B) × List Text
  unfolding create reason_of
  collect [] = ([], [])
  collect (name ∷ names) =
      let (available, reasons) = collect names in
      elim (create ops registry name).backend [
        | some b ↦ (record { name = name; backend = b } ∷ available, reasons)
        | none ↦ (available, reason_of name ∷ reasons)
      ]

  unfoldable pub choose_all : Text → List Text → Choice (Service B)
  unfolding collect service_of
  choose_all stage order =
      let (available, reasons) = collect order in service_of stage reasons available

  -- The choice of the layout backend, and that of the table backend.
  unfoldable pub choose_service : Text → List Text → Text → Choice (Service B)
  unfolding choose_all choose_named
  choose_service stage order name =
      if name == bytes "auto"
      then choose_all stage order
      else map_choice single (choose_named stage name)
