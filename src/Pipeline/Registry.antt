-- ===== src/Pipeline/Registry.antt =====
-- cpp/pipeline/backend_registry.h and backend_registry.cpp: the backends by name. A factory is a parameter: `none` for a std::function that holds nothing,
-- and otherwise what a call of it returns, `none` for a null pointer.
pub mod Registration
mod Tests
use technical_doc_parser.Prelude.{
  ℕ, Bool, true, false, ◌&&◌, ◌||◌, not, Option, none, some, List, [], ◌∷◌, ◌++◌, Text, bytes,
  text_eq, Eq, ◌==◌, any, map, if◌then◌else◌,
}
use technical_doc_parser.Prelude.Dict.{lookup, emplace}

pub data BackendCreationStatus : Type 0 where
  created unknown unavailable : BackendCreationStatus

-- What the registry calls on a backend.
pub record Backend {ℓ} (B : Type ℓ) : Type ℓ where
  pub is_available : B → Bool
  pub unavailable_reason : B → Text

pub record BackendCreationResult {ℓ} (B : Type ℓ) : Type ℓ where
  pub status : BackendCreationStatus
  pub backend : Option B
  pub error_message : Text

abbrev pub Registry {ℓ} : Type ℓ → Type ℓ
Registry B = List (Text × Option B)

abbrev pub is_empty {ℓ} : {A : Type ℓ} → List A → Bool
is_empty [] = true
is_empty (x ∷ xs) = false

abbrev pub has_value {ℓ} : {A : Type ℓ} → Option A → Bool
has_value none = false
has_value (some a) = true

unfoldable pub valid_name : Text → Bool
valid_name name = not (is_empty name || name == bytes "auto")

module _ {ℓ} {B : Type ℓ} where
  unfoldable pub register_backend : Text → Option (Option B) → Registry B → Registry B × Bool
  unfolding valid_name
  register_backend name none r = (r, false)
  register_backend name (some factory) r =
      if not (valid_name name)
      then (r, false)
      else if has_value (lookup name r)
      then (r, false)
      else (emplace name factory r, true)

  unfoldable pub contains : Registry B → Text → Bool
  contains r name = has_value (lookup name r)

  unfoldable pub create : Backend B → Registry B → Text → BackendCreationResult B
  create ops r name = elim (lookup name r) [
    | none ↦ record {
      status = unknown;
      backend = none;
      error_message = bytes "backend is not registered";
    }
    | some none ↦ record {
      status = unavailable;
      backend = none;
      error_message = bytes "backend factory returned no instance";
    }
    | some (some b) ↦
        let reason = ops.unavailable_reason b in
        if not (ops.is_available b)
        then record {
          status = unavailable;
          backend = none;
          error_message =
              if is_empty reason then bytes "backend reported itself unavailable" else reason;
        }
        else record { status = created; backend = some b; error_message = [] }
  ]

-- `BackendRegistry`: a document source is created like the other backends, but is not asked whether
-- it is available.
pub record BackendRegistry {ℓ} (D O L T : Type ℓ) : Type ℓ where
  pub document_factories : Registry D
  pub ocr : Registry O
  pub layout : Registry L
  pub table : Registry T

-- What the factories of `createDefaultBackendRegistry` return. Where a build has no ONNX runtime,
-- the ones that need it return nothing.
pub record Factories {ℓ} (D O L T : Type ℓ) : Type ℓ where
  pub pdf : Option D
  pub noop : O
  pub tesseract : O
  pub text_layout : L
  pub text_table : T
  pub paddle : Option O
  pub doclaynet : Option L
  pub paddle_layout : Option L
  pub table_transformer : Option T

-- A registration whose answer is not used.
unfoldable pub add {ℓ} : {B : Type ℓ} → Text → Option B → Registry B → Registry B
unfolding register_backend
add name factory r = (register_backend name (some factory) r).0

module _ {ℓ} {D O L T : Type ℓ} where
  unfoldable pub create_document : BackendRegistry D O L T → Text → BackendCreationStatus × Option D
  create_document r name = elim (lookup name r.document_factories) [
    | none ↦ (unknown, none)
    | some none ↦ (unavailable, none)
    | some (some d) ↦ (created, some d)
  ]

  unfoldable pub create_default_backend_registry : Factories D O L T → BackendRegistry D O L T
  unfolding add
  create_default_backend_registry f = record {
    document_factories = add (bytes "pdf") f.pdf [];
    ocr =
        add (bytes "paddle") f.paddle
          (add (bytes "tesseract") (some f.tesseract) (add (bytes "noop") (some f.noop) []));
    layout =
        add (bytes "paddle-layout") f.paddle_layout
          (add (bytes "doclaynet") f.doclaynet (add (bytes "text") (some f.text_layout) []));
    table =
        add (bytes "table-transformer") f.table_transformer
          (add (bytes "text") (some f.text_table) []);
  }
