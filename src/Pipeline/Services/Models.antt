-- ===== src/Pipeline/Services/Models.antt =====
-- cpp/pipeline/pipeline_service_factory.cpp: the models that a run is reported to use. Of the engine's
-- configuration, what this reads.
use technical_doc_parser.Prelude.{List, [], ◌∷◌, ◌++◌, Text, bytes, text_eq, ◌==◌, if◌then◌else◌}
use technical_doc_parser.Worker.EngineCache.{BackendOptions}
use technical_doc_parser.Pipeline.Registry.{is_empty}
use technical_doc_parser.Pipeline.Chain.{contains_backend}
use technical_doc_parser.Pipeline.Services.{ModelProvenance, PipelineServiceCreationResult}

pub record EngineConfig : Type 0 where
  pub backends : BackendOptions
  pub tesseract_executable : Text
  pub tesseract_language : Text
  pub paddle_detection_model : Text
  pub paddle_recognition_model : Text
  pub paddle_character_dict : Text
  pub paddle_profile_name : Text
  pub doclaynet_model_path : Text
  pub paddle_layout_model_path : Text
  pub table_detection_model_path : Text
  pub table_structure_model_path : Text

-- `addModel`; the profile is empty by default.
unfoldable pub add_model : ModelProvenance → List ModelProvenance → List ModelProvenance
add_model model models = if is_empty model.path then models else models ++ model ∷ []

abbrev pub model_of : Text → Text → Text → Text → Text → ModelProvenance
model_of stage backend role path profile = record {
  stage = stage;
  backend = backend;
  role = role;
  path = path;
  profile = profile;
}

unfoldable pub add_ocr_models : EngineConfig → Text → List ModelProvenance → List ModelProvenance
unfolding add_model
add_ocr_models config ocr models =
    if ocr == bytes "paddle"
    then add_model
        (model_of (bytes "text") (bytes "paddle") (bytes "character_dictionary")
          config.paddle_character_dict config.paddle_profile_name)
        (add_model
          (model_of (bytes "text") (bytes "paddle") (bytes "recognition")
            config.paddle_recognition_model config.paddle_profile_name)
          (add_model
            (model_of (bytes "text") (bytes "paddle") (bytes "detection")
              config.paddle_detection_model config.paddle_profile_name)
            models))
    else if ocr == bytes "tesseract"
    then add_model
        (model_of (bytes "text") (bytes "tesseract") (bytes "executable")
          config.tesseract_executable config.tesseract_language)
        models
    else models

-- `addConfiguredModels`, on the models of the provenance.
unfoldable pub configured_models :
    EngineConfig → BackendOptions → List ModelProvenance → List ModelProvenance
unfolding add_model add_ocr_models contains_backend
configured_models config resolved models =
    let texts = add_ocr_models config resolved.ocr models in
    let docs =
      if contains_backend resolved.layout (bytes "doclaynet")
      then add_model
          (model_of (bytes "layout") (bytes "doclaynet") (bytes "layout")
            config.doclaynet_model_path [])
          texts
      else texts in
    let layouts =
      if contains_backend resolved.layout (bytes "paddle-layout")
      then add_model
          (model_of (bytes "layout") (bytes "paddle-layout") (bytes "layout")
            config.paddle_layout_model_path [])
          docs
      else docs in
    if contains_backend resolved.table (bytes "table-transformer")
    then add_model
        (model_of (bytes "table") (bytes "table-transformer") (bytes "structure")
          config.table_structure_model_path [])
        (add_model
          (model_of (bytes "table") (bytes "table-transformer") (bytes "detection")
            config.table_detection_model_path [])
          layouts)
    else layouts

-- The end of `createPipelineServices` with an engine's configuration.
unfoldable pub add_configured_models {ℓ} :
    {D O L T : Type ℓ}
    → EngineConfig
    → PipelineServiceCreationResult D O L T
    → PipelineServiceCreationResult D O L T
unfolding configured_models
add_configured_models config result =
    if result.status.ok_status
    then record result {
      provenance = record result.provenance {
        models =
            configured_models config result.provenance.backends.resolved result.provenance.models;
      };
    }
    else result
