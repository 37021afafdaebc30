-- ===== src/Pipeline/Services/Creation.antt =====
-- cpp/pipeline/pipeline_service_factory.cpp: the creation of the services of a run.
use technical_doc_parser.Prelude.{false, none, some, [], ◌++◌, Text, bytes, text_eq, if◌then◌else◌}
use technical_doc_parser.Prelude.Int.{ℤ}
use technical_doc_parser.Common.Status.{Status, ok, error}
use technical_doc_parser.Worker.EngineCache.{BackendOptions}
use technical_doc_parser.Pipeline.Registry.{Backend, BackendRegistry, is_empty}
use technical_doc_parser.Pipeline.Config.{
  BackendRegistryConfig, FileJson, failed, done, load_config, registered_in,
}
use technical_doc_parser.Pipeline.Services.{
  Service, OcrService, PipelineServiceCreationResult, refused, chosen, choose_document, choose_ocr,
  choose_service,
}

-- What a build is: `DOC_PARSER_ENGINE_VERSION` and `DOC_PARSER_GIT_REVISION`, and std::to_string for
-- the messages of the configuration loader.
pub record Build : Type 0 where
  pub engine_version : Text
  pub git_revision : Text
  pub print : ℤ → Text

-- `BackendOptions` as it is initialized.
abbrev pub default_options : BackendOptions
default_options = record {
  document = bytes "auto";
  ocr = bytes "auto";
  layout = bytes "auto";
  table = bytes "auto";
  registry_config = [];
}

-- A result before its status is set.
abbrev pub not_started : Status
not_started =
    error (bytes "configure.not_started") (bytes "pipeline services were not configured")
      (bytes "configure") false

module _ {ℓ} {D O L T : Type ℓ} where
  unfoldable pub start_creation : Build → BackendOptions → PipelineServiceCreationResult D O L T
  start_creation build options = record {
    status = not_started;
    trace_message = [];
    provenance = record {
      engine_version = build.engine_version;
      git_revision = build.git_revision;
      backends = record { requested = options; resolved = default_options; config_source = [] };
      models = [];
    };
    services = record { document = none; ocr = none; layout = none; table = none };
  }

  abbrev pub with_error :
      Text → Text → PipelineServiceCreationResult D O L T → PipelineServiceCreationResult D O L T
  with_error code message result = record result {
    status = error code message (bytes "configure") false;
  }

  abbrev pub with_source :
      Text → PipelineServiceCreationResult D O L T → PipelineServiceCreationResult D O L T
  with_source source result = record result {
    provenance = record result.provenance {
      backends = record result.provenance.backends { config_source = source };
    };
  }

  abbrev pub with_document :
      D → PipelineServiceCreationResult D O L T → PipelineServiceCreationResult D O L T
  with_document d result = record result { services = record result.services { document = some d } }

  -- What a creation that succeeds adds.
  unfoldable pub finish_creation :
      BackendOptions
      → Text × OcrService O
      → Text × Service L
      → Text × Service T
      → Text
      → PipelineServiceCreationResult D O L T
      → PipelineServiceCreationResult D O L T
  finish_creation options (ocr, o) (layout, l) (table, t) document r = record r {
    status = ok;
    trace_message =
        bytes "registry="
        ++ r.provenance.backends.config_source
        ++ bytes ", document="
        ++ document
        ++ bytes ", ocr="
        ++ ocr
        ++ bytes ", layout="
        ++ layout
        ++ bytes ", table="
        ++ table;
    provenance = record r.provenance {
      backends = record r.provenance.backends {
        resolved = record {
          document = document;
          ocr = ocr;
          layout = layout;
          table = table;
          registry_config = options.registry_config;
        };
      };
    };
    services = record r.services { ocr = some o; layout = some l; table = some t };
  }

  -- The last three choices, of which none changes the result if it fails.
  unfoldable pub choose_backends :
      Backend O
      → Backend L
      → Backend T
      → BackendOptions
      → BackendRegistry D O L T
      → BackendRegistryConfig
      → Text
      → PipelineServiceCreationResult D O L T
      → PipelineServiceCreationResult D O L T
  unfolding choose_ocr choose_service finish_creation
  choose_backends ocrs layouts tables options registry config document result =
      elim (choose_ocr ocrs registry.ocr config.ocr_auto_order options.ocr) [
        | refused code message ↦ with_error code message result
        | chosen ocr o ↦
            elim (choose_service layouts registry.layout (bytes "layout") config.layout_auto_order
              options.layout) [
                | refused code message ↦ with_error code message result
                | chosen layout l ↦
                    elim (choose_service tables registry.table (bytes "table")
                      config.table_auto_order options.table) [
                        | refused code message ↦ with_error code message result
                        | chosen table t ↦
                            finish_creation options (ocr, o) (layout, l) (table, t) document result
                      ]
              ]
      ]

  -- `createPipelineServices`. `file` is what the configuration loader reads.
  unfoldable pub create_pipeline_services :
      Build
      → Backend O
      → Backend L
      → Backend T
      → FileJson
      → BackendOptions
      → BackendRegistry D O L T
      → PipelineServiceCreationResult D O L T
  unfolding load_config registered_in start_creation choose_document choose_backends
  create_pipeline_services build ocrs layouts tables file options registry =
      let result = start_creation build options in
      elim (load_config build.print (registered_in registry) options.registry_config file) [
        | failed e ↦ with_error (bytes "configure.backend_registry_invalid") e result
        | done config ↦
            let source =
              if is_empty options.registry_config
              then bytes "builtin"
              else options.registry_config in
            let loaded = with_source source result in
            elim (choose_document registry config options.document) [
              | refused code message ↦ with_error code message loaded
              | chosen document d ↦
                  choose_backends ocrs layouts tables options registry config document
                    (with_document d loaded)
            ]
      ]
