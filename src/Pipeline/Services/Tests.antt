-- ===== src/Pipeline/Services/Tests.antt =====
-- A creation from the built-in orders, with one usable layout backend.
use technical_doc_parser.Prelude.{ℕ, ◌≡◌, none, some, [], bytes, nat_beq, not}
use technical_doc_parser.Pipeline.Registry.{Backend, Factories, create_default_backend_registry}
use technical_doc_parser.Pipeline.Config.{unreadable, failed, done, load_config, registered_in}
use technical_doc_parser.Pipeline.Services.Creation.{
  Build, default_options, create_pipeline_services,
}
use technical_doc_parser.Pipeline.Services.Resolution.{
  resolution, resolved_of, create_pipeline_services_lem,
}

-- The backend 0 is not available.
abbrev numbered : Backend ℕ
numbered = record { is_available = λ n. not (nat_beq n 0); unavailable_reason = λ n. [] }

abbrev factories : Factories ℕ ℕ ℕ ℕ
factories = record {
  pdf = some 1;
  noop = 2;
  tesseract = 0;
  text_layout = 3;
  text_table = 4;
  paddle = none;
  doclaynet = none;
  paddle_layout = some 5;
  table_transformer = none;
}

abbrev small_build : Build
small_build = record { engine_version = bytes "1"; git_revision = []; print = λ n. [] }

create_pipeline_services_example :
    let registry = create_default_backend_registry factories in
    let options = default_options in
    resolved_of numbered numbered numbered registry
      (create_pipeline_services small_build numbered numbered numbered unreadable options registry)
    ≡ elim (load_config small_build.print (registered_in registry) [] unreadable) [
      | failed e ↦ none
      | done config ↦ resolution numbered numbered numbered registry config options
    ]
create_pipeline_services_example =
    create_pipeline_services_lem numbered numbered numbered
      (create_default_backend_registry factories) small_build unreadable default_options
