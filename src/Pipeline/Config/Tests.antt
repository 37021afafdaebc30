-- ===== src/Pipeline/Config/Tests.antt =====
-- A configuration that names one backend of each stage, and the built-in one.
use technical_doc_parser.Prelude.{
  ℕ, ◌≡◌, true, none, some, [], ◌∷◌, Text, bytes, text_eq, ◌==◌, if◌then◌else◌, ◌↔◌,
}
use technical_doc_parser.Prelude.Int.{ℤ, pos}
use technical_doc_parser.Pipeline.Registry.{Factories, create_default_backend_registry, is_empty}
use technical_doc_parser.Pipeline.Config.{
  Registered, strings, object, FileJson, root, number, done, BackendRegistryConfig, default_config,
  load_config, read_config, registered_in,
}
use technical_doc_parser.Pipeline.Config.Orders.{
  is_config, load_config_iff, load_config-create_default_backend_registry,
}

abbrev print : ℤ → Text
print n = bytes "2"

abbrev everything : Registered
everything = record {
  document = λ name. true;
  ocr = λ name. true;
  layout = λ name. true;
  table = λ name. name == bytes "text";
}

abbrev file : FileJson
file = root (record {
  keys = bytes "auto_order" ∷ bytes "version" ∷ [];
  version = number (pos 1);
  auto_order = some (object ((bytes "table", strings (bytes "text" ∷ [])) ∷ []));
})

abbrev config : BackendRegistryConfig
config = record default_config { table_auto_order = bytes "text" ∷ [] }

load_config_iff_example : (load_config print everything (bytes "c.json") file ≡ done config) ↔ (
    ((if is_empty (bytes "c.json")
        then done default_config
        else read_config print (bytes "c.json") file)
      ≡ done config)
    × (is_config everything config ≡ true))
load_config_iff_example = load_config_iff print everything (bytes "c.json") file config

abbrev factories : Factories ℕ ℕ ℕ ℕ
factories = record {
  pdf = some 0;
  noop = 1;
  tesseract = 2;
  text_layout = 3;
  text_table = 4;
  paddle = none;
  doclaynet = none;
  paddle_layout = none;
  table_transformer = none;
}

built_in_orders_test :
    load_config print (registered_in (create_default_backend_registry factories)) [] file
    ≡ done default_config
built_in_orders_test = load_config-create_default_backend_registry print file factories
