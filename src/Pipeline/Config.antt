-- ===== src/Pipeline/Config.antt =====
-- cpp/pipeline/backend_registry.cpp: the orders in which `auto` tries the backends, and the file that
-- configures them. A load that fails keeps its error; what it had read until then is not kept.
pub mod Orders
mod Tests
use technical_doc_parser.Prelude.{
  ℕ, Bool, true, false, ◌&&◌, ◌||◌, not, Option, none, some, List, [], ◌∷◌, ◌++◌, Text, bytes,
  text_eq, Eq, ◌==◌, any, map, if◌then◌else◌,
}
use technical_doc_parser.Prelude.Int.{ℤ, pos, int_beq}
use technical_doc_parser.Prelude.Dict.{lookup}
use technical_doc_parser.Pipeline.Registry.{is_empty, valid_name, contains, BackendRegistry}

-- `error` is `none` where a function returns true.
unfoldable pub valid_order_loop : Text → (Text → Bool) → List Text → List Text → Option Text
valid_order_loop stage registered seen [] = none
valid_order_loop stage registered seen (name ∷ names) =
    let rest = valid_order_loop stage registered (name ∷ seen) names in
    if not (valid_name name)
    then some (bytes "auto_order." ++ stage ++ bytes " contains an invalid backend name")
    else if any (λ other. other == name) seen
    then some (bytes "auto_order." ++ stage ++ bytes " contains duplicate backend: " ++ name)
    else if not (registered name)
    then some
        (bytes "auto_order." ++ stage ++ bytes " references an unregistered backend: " ++ name)
    else rest

unfoldable pub valid_order : Text → (Text → Bool) → List Text → Option Text
unfolding valid_order_loop
valid_order stage registered [] =
    some (bytes "auto_order." ++ stage ++ bytes " must contain at least one backend")
valid_order stage registered (name ∷ names) = valid_order_loop stage registered [] (name ∷ names)

pub record BackendRegistryConfig : Type 0 where
  pub version : ℤ
  pub document_auto_order : List Text
  pub ocr_auto_order : List Text
  pub layout_auto_order : List Text
  pub table_auto_order : List Text

abbrev pub default_config : BackendRegistryConfig
default_config = record {
  version = pos 1;
  document_auto_order = bytes "pdf" ∷ [];
  ocr_auto_order = bytes "paddle" ∷ bytes "tesseract" ∷ [];
  layout_auto_order = bytes "doclaynet" ∷ bytes "paddle-layout" ∷ bytes "text" ∷ [];
  table_auto_order = bytes "table-transformer" ∷ bytes "text" ∷ [];
}

-- The JSON that the loader reads, as the parser gives it: the value of an order, of the member
-- `auto_order`, and of the root, each `other` where it has another type.
pub data OrderJson : Type 0 where
  not_array not_strings : OrderJson
  strings : List Text → OrderJson

pub data OrdersJson : Type 0 where
  not_object : OrdersJson
  object : List (Text × OrderJson) → OrdersJson

-- A version that is not a number makes `value` throw: `bad_version`, with the exception's text.
pub data VersionJson : Type 0 where
  absent : VersionJson
  number : ℤ → VersionJson
  bad_version : Text → VersionJson

pub record RootJson : Type 0 where
  pub keys : List Text
  pub version : VersionJson
  pub auto_order : Option OrdersJson

pub data FileJson : Type 0 where
  unreadable : FileJson
  parse_error : Text → FileJson
  no_object : FileJson
  root : RootJson → FileJson

-- A result is the error of a load that stops early, or what it has read.
pub data Read {ℓ} (A : Type ℓ) : Type ℓ where
  failed : Text → Read A
  done : A → Read A

unfoldable pub read_order : List (Text × OrderJson) → Text → List Text → Read (List Text)
read_order auto_order key target = elim (lookup key auto_order) [
  | none ↦ done target
  | some not_array ↦ failed (bytes "auto_order." ++ key ++ bytes " must be an array")
  | some not_strings ↦ failed (bytes "auto_order." ++ key ++ bytes " must contain only strings")
  | some (strings names) ↦ done names
]

-- The loops that refuse keys that the loader does not know.
unfoldable pub unknown_key : List Text → List Text → Option Text
unknown_key known [] = none
unknown_key known (key ∷ keys) =
    let rest = unknown_key known keys in if any (λ k. k == key) known then rest else some key

abbrev pub bind {ℓ κ} : {A : Type ℓ} {B : Type κ} → Read A → (A → Read B) → Read B
bind (failed e) f = failed e
bind (done a) f = f a

abbrev pub stages : List Text
stages = bytes "document" ∷ bytes "ocr" ∷ bytes "layout" ∷ bytes "table" ∷ []

unfoldable pub read_orders :
    List (Text × OrderJson) → BackendRegistryConfig → Read BackendRegistryConfig
unfolding read_order unknown_key
read_orders orders config = elim (unknown_key stages (map (λ entry. entry.0) orders)) [
  | some key ↦ failed (bytes "unknown auto_order stage: " ++ key)
  | none ↦ bind (read_order orders (bytes "document") config.document_auto_order) (λ document.
      bind (read_order orders (bytes "ocr") config.ocr_auto_order) (λ ocr.
        bind (read_order orders (bytes "layout") config.layout_auto_order) (λ layout.
          bind (read_order orders (bytes "table") config.table_auto_order) (λ table.
            done (record config {
              document_auto_order = document;
              ocr_auto_order = ocr;
              layout_auto_order = layout;
              table_auto_order = table;
            })))))
]

unfoldable pub read_version : VersionJson → Read ℤ
read_version absent = done (pos 1)
read_version (number v) = done v
read_version (bad_version what) = failed (bytes "invalid backend registry config: " ++ what)

-- What is read of the file. `print` is std::to_string.
unfoldable pub read_config : (ℤ → Text) → Text → FileJson → Read BackendRegistryConfig
unfolding read_orders read_version unknown_key
read_config print path unreadable =
    failed (bytes "failed to read backend registry config: " ++ path)
read_config print path (parse_error what) =
    failed (bytes "invalid backend registry config: " ++ what)
read_config print path no_object = failed (bytes "backend registry config root must be an object")
read_config print path (root r) =
    elim (unknown_key (bytes "version" ∷ bytes "auto_order" ∷ []) r.keys) [
      | some key ↦ failed (bytes "unknown backend registry config field: " ++ key)
      | none ↦ bind (read_version r.version) (λ version.
          if not (int_beq version (pos 1))
          then failed (bytes "unsupported backend registry config version: " ++ print version)
          else elim r.auto_order [
            | none ↦ done default_config
            | some not_object ↦ failed (bytes "auto_order must be an object")
            | some (object orders) ↦ read_orders orders default_config
          ])
    ]

-- The functions that tell whether a stage has a backend of a name.
pub record Registered : Type 0 where
  pub document : Text → Bool
  pub ocr : Text → Bool
  pub layout : Text → Bool
  pub table : Text → Bool

abbrev pub require {ℓ} : {A : Type ℓ} → Option Text → Read A → Read A
require (some error) next = failed error
require none next = next

-- `loadBackendRegistryConfig`
unfoldable pub load_config : (ℤ → Text) → Registered → Text → FileJson → Read BackendRegistryConfig
unfolding read_config valid_order
load_config print registered path file =
    let config = if is_empty path then done default_config else read_config print path file in
    bind config (λ c.
      require (valid_order (bytes "document") registered.document c.document_auto_order) (
        require (valid_order (bytes "ocr") registered.ocr c.ocr_auto_order) (
          require (valid_order (bytes "layout") registered.layout c.layout_auto_order)
            (require (valid_order (bytes "table") registered.table c.table_auto_order) (done c)))))

module _ {ℓ} {D O L T : Type ℓ} where
  -- `hasDocument`, `hasOcr`, `hasLayout` and `hasTable`
  unfoldable pub registered_in : BackendRegistry D O L T → Registered
  unfolding contains
  registered_in r = record {
    document = contains r.document_factories;
    ocr = contains r.ocr;
    layout = contains r.layout;
    table = contains r.table;
  }
