-- ===== src/Pipeline/Config/Orders.antt =====
-- cpp/pipeline/backend_registry.cpp: which orders a configuration may have.
use technical_doc_parser.Prelude.{
  ◌≡◌, ◌↔◌, refl, Bool, true, false, ◌&&◌, not, Option, none, some, List, [], ◌∷◌, Text, bytes,
  text_eq, ◌==◌, any, all, arith, if◌then◌else◌,
}
use technical_doc_parser.Prelude.Int.{ℤ}
use technical_doc_parser.Prelude.Dict.{lookup, emplace}
use technical_doc_parser.Pipeline.Registry.{
  valid_name, is_empty, Factories, create_default_backend_registry, add, register_backend, contains,
}
use technical_doc_parser.Pipeline.Config.{
  valid_order, valid_order_loop, Registered, Read, done, failed, bind, require,
  BackendRegistryConfig, FileJson, load_config, read_config, default_config, registered_in,
}

-- No name twice.
abbrev pub is_distinct : List Text → Bool
is_distinct [] = true
is_distinct (name ∷ names) = not (any (λ other. other == name) names) && is_distinct names

-- An order: names that can be registered and are, at least one, and none twice.
abbrev pub is_order : (Text → Bool) → List Text → Bool
is_order registered names =
    not (is_empty names)
    && all (λ name. valid_name name && registered name) names
    && is_distinct names

abbrev is_nothing {ℓ} : {A : Type ℓ} → Option A → Bool
is_nothing none = true
is_nothing (some a) = false

-- No name of the second list stands in the first.
abbrev apart : List Text → List Text → Bool
apart seen [] = true
apart seen (name ∷ names) = not (any (λ other. other == name) seen) && apart seen names

beq_sym : (a b : Text) → (a == b) ≡ (b == a)
beq_sym a b = ground (arith, text_eq.agree_iff a b, text_eq.agree_iff b a)

apart_cons :
    (seen names : List Text) (name : Text)
    → apart (name ∷ seen) names ≡ (not (any (λ other. other == name) names) && apart seen names)
apart_cons seen [] name = refl
apart_cons seen (n ∷ names) name = ground (arith, beq_sym n name, apart_cons seen names name)

valid_order_loop_lem :
    (stage : Text) (registered : Text → Bool) (seen names : List Text)
    → is_nothing (valid_order_loop stage registered seen names) ≡ (
        all (λ name. valid_name name && registered name) names
        && is_distinct names
        && apart seen names)
unfolding valid_order_loop
valid_order_loop_lem stage registered seen [] = refl
valid_order_loop_lem stage registered seen (name ∷ names) =
    ground
      (arith, apart_cons seen names name, valid_order_loop_lem stage registered (name ∷ seen) names)

apart_nil : (names : List Text) → apart [] names ≡ true
apart_nil [] = refl
apart_nil (n ∷ names) = apart_nil names

valid_order_lem :
    (stage : Text) (registered : Text → Bool) (names : List Text)
    → is_nothing (valid_order stage registered names) ≡ is_order registered names
unfolding valid_order
valid_order_lem stage registered [] = refl
valid_order_lem stage registered (name ∷ names) =
    ground
      (arith, apart_nil (name ∷ names), valid_order_loop_lem stage registered [] (name ∷ names))

-- The four orders of a configuration are orders of registered backends.
abbrev pub is_config : Registered → BackendRegistryConfig → Bool
is_config registered c =
    is_order registered.document c.document_auto_order
    && is_order registered.ocr c.ocr_auto_order
    && is_order registered.layout c.layout_auto_order
    && is_order registered.table c.table_auto_order

require_lem {ℓ} :
    {A : Type ℓ} (t1 t2 t3 t4 : Option Text) (c a : A)
    → (require t1 (require t2 (require t3 (require t4 (done c)))) ≡ done a)
      ↔ (((is_nothing t1 && is_nothing t2 && is_nothing t3 && is_nothing t4) ≡ true) × (c ≡ a))
require_lem none none none none c a = ground arith
require_lem none none none (some e) c a = ground arith
require_lem none none (some e) t4 c a = ground arith
require_lem none (some e) t3 t4 c a = ground arith
require_lem (some e) t2 t3 t4 c a = ground arith

-- A configuration is loaded exactly if it is the one that the file gives, or the built-in one where
-- no path is given, and each of its four orders has at least one name, no name twice, and only names
-- of registered backends that may be registered.
pub load_config_iff :
    (print : ℤ → Text) (registered : Registered) (path : Text) (file : FileJson)
    (config : BackendRegistryConfig)
    → (load_config print registered path file ≡ done config) ↔ (
        ((if is_empty path then done default_config else read_config print path file) ≡ done config)
        × (is_config registered config ≡ true))
unfolding load_config
load_config_iff print registered path file config =
    loaded (if is_empty path then done default_config else read_config print path file)
  where
    loaded :
        (read : Read BackendRegistryConfig)
        → (bind read (λ c.
              require (valid_order (bytes "document") registered.document c.document_auto_order) (
                require (valid_order (bytes "ocr") registered.ocr c.ocr_auto_order) (
                  require (valid_order (bytes "layout") registered.layout c.layout_auto_order) (
                    require
                      (valid_order (bytes "table") registered.table c.table_auto_order)
                      (done c)))))
            ≡ done config)
          ↔ ((read ≡ done config) × (is_config registered config ≡ true))
    loaded (failed e) = ground arith
    loaded (done c) = ground (
      arith,
      require_lem (valid_order (bytes "document") registered.document c.document_auto_order)
          (valid_order (bytes "ocr") registered.ocr c.ocr_auto_order)
          (valid_order (bytes "layout") registered.layout c.layout_auto_order)
          (valid_order (bytes "table") registered.table c.table_auto_order) c config,
      valid_order_lem (bytes "document") registered.document c.document_auto_order,
      valid_order_lem (bytes "ocr") registered.ocr c.ocr_auto_order,
      valid_order_lem (bytes "layout") registered.layout c.layout_auto_order,
      valid_order_lem (bytes "table") registered.table c.table_auto_order,
    )

-- The built-in configuration is loaded over the built-in registry, whatever its factories return.
pub load_config-create_default_backend_registry {ℓ} :
    {D O L T : Type ℓ} (print : ℤ → Text) (file : FileJson) (f : Factories D O L T)
    → load_config print (registered_in (create_default_backend_registry f)) [] file
      ≡ done default_config
unfolding load_config valid_order valid_order_loop valid_name registered_in
    create_default_backend_registry add register_backend contains lookup emplace
load_config-create_default_backend_registry print file f = refl
