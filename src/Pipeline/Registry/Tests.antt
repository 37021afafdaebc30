-- ===== src/Pipeline/Registry/Tests.antt =====
-- A second backend under a name that is taken.
use technical_doc_parser.Prelude.{
  ℕ, ◌≡◌, ◌&&◌, not, Option, some, [], ◌∷◌, bytes, text_eq, ◌==◌, if◌then◌else◌,
}
use technical_doc_parser.Prelude.Dict.{lookup}
use technical_doc_parser.Pipeline.Registry.{
  Registry, valid_name, has_value, register_backend, contains,
}
use technical_doc_parser.Pipeline.Registry.Registration.{register_backend_lem}

abbrev one : Registry ℕ
one = (bytes "text", some 3) ∷ []

register_backend_test :
    let (r, accepted) = register_backend (bytes "text") (some (some 4)) one in
    (accepted ≡ (
      has_value {A = Option ℕ} (some (some 4))
      && valid_name (bytes "text")
      && not (contains one (bytes "text"))))
    × (lookup (bytes "text") r ≡ (
        if accepted && bytes "text" == bytes "text"
        then some (some 4)
        else lookup (bytes "text") one))
register_backend_test = register_backend_lem (bytes "text") (bytes "text") (some (some 4)) one
