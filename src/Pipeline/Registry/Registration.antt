-- ===== src/Pipeline/Registry/Registration.antt =====
-- cpp/pipeline/backend_registry.h: what a registration does to the backends that can be created.
use technical_doc_parser.Prelude.{
  ◌≡◌, ◌&&◌, not, Option, none, some, Text, text_eq, ◌==◌, arith, if◌then◌else◌,
}
use technical_doc_parser.Prelude.Dict.{lookup, lookup-emplace}
use technical_doc_parser.Pipeline.Registry.{
  Registry, valid_name, has_value, register_backend, contains,
}

module _ {ℓ} {B : Type ℓ} where
  -- A registration is accepted exactly for a factory under a name that is not empty, not `auto`, and
  -- not taken; the registry then has this factory under the name, and otherwise is as it was.
  pub register_backend_lem :
      (name other : Text) (factory : Option (Option B)) (r : Registry B)
      → let (r', accepted) = register_backend name factory r in
        (accepted ≡ (has_value factory && valid_name name && not (contains r name)))
        × (lookup other r' ≡ (if accepted && name == other then factory else lookup other r))
  unfolding register_backend contains
  register_backend_lem name other none r = ground arith
  register_backend_lem name other (some factory) r =
      ground (arith, text_eq.agree_iff name other, lookup-emplace name other factory r)
