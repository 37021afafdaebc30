-- ===== src/Pipeline/Services/Selection.antt =====
-- cpp/pipeline/pipeline_service_factory.cpp: when the backends of a run can be created, and which ones
-- they are.
use technical_doc_parser.Prelude.{
  ◌≡◌, refl, ap, ◌∙◌, ◌⊎◌, inl, inr, Option, none, some, List, [], ◌∷◌, ◌++◌, map, Text, bytes,
  text_eq, ◌==◌, if◌then◌else◌, Bool-cases, Option-cases,
}
use technical_doc_parser.Prelude.Dict.{lookup}
use technical_doc_parser.Pipeline.Registry.{Backend, Registry, BackendRegistry, create}
use technical_doc_parser.Pipeline.Chain.{NamedBackend, join_names}
use technical_doc_parser.Pipeline.Services.{
  creation_error, Choice, refused, chosen, OcrService, usable, unusable, Service, single, chained,
  service_of, map_choice, choose_named, reason_of, first_ocr, choose_ocr, collect, choose_all,
  choose_service,
}

-- The backend of a name: what its factory returns, if that calls itself available.
unfoldable pub usable_backend {ℓ} : {B : Type ℓ} → Backend B → Registry B → Text → Option B
usable_backend ops registry name = elim (lookup name registry) [
  | none ↦ none
  | some none ↦ none
  | some (some b) ↦ if ops.is_available b then some b else none
]

unfoldable pub document_backend {ℓ} : {D O L T : Type ℓ} → BackendRegistry D O L T → Text → Option D
document_backend registry name = elim (lookup name registry.document_factories) [
  | none ↦ none
  | some d ↦ d
]

-- Under its name, the backend of a name, of the first name that has one, and of all names that do.
abbrev pub named {ℓ} : {B : Type ℓ} → (Text → Option B) → Text → Option (Text × B)
named find name = elim (find name) [ none ↦ none | some b ↦ some (name, b) ]

abbrev pub first_found {ℓ} : {B : Type ℓ} → (Text → Option B) → List Text → Option (Text × B)
first_found find [] = none
first_found find (name ∷ names) = elim (find name) [
  | none ↦ first_found find names
  | some b ↦ some (name, b)
]

abbrev pub all_found {ℓ} : {B : Type ℓ} → (Text → Option B) → List Text → List (NamedBackend B)
all_found find [] = []
all_found find (name ∷ names) = elim (find name) [
  | none ↦ all_found find names
  | some b ↦ record { name = name; backend = b } ∷ all_found find names
]

-- The OCR backend of a service, none for an `UnavailableOcrBackend`.
abbrev pub backend_of {ℓ} : {O : Type ℓ} → OcrService O → Option O
backend_of (usable o) = some o
backend_of (unusable reason) = none

abbrev pub or_unavailable {ℓ} : {O : Type ℓ} → Option (Text × O) → Text × Option O
or_unavailable none = (bytes "unavailable", none)
or_unavailable (some (name, o)) = (name, some o)

-- One backend by itself and several as a chain, under their joined names.
abbrev pub together {ℓ} : {B : Type ℓ} → List (NamedBackend B) → Option (Text × Service B)
together [] = none
together (b ∷ []) = some (join_names (b.name ∷ []), single b.backend)
together (b ∷ c ∷ more) =
    some (join_names (map (λ n. n.name) (b ∷ c ∷ more)), chained (b ∷ c ∷ more))

abbrev pub with_value {κ ℓ} :
    {A : Type κ} {B C : Type ℓ} → (B → C) → Option (A × B) → Option (A × C)
with_value f none = none
with_value f (some (name, b)) = some (name, f b)

-- What a choice has chosen, seen through a function.
abbrev pub choice_value {ℓ} : {B C : Type ℓ} → (B → C) → Choice B → Option (Text × C)
choice_value f (refused code message) = none
choice_value f (chosen name b) = some (name, f b)

kept {ℓ} :
    {A B C : Type ℓ} (g : B → C) (f : A → B) (c : Choice A)
    → choice_value g (map_choice f c) ≡ choice_value (λ a. g (f a)) c
kept g f (refused code message) = refl
kept g f (chosen name b) = refl

module _ {ℓ} {B : Type ℓ} (ops : Backend B) (registry : Registry B) where
  create-usable_backend :
      (name : Text) → (create ops registry name).backend ≡ usable_backend ops registry name
  unfolding create usable_backend
  create-usable_backend name = elim (Option-cases (lookup name registry)) [
    | inl t ↦ rw (t, create, usable_backend) refl
    | inr (none, t) ↦ rw (t, create, usable_backend) refl
    | inr (some b, t) ↦ elim (Bool-cases (ops.is_available b)) [
      | inl a ↦ rw (t, a, create, usable_backend) refl
      | inr a ↦ rw (t, a, create, usable_backend) refl
    ]
  ]

  create_cases :
      (name : Text)
      → ((usable_backend ops registry name ≡ none) × ((create ops registry name).backend ≡ none))
        ⊎ ((b : B) × (usable_backend ops registry name ≡ some b)
            × ((create ops registry name).backend ≡ some b))
  create_cases name = elim (Option-cases (usable_backend ops registry name)) [
    | inl u ↦ inl (u, create-usable_backend name ∙ u)
    | inr (b, u) ↦ inr (b, u, create-usable_backend name ∙ u)
  ]

  choose_named_lem :
      {C : Type ℓ} (f : B → C) (stage name : Text)
      → choice_value f (choose_named ops registry stage name)
        ≡ with_value f (named (usable_backend ops registry) name)
  unfolding choose_named creation_error
  choose_named_lem f stage name = elim (create_cases name) [
    | inl (u, c) ↦ rw (u, c, choose_named, named) refl
    | inr (b, u, c) ↦ rw (u, c, choose_named, named) refl
  ]

  first_ocr_lem :
      (names reasons : List Text)
      → let (name, service) = first_ocr ops registry reasons names in
        (name, backend_of service)
        ≡ or_unavailable (first_found (usable_backend ops registry) names)
  unfolding first_ocr
  first_ocr_lem [] reasons = refl
  first_ocr_lem (name ∷ names) reasons = elim (create_cases name) [
    | inl (u, c) ↦
        rw (u, c, first_ocr, first_found)
          (first_ocr_lem names (reasons ++ reason_of ops registry name ∷ []))
    | inr (b, u, c) ↦ rw (u, c, first_ocr, first_found) refl
  ]

  collect_lem :
      (names : List Text)
      → (collect ops registry names).0 ≡ all_found (usable_backend ops registry) names
  unfolding collect
  collect_lem [] = refl
  collect_lem (name ∷ names) = elim (create_cases name) [
    | inl (u, c) ↦ rw (u, c, collect, all_found) (collect_lem names)
    | inr (b, u, c) ↦
        rw (u, c, collect, all_found)
          (ap (◌∷◌ (record { name = name; backend = b })) (collect_lem names))
  ]

  -- The OCR backend, and the layout or table service, that an order and a name determine.
  abbrev pub ocr_choice : List Text → Text → Option (Text × Option B)
  ocr_choice order name =
      if name == bytes "auto"
      then some (or_unavailable (first_found (usable_backend ops registry) order))
      else with_value some (named (usable_backend ops registry) name)

  abbrev pub service_choice : List Text → Text → Option (Text × Service B)
  service_choice order name =
      if name == bytes "auto"
      then together (all_found (usable_backend ops registry) order)
      else with_value single (named (usable_backend ops registry) name)

  pub choose_ocr_lem :
      (order : List Text) (name : Text)
      → choice_value backend_of (choose_ocr ops registry order name) ≡ ocr_choice order name
  unfolding choose_ocr
  choose_ocr_lem order name = elim (Bool-cases (name == bytes "auto")) [
    | inl a ↦ rw (a, choose_ocr, ocr_choice) (ap some (first_ocr_lem order []))
    | inr a ↦
        rw (a, choose_ocr, ocr_choice)
          (kept backend_of usable (choose_named ops registry (bytes "ocr") name)
            ∙ choose_named_lem some (bytes "ocr") name)
  ]

  service_of_lem :
      (available : List (NamedBackend B)) (stage : Text) (reasons : List Text)
      → choice_value (λ s. s) (service_of stage reasons available) ≡ together available
  unfolding service_of
  service_of_lem [] stage reasons = refl
  service_of_lem (b ∷ []) stage reasons = refl
  service_of_lem (b ∷ c ∷ more) stage reasons = refl

  pub choose_service_lem :
      (stage : Text) (order : List Text) (name : Text)
      → choice_value (λ s. s) (choose_service ops registry stage order name)
        ≡ service_choice order name
  unfolding choose_service choose_all
  choose_service_lem stage order name = elim (Bool-cases (name == bytes "auto")) [
    | inl a ↦
        rw (a, choose_service, service_choice)
          (service_of_lem (collect ops registry order).0 stage (collect ops registry order).1
            ∙ ap together (collect_lem order))
    | inr a ↦
        rw (a, choose_service, service_choice)
          (kept (λ s. s) single (choose_named ops registry stage name)
            ∙ choose_named_lem single stage name)
  ]
