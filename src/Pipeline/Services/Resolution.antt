-- ===== src/Pipeline/Services/Resolution.antt =====
-- cpp/pipeline/pipeline_service_factory.cpp: when the services of a run can be created, and from which
-- backends.
use technical_doc_parser.Prelude.{
  ◌≡◌, ◌∙◌, refl, sym, ◌⊎◌, inl, inr, Option, none, some, List, [], ◌∷◌, Text, bytes, text_eq, ◌==◌,
  if◌then◌else◌, Bool-cases, Option-cases,
}
use technical_doc_parser.Prelude.Dict.{lookup}
use technical_doc_parser.Worker.EngineCache.{BackendOptions}
use technical_doc_parser.Pipeline.Registry.{
  Backend, Registry, BackendRegistry, is_empty, create_document,
}
use technical_doc_parser.Pipeline.Config.{
  BackendRegistryConfig, FileJson, Read, failed, done, load_config, registered_in,
}
use technical_doc_parser.Pipeline.Services.{
  creation_error, Service, Choice, refused, chosen, PipelineServiceCreationResult, first_document,
  choose_document, choose_ocr, choose_service,
}
use technical_doc_parser.Pipeline.Services.Creation.{
  Build, create_pipeline_services, choose_backends, start_creation, finish_creation, with_document,
  with_source,
}
use technical_doc_parser.Pipeline.Services.Selection.{
  named, first_found, document_backend, backend_of, choice_value, ocr_choice, service_choice,
  choose_ocr_lem, choose_service_lem,
}

module _ {ℓ} {D O L T : Type ℓ} (ocrs : Backend O) (layouts : Backend L) (tables : Backend T)
    (registry : BackendRegistry D O L T) where
  -- What a creation is to make: the names of the backends, and the services behind them, the OCR service
  -- up to the reason of an `UnavailableOcrBackend`.
  abbrev pub Resolved : Type ℓ
  Resolved = BackendOptions × Option D × Option (Option O) × Option (Service L) × Option (Service T)

  abbrev pub document_choice : List Text → Text → Option (Text × D)
  document_choice order name =
      if name == bytes "auto"
      then first_found (document_backend registry) order
      else named (document_backend registry) name

  -- The backends that the options, the orders of a configuration and the registry determine: a name that
  -- is not `auto` is that of a backend that can be created, or there are none; for `auto` it is the first
  -- document backend of its order and the first OCR backend, or `unavailable`, and all the layout and all
  -- the table backends of theirs, of which there must be one.
  abbrev pub resolution : BackendRegistryConfig → BackendOptions → Option Resolved
  resolution config options = elim (document_choice config.document_auto_order options.document) [
    | none ↦ none
    | some (nd, d) ↦ elim (ocr_choice ocrs registry.ocr config.ocr_auto_order options.ocr) [
      | none ↦ none
      | some (reader, o) ↦
          elim (service_choice layouts registry.layout config.layout_auto_order options.layout) [
            | none ↦ none
            | some (nl, l) ↦
                elim (service_choice tables registry.table config.table_auto_order options.table) [
                  | none ↦ none
                  | some (nt, t) ↦ some (
                    record {
                      document = nd;
                      ocr = reader;
                      layout = nl;
                      table = nt;
                      registry_config = options.registry_config;
                    },
                    some d,
                    some o,
                    some l,
                    some t,
                  )
                ]
          ]
    ]
  ]

  -- What a creation that succeeded has resolved, and its services.
  abbrev pub resolved_of : PipelineServiceCreationResult D O L T → Option Resolved
  resolved_of r =
      if r.status.ok_status
      then some (
        r.provenance.backends.resolved,
        r.services.document,
        elim r.services.ocr [ none ↦ none | some o ↦ some (backend_of o) ],
        r.services.layout,
        r.services.table,
      )
      else none

  create_document-document_backend :
      (name : Text) → (create_document registry name).1 ≡ document_backend registry name
  unfolding create_document document_backend
  create_document-document_backend name =
      elim (Option-cases (lookup name registry.document_factories)) [
        | inl t ↦ rw (t, create_document, document_backend) refl
        | inr (none, t) ↦ rw (t, create_document, document_backend) refl
        | inr (some d, t) ↦ rw (t, create_document, document_backend) refl
      ]

  document_cases :
      (name : Text)
      → ((document_backend registry name ≡ none) × ((create_document registry name).1 ≡ none))
        ⊎ ((d : D) × (document_backend registry name ≡ some d)
            × ((create_document registry name).1 ≡ some d))
  document_cases name = elim (Option-cases (document_backend registry name)) [
    | inl u ↦ inl (u, create_document-document_backend name ∙ u)
    | inr (d, u) ↦ inr (d, u, create_document-document_backend name ∙ u)
  ]

  first_document_lem :
      (names : List Text)
      → choice_value (λ d. d) (first_document registry names)
        ≡ first_found (document_backend registry) names
  unfolding first_document
  first_document_lem [] = refl
  first_document_lem (name ∷ names) = elim (document_cases name) [
    | inl (u, c) ↦ rw (u, c, first_document, first_found) (first_document_lem names)
    | inr (d, u, c) ↦ rw (u, c, first_document, first_found) refl
  ]

  choose_document_lem :
      (config : BackendRegistryConfig) (name : Text)
      → choice_value (λ d. d) (choose_document registry config name)
        ≡ document_choice config.document_auto_order name
  unfolding choose_document creation_error
  choose_document_lem config name = elim (Bool-cases (name == bytes "auto")) [
    | inl a ↦
        rw (a, choose_document, document_choice) (first_document_lem config.document_auto_order)
    | inr a ↦ elim (document_cases name) [
      | inl (u, c) ↦ rw (a, u, c, choose_document, document_choice, named) refl
      | inr (d, u, c) ↦ rw (a, u, c, choose_document, document_choice, named) refl
    ]
  ]

  Read-cases {κ} :
      {A : Type κ} (r : Read A) → ((e : Text) × (r ≡ failed e)) ⊎ ((a : A) × (r ≡ done a))
  Read-cases (failed e) = inl (e, refl)
  Read-cases (done a) = inr (a, refl)

  Choice-value {κ} :
      {B C : Type κ} (f : B → C) (c : Choice B) (expected : Option (Text × C))
      → choice_value f c ≡ expected
      → ((code : Text) × (message : Text) × (c ≡ refused code message) × (expected ≡ none))
        ⊎ ((name : Text) × (b : B) × (c ≡ chosen name b) × (expected ≡ some (name, f b)))
  Choice-value f (refused code message) expected same = inl (code, message, refl, sym same)
  Choice-value f (chosen name b) expected same = inr (name, b, refl, sym same)

  service_cases {κ} :
      {B : Type κ} (ops : Backend B) (known : Registry B) (stage : Text) (order : List Text)
      (name : Text)
      → let c = choose_service ops known stage order name in
        let expected = service_choice ops known order name in
        ((code : Text) × (message : Text) × (c ≡ refused code message) × (expected ≡ none))
        ⊎ ((n : Text) × (s : Service B) × (c ≡ chosen n s) × (expected ≡ some (n, s)))
  service_cases ops known stage order name =
      Choice-value (λ s. s) (choose_service ops known stage order name)
        (service_choice ops known order name) (choose_service_lem ops known stage order name)

  resolved_of-choose_backends :
      (config : BackendRegistryConfig) (options : BackendOptions) (document : Text) (backend : D)
      (result : PipelineServiceCreationResult D O L T)
      → document_choice config.document_auto_order options.document ≡ some (document, backend)
      → resolved_of (
          choose_backends ocrs layouts tables options registry config document
            (with_document backend result))
        ≡ resolution config options
  unfolding choose_backends finish_creation
  resolved_of-choose_backends config options document backend result found =
      elim (Choice-value backend_of (choose_ocr ocrs registry.ocr config.ocr_auto_order options.ocr)
        (ocr_choice ocrs registry.ocr config.ocr_auto_order options.ocr)
        (choose_ocr_lem ocrs registry.ocr config.ocr_auto_order options.ocr)) [
          | inl (_, _, o, eo) ↦ rw (o, found, eo, choose_backends, resolution) refl
          | inr (_, _, o, eo) ↦
              elim (service_cases layouts registry.layout (bytes "layout") config.layout_auto_order
                options.layout) [
                  | inl (_, _, l, el) ↦ rw (o, found, eo, l, el, choose_backends, resolution) refl
                  | inr (_, _, l, el) ↦
                      elim (service_cases tables registry.table (bytes "table")
                        config.table_auto_order options.table) [
                          | inl (_, _, t, et) ↦
                              rw (o, found, eo, l, el, t, et, choose_backends, resolution) refl
                          | inr (_, _, t, et) ↦
                              rw (o, found, eo, l, el, t, et, choose_backends, resolution) refl
                        ]
                ]
        ]

  -- A creation succeeds exactly if the configuration loads and the options resolve under it. It then
  -- reports the names that they resolve to, and its services are the backends of these names: the
  -- document and OCR backend, the latter none where no OCR backend is available, and for layout and
  -- tables one backend or the chain of several in their order.
  pub create_pipeline_services_lem :
      (build : Build) (file : FileJson) (options : BackendOptions)
      → resolved_of (create_pipeline_services build ocrs layouts tables file options registry)
        ≡ elim (load_config build.print (registered_in registry) options.registry_config file) [
          | failed e ↦ none
          | done config ↦ resolution config options
        ]
  unfolding create_pipeline_services start_creation
  create_pipeline_services_lem build file options =
      elim (Read-cases
        (load_config build.print (registered_in registry) options.registry_config file)) [
          | inl (e, r) ↦ rw (r, create_pipeline_services) refl
          | inr (config, r) ↦
              elim (Choice-value (λ d. d) (choose_document registry config options.document)
                (document_choice config.document_auto_order options.document)
                (choose_document_lem config options.document)) [
                  | inl (_, _, d, ed) ↦ rw (r, d, ed, create_pipeline_services, resolution) refl
                  | inr (nd, bd, d, ed) ↦
                      rw (r, d, create_pipeline_services)
                        (resolved_of-choose_backends config options nd bd
                          (with_source
                            (if is_empty options.registry_config
                              then bytes "builtin"
                              else options.registry_config)
                            (start_creation build options))
                          ed)
                ]
        ]
