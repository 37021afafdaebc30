-- ===== src/Worker/EngineCache/Recency.antt =====
-- platform/worker/document_engine_cache.cpp: the order of the entries, against the
-- requests that were made.
use technical_doc_parser.Prelude.{
  ℕ, zero, suc, ◌<◌, ◌≡◌, ◌↔◌, ◌⊎◌, inl, inr, refl, sym, ap, subst, ◌∙◌, Bool, true, false, none,
  some, List, [], ◌∷◌, text_eq, nat_beq, length, length-map, take, any, All, map, arith,
  if◌then◌else◌, Bool-cases,
}
use mathlib.Core.Option.{some-injective}
use technical_doc_parser.Worker.EngineCache.{
  BackendOptions, Paths, normalized_backends, same_backends, Engines, Entry, DocumentEngineCache,
  take_out, pop_back, get, new_cache,
}

abbrev pub mem : BackendOptions → List BackendOptions → Bool
mem b bs = any (λ other. same_backends other b) bs

-- The first occurrence is left out.
unfoldable pub remove : BackendOptions → List BackendOptions → List BackendOptions
remove b [] = []
remove b (c ∷ bs) = if same_backends c b then bs else c ∷ remove b bs

same_backends_iff : (a b : BackendOptions) → (same_backends a b ≡ true) ↔ (a ≡ b)
unfolding same_backends
same_backends_iff a b = ground (
  arith,
  text_eq.agree_iff a.document b.document,
  text_eq.agree_iff a.ocr b.ocr,
  text_eq.agree_iff a.layout b.layout,
  text_eq.agree_iff a.table b.table,
  text_eq.agree_iff a.registry_config b.registry_config,
)

remove_hit :
    (n : ℕ) (b : BackendOptions) (bs : List BackendOptions)
    → mem b (take (suc n) bs) ≡ true
    → take n (remove b bs) ≡ remove b (take (suc n) bs)
unfolding remove
remove_hit n b [] h = cc
remove_hit zero b (c ∷ bs) h = ground arith
remove_hit (suc n) b (c ∷ bs) h = ground (arith, remove_hit n b bs)

remove_miss :
    (n : ℕ) (b : BackendOptions) (bs : List BackendOptions)
    → mem b (take (suc n) bs) ≡ false
    → take n (remove b bs) ≡ take n bs
unfolding remove
remove_miss zero b bs h = refl
remove_miss (suc n) b [] h = refl
remove_miss (suc n) b (c ∷ bs) h = ground (arith, remove_miss n b bs)

unfoldable drop_last : List BackendOptions → List BackendOptions
drop_last [] = []
drop_last (b ∷ []) = []
drop_last (b ∷ c ∷ bs) = b ∷ drop_last (c ∷ bs)

take_nil : (n : ℕ) → take {A = BackendOptions} n [] ≡ []
take_nil zero = refl
take_nil (suc n) = refl

drop_last-take :
    (n : ℕ) (bs : List BackendOptions)
    → (if nat_beq (length (take (suc n) bs)) (suc n)
        then drop_last (take (suc n) bs)
        else take (suc n) bs)
      ≡ take n bs
unfolding drop_last
drop_last-take zero [] = refl
drop_last-take (suc n) [] = elim (Bool-cases (nat_beq 0 (suc (suc n)))) [
  | inl t ↦ rw t refl
  | inr t ↦ rw t refl
]
drop_last-take zero (b ∷ bs) = refl
drop_last-take (suc n) (b ∷ []) = ground (arith, take_nil n)
drop_last-take (suc n) (b ∷ c ∷ bs) = ground (arith, drop_last-take n (c ∷ bs))

module _ {ℓ} {E : Type ℓ} where
  abbrev keys : List (Entry E) → List BackendOptions
  keys entries = map (λ e. e.backends) entries

  keys-pop_back : (entries : List (Entry E)) → keys (pop_back entries) ≡ drop_last (keys entries)
  unfolding pop_back drop_last
  keys-pop_back [] = refl
  keys-pop_back (e ∷ []) = refl
  keys-pop_back (e ∷ f ∷ entries) = ap (λ r. e.backends ∷ r) (keys-pop_back (f ∷ entries))

  -- The engine of an entry is the one that its options make, and is ready.
  abbrev pub IsMade : Engines E → Entry E → Type ℓ
  IsMade engines e =
      (e.engine ≡ engines.create_unique e.backends) × (engines.is_ready e.engine ≡ true)

  take_out_cases :
      (engines : Engines E) (b : BackendOptions) (entries : List (Entry E))
      → All (IsMade engines) entries
      → ((take_out b entries ≡ none) × (mem b (keys entries) ≡ false))
        ⊎ ((found : Entry E) × (others : List (Entry E)) × (take_out b entries
              ≡ some (found, others))
            × (found.backends ≡ b)
            × (mem b (keys entries) ≡ true)
            × (keys others ≡ remove b (keys entries))
            × IsMade engines found
            × All (IsMade engines) others)
  unfolding take_out remove
  take_out_cases engines b [] made = inl (refl, refl)
  take_out_cases engines b (e ∷ entries) (here, rest) =
      elim (Bool-cases (same_backends e.backends b)) [
        | inl t ↦ inr (
          e,
          entries,
          rw t refl,
          (same_backends_iff e.backends b).0 t,
          rw t refl,
          rw t refl,
          here,
          rest,
        )
        | inr t ↦ elim (take_out_cases engines b entries rest) [
          | inl (gone, missing) ↦ inl (rw (t, gone) refl, rw t missing)
          | inr (found, others, out, same, there, left, made, kept) ↦ inr (
            found,
            e ∷ others,
            rw (t, out) refl,
            same,
            rw t there,
            rw t (ap (λ r. e.backends ∷ r) left),
            made,
            (here, kept),
          )
        ]
      ]

-- The requests that count, the latest first: every request of which an engine can be made, each
-- once, at the place of its latest occurrence.
abbrev pub touch {ℓ} :
    {E : Type ℓ} → Engines E → BackendOptions → List BackendOptions → List BackendOptions
touch engines b recent =
    if engines.is_ready (engines.create_unique b) then b ∷ remove b recent else recent

module _ {ℓ} {E : Type ℓ} (engines : Engines E) where
  -- The cache holds, in this order, the engines of the latest `capacity` requests.
  abbrev pub Holds : DocumentEngineCache E → List BackendOptions → Type ℓ
  Holds cache recent =
      (0 < cache.capacity)
      × (map (λ e. e.backends) cache.entries ≡ take cache.capacity recent)
      × All (IsMade engines) cache.entries

  popped :
      (cap : ℕ) (entries : List (Entry E))
      → keys (if nat_beq (length entries) cap then pop_back entries else entries)
        ≡ (if nat_beq (length (keys entries)) cap then drop_last (keys entries) else keys entries)
  popped cap entries =
      rw (length-map (λ e. e.backends) entries) (elim (Bool-cases (nat_beq (length entries) cap)) [
        | inl t ↦ rw t (keys-pop_back entries)
        | inr t ↦ rw t refl
      ])

  pop_back-IsMade :
      (full : Bool) (entries : List (Entry E))
      → All (IsMade engines) entries
      → All (IsMade engines) (if full then pop_back entries else entries)
  unfolding pop_back
  pop_back-IsMade false entries made = made
  pop_back-IsMade true [] made = tt
  pop_back-IsMade true (e ∷ []) made = tt
  pop_back-IsMade true (e ∷ f ∷ entries) (here, rest) =
      (here, pop_back-IsMade true (f ∷ entries) rest)

  recent_hit :
      (cap : ℕ) (b : BackendOptions) (bs : List BackendOptions)
      → 0 < cap
      → mem b (take cap bs) ≡ true
      → b ∷ remove b (take cap bs) ≡ take cap (b ∷ remove b bs)
  recent_hit zero b bs pos h = ground arith
  recent_hit (suc n) b bs pos h = ap (λ r. b ∷ r) (sym (remove_hit n b bs h))

  recent_miss :
      (cap : ℕ) (b : BackendOptions) (bs : List BackendOptions) (entries : List (Entry E))
      → 0 < cap
      → map (λ e. e.backends) entries ≡ take cap bs
      → mem b (take cap bs) ≡ false
      → b
          ∷ map
              (λ e. e.backends)
              (if nat_beq (length entries) cap then pop_back entries else entries)
        ≡ take cap (b ∷ remove b bs)
  recent_miss zero b bs entries pos held h = ground arith
  recent_miss (suc n) b bs entries pos held h =
      ap (λ r. b ∷ r)
        (popped (suc n) entries
          ∙ ap (λ ks. if nat_beq (length ks) (suc n) then drop_last ks else ks) held
          ∙ drop_last-take n bs
          ∙ sym (remove_miss n b bs h))

  get_lem :
      (paths : Paths) (b : BackendOptions) (cache : DocumentEngineCache E)
      (recent : List BackendOptions)
      → Holds cache recent
      → let n = normalized_backends paths b in
        let (cache', found) = get paths engines b cache in
        Holds cache' (touch engines n recent)
        × (found.cache_hit ≡ mem n (take cache.capacity recent))
        × (found.engine ≡ (
            if engines.is_ready (engines.create_unique n)
            then some (engines.create_unique n)
            else none))
  unfolding get
  get_lem paths b cache recent (pos, held, made) =
      elim (take_out_cases engines (normalized_backends paths b) cache.entries made) [
        | inl (gone, missing) ↦
            let absent = ap (λ ks. mem (normalized_backends paths b) ks) (sym held) ∙ missing in
            elim (Bool-cases
              (engines.is_ready (engines.create_unique (normalized_backends paths b)))) [
                | inl t ↦
                    rw (gone, t, get)
                      (
                        (
                          pos,
                          recent_miss cache.capacity _ recent cache.entries pos held absent,
                          (
                            (refl, t),
                            pop_back-IsMade (nat_beq (length cache.entries) cache.capacity)
                                cache.entries made,
                          ),
                        ),
                        sym absent,
                        refl,
                      )
                | inr t ↦ rw (gone, t, get) ((pos, held, made), sym absent, refl)
              ]
        | inr (found, others, out, same, there, left, made, kept) ↦
            let n = normalized_backends paths b in
            let present = ap (λ ks. mem n ks) (sym held) ∙ there in
            let ready =
              ap (λ o. engines.is_ready (engines.create_unique o)) (sym same)
              ∙ ap engines.is_ready (sym made.0)
              ∙ made.1 in
            rw (out, ready, get)
              (
                (
                  pos,
                  ap (λ k. k ∷ keys others) same
                      ∙ ap (λ ks. n ∷ ks) (left ∙ ap (remove n) held)
                      ∙ recent_hit cache.capacity n recent pos present,
                  (made, kept),
                ),
                sym present,
                ap some (made.0 ∙ ap engines.create_unique same),
              )
      ]

  -- What a request finds, and the requests that count after it.
  abbrev pub serve_all : Paths → List BackendOptions → DocumentEngineCache E → DocumentEngineCache E
  serve_all paths [] cache = cache
  serve_all paths (b ∷ bs) cache = serve_all paths bs (get paths engines b cache).0

  abbrev pub touch_all : Paths → List BackendOptions → List BackendOptions → List BackendOptions
  touch_all paths [] recent = recent
  touch_all paths (b ∷ bs) recent =
      touch_all paths bs (touch engines (normalized_backends paths b) recent)

  serve_all_lem :
      (paths : Paths) (bs : List BackendOptions) (cache : DocumentEngineCache E)
      (recent : List BackendOptions)
      → Holds cache recent
      → Holds (serve_all paths bs cache) (touch_all paths bs recent)
  serve_all_lem paths [] cache recent held = held
  serve_all_lem paths (b ∷ bs) cache recent held =
      serve_all_lem paths bs _ _ (get_lem paths b cache recent held).0

  new_cache_lem :
      (capacity : ℕ) (cache : DocumentEngineCache E)
      → new_cache capacity ≡ some cache
      → Holds cache []
  unfolding new_cache
  new_cache_lem capacity cache made = elim (Bool-cases (nat_beq capacity 0)) [
    | inl t ↦ cc
    | inr t ↦
        subst (λ c. Holds c []) (some-injective _ _ (rw t at made))
          (ground arith, sym (take_nil capacity), tt)
  ]

  -- After any requests to a new cache, a request finds its engine exactly if its options are among
  -- the latest `capacity` different options of which an engine could be made. It returns the engine of
  -- its options where that is ready, and otherwise none, and the cache then holds the engines of the
  -- latest options again.
  pub get-serve_all :
      (paths : Paths) (capacity : ℕ) (bs : List BackendOptions) (b : BackendOptions)
      (cache : DocumentEngineCache E)
      → new_cache capacity ≡ some cache
      → let n = normalized_backends paths b in
        let recent = touch_all paths bs [] in
        let (cache', found) = get paths engines b (serve_all paths bs cache) in
        Holds cache' (touch engines n recent)
        × (found.cache_hit ≡ mem n (take (serve_all paths bs cache).capacity recent))
        × (found.engine ≡ (
            if engines.is_ready (engines.create_unique n)
            then some (engines.create_unique n)
            else none))
  get-serve_all paths capacity bs b cache made =
      get_lem paths b (serve_all paths bs cache) (touch_all paths bs [])
        (serve_all_lem paths bs cache [] (new_cache_lem capacity cache made))
