-- ===== src/Worker/Scripts/Publication.antt =====
-- platform/worker/redis_client.cpp: the effect of the publication script on a job's lease.
use technical_doc_parser.Prelude.{
  ℕ, ◌<◌, ◌≡◌, refl, ap, ◌∙◌, ◌⊎◌, inl, inr, Bool, true, false, none, some, List, [], ◌∷◌, ◌++◌,
  arith, if◌then◌else◌, Text, bytes, ◌==◌, text_eq, nat_eq, list_beq_iff, Bool-cases, Option-cases,
}
use technical_doc_parser.Worker.Redis.{Redis, IsRedis, NumberField, sequence, GroupEntry}
use technical_doc_parser.Worker.Scripts.Leases.{holds}
use technical_doc_parser.Worker.Scripts.{
  Event, Decoder, RedisJobLease, or_zero, is_text, is_terminal, entry_of, write_event, check_lease,
  settle_lease, publish_script, set_words, Reply, published, cancelled, failed,
}

-- The key of a job's execution hash.
abbrev pub execution_key : Text → Text
execution_key suffix = bytes "job-execution:" ++ suffix

abbrev pub is_published : Reply → Bool
is_published published = true
is_published cancelled = false
is_published (failed why) = false

module _ {ℓ} {S : Type ℓ} (r : Redis S) (laws : IsRedis r) where
  open r use {number, word, pending}
  open laws use {
    number-set_number, number-set_word, word-set_number, word-set_word, number-del, pending-ack,
    pending-del,
  }

  module _ (run_id suffix : Text) (entry : GroupEntry) where
    abbrev run_key : Text
    run_key = bytes "run:" ++ run_id

    set_words_frame :
        (state : List (Text × Text)) (s : S)
        → ((n : NumberField)
            → number (set_words r run_key state s) (execution_key suffix) n
              ≡ number s (execution_key suffix) n)
          × (pending (set_words r run_key state s) entry ≡ pending s entry)
    unfolding set_words
    set_words_frame [] s = (λ n. refl, refl)
    set_words_frame ((k, v) ∷ state) s =
        let (numbers, entries) = set_words_frame state (r.set_word run_key k v s) in
        (
          λ n. numbers n ∙ number-set_word s run_key (execution_key suffix) k n v refl,
          entries ∙ (laws.set_word-pending run_key k v).entries s entry,
        )

    pub write_event_frame :
        (event : Text) (state : List (Text × Text)) (run_limit platform_limit seconds : ℕ) (s : S)
        → 0 < seconds
        → let s' = write_event r run_id event state run_limit platform_limit seconds s in
          ((n : NumberField)
            → number s' (execution_key suffix) n ≡ number s (execution_key suffix) n)
          × (pending s' entry ≡ pending s entry)
    unfolding write_event
    write_event_frame event state run_limit platform_limit seconds s pos =
        let events = bytes "run-events:" ++ run_id in
        let platform = bytes "platform-events" in
        let s1 = r.add events run_limit event s in
        let s2 = r.add platform platform_limit event s1 in
        let s3 = set_words r run_key state s2 in
        let s4 = r.expire events seconds s3 in
        let (numbers, entries) = set_words_frame state s2 in
        (
          λ n.
              (laws.expire-hashes run_key seconds pos).numbers s4 (execution_key suffix) n
              ∙ (laws.expire-hashes events seconds pos).numbers s3 (execution_key suffix) n
              ∙ numbers n
              ∙ (laws.add-hashes platform platform_limit event).numbers s1 (execution_key suffix) n
              ∙ (laws.add-hashes events run_limit event).numbers s (execution_key suffix) n,
          (laws.expire-pending run_key seconds).entries s4 entry
              ∙ (laws.expire-pending events seconds).entries s3 entry
              ∙ entries
              ∙ (laws.add-pending platform platform_limit event).entries s1 entry
              ∙ (laws.add-pending events run_limit event).entries s entry,
        )

  self : (k : Text) → (k == k) ≡ true
  self k = (list_beq_iff k k).1 refl

  -- Once an entry is gone, deleting a key does not bring it back.
  pub pending-del_none :
      (k : Text) (e : GroupEntry) (s : S) → pending s e ≡ none → pending (r.del k s) e ≡ none
  pending-del_none k e s gone = elim (Bool-cases (k == e.stream)) [
    | inl t ↦ pending-del s k e ∙ rw t refl
    | inr t ↦ pending-del s k e ∙ rw t gone
  ]

  settle_lease_pending :
      (lease : RedisJobLease) (event : Event) (s : S)
      → (if is_terminal event.type
          then pending (settle_lease r lease event s) (entry_of lease)
          else none)
        ≡ none
  unfolding settle_lease
  settle_lease_pending lease event s = elim (Bool-cases (is_terminal event.type)) [
    | inl t ↦
        rw (t, settle_lease)
          (pending-del_none lease.key (entry_of lease) _
            (simp (pending-ack, self lease.stream, self lease.group, self lease.message_id)))
    | inr t ↦ rw t refl
  ]

  settle_lease_sequence :
      (lease : RedisJobLease) (event : Event) (s : S)
      → or_zero (number (settle_lease r lease event s) lease.key sequence)
        ≡ (if is_terminal event.type then 0 else event.sequence)
  unfolding settle_lease
  settle_lease_sequence lease event s = elim (Bool-cases (is_terminal event.type)) [
    | inl t ↦ rw (t, settle_lease) (simp (number-del, self lease.key))
    | inr t ↦ rw (t, settle_lease) (simp (number-set_number, self lease.key))
  ]

  pub check_lease_published :
      (now : ℕ) (lease : RedisJobLease) (run_id : Text) (e : Event) (s : S)
      → check_lease r now lease run_id e s ≡ published
      → (holds r now lease.key lease.generation lease.consumer s ≡ true)
        × (is_text (pending s (entry_of lease)) lease.consumer ≡ true)
        × (or_zero (number s lease.key sequence) < e.sequence)
  unfolding check_lease holds
  check_lease_published now lease run_id e s h = ground arith

  module _ (decode : Decoder) (now : ℕ) (lease : RedisJobLease) (run_id event : Text)
      (state : List (Text × Text)) (run_limit platform_limit seconds : ℕ) (s : S) where
    abbrev pub publish : S × Reply
    publish =
        publish_script r decode now (some lease) run_id event state run_limit platform_limit seconds
          s

    pub publish_cases :
        (e : Event)
        → decode.object event ≡ some e
        → ((publish.0 ≡ s) × (is_published publish.1 ≡ false))
          ⊎ ((check_lease r now lease run_id e s ≡ published)
              × (publish ≡ (
                settle_lease r lease e
                    (write_event r run_id event state run_limit platform_limit seconds s),
                published,
              )))
    unfolding publish_script
    publish_cases e h = rw h (ground arith)

    pub publish_undecoded :
        decode.object event ≡ none → (publish.0 ≡ s) × (is_published publish.1 ≡ false)
    unfolding publish_script
    publish_undecoded h = rw h (ground arith)

    -- A publication under a lease changes nothing in the server where it is refused, whatever the event
    -- and the reason.
    pub publish_script_refused : is_published publish.1 ≡ false → publish.0 ≡ s
    publish_script_refused refused = elim (Option-cases (decode.object event)) [
      | inl h ↦ (publish_undecoded h).0
      | inr (e, h) ↦ elim (publish_cases e h) [ inl (same, _) ↦ same | inr (_, accepted) ↦ cc ]
    ]

    -- A publication, under a lease, of an event that can be decoded is accepted only while the lease is
    -- held, its message is pending for its consumer, and the event's sequence is above the recorded
    -- one. The recorded sequence is then the event's, and a terminal event instead leaves no sequence
    -- and no pending message.
    pub publish_script_accepted :
        (e : Event)
        → decode.object event ≡ some e
        → is_published publish.1 ≡ true
        → (holds r now lease.key lease.generation lease.consumer s ≡ true)
          × (is_text (pending s (entry_of lease)) lease.consumer ≡ true)
          × (or_zero (number s lease.key sequence) < e.sequence)
          × (or_zero (number publish.0 lease.key sequence)
              ≡ (if is_terminal e.type then 0 else e.sequence))
          × ((if is_terminal e.type then pending publish.0 (entry_of lease) else none) ≡ none)
    publish_script_accepted e h accepted = elim (publish_cases e h) [
      | inl (_, refused) ↦ cc
      | inr (checked, written) ↦
          let (held, mine, below) = check_lease_published now lease run_id e s checked in
          let s' = write_event r run_id event state run_limit platform_limit seconds s in
          (
            held,
            mine,
            below,
            ap (λ p. or_zero (number p.0 lease.key sequence)) written
                ∙ settle_lease_sequence lease e s',
            ap (λ p. if is_terminal e.type then pending p.0 (entry_of lease) else none) written
                ∙ settle_lease_pending lease e s',
          )
    ]
