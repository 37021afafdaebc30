-- ===== src/Worker/Scripts/Runs/Kept.antt =====
-- platform/worker/redis_job_scripts.h and redis_client.cpp: a lower bound on a job's generation, or on its
-- deadline, through any calls.
use technical_doc_parser.Prelude.{
  ℕ, ◌+◌, ◌<◌, ◌≤◌, ◌≡◌, refl, ap, sym, subst, ◌∙◌, ◌⊎◌, inl, inr, Bool, true, false, not, ◌&&◌,
  ◌||◌, Option, none, some, List, [], ◌∷◌, ◌++◌, arith, leb, if◌then◌else◌, Text, bytes, ◌==◌,
  text_eq, nat_eq, list_beq_iff, all, Bool-cases, Option-cases,
}
use technical_doc_parser.Worker.Redis.{
  Redis, IsRedis, NumberField, field_beq, generation, until_ms, sequence, GroupEntry, entry_beq,
}
use technical_doc_parser.Worker.Scripts.{
  Decoder, RedisJobLease, Event, or_zero, is_number, is_text, is_terminal, entry_of, reclaim_loop,
  reclaim_job, grant, acquire_script, renew_script, write_event, settle_lease, publish_script,
}
use technical_doc_parser.Worker.Scripts.Leases.{number-set_consumer, grant_lem, acquire_cases}
use technical_doc_parser.Worker.Scripts.Publication.{
  execution_key, write_event_frame, pending-del_none, publish_undecoded, publish_cases,
}
use technical_doc_parser.Worker.Scripts.Runs.{
  Call, reclaiming, acquiring, renewing, publishing, run_call, run_calls, goes_with, fits, respects,
}

abbrev entry_of_texts : Text → Text → Text → GroupEntry
entry_of_texts stream group id = record { stream = stream; group = group; message_id = id }

entry_beq_eq : (a b : GroupEntry) → entry_beq a b ≡ true → a ≡ b
entry_beq_eq a b h =
    let stream = (list_beq_iff a.stream b.stream).0 (ground (arith, h)) in
    let group = (list_beq_iff a.group b.group).0 (ground (arith, h)) in
    let id = (list_beq_iff a.message_id b.message_id).0 (ground (arith, h)) in
    ap (λ x. entry_of_texts x a.group a.message_id) stream
    ∙ ap (λ x. entry_of_texts b.stream x a.message_id) group
    ∙ ap (λ x. entry_of_texts b.stream b.group x) id

if_never {ℓ} : {A : Type ℓ} (c : Bool) (x y : A) → (if c && false then x else y) ≡ y
if_never true x y = refl
if_never false x y = refl

module _ {ℓ} {S : Type ℓ} (r : Redis S) (laws : IsRedis r) (decode : Decoder) (suffix : Text)
    (entry : GroupEntry) (field : NumberField) (bound : ℕ) where
  open r use {number, pending}
  open laws use {number-set_number, number-del, pending-ack, pending-claim, claimed}

  abbrev target : Text
  target = execution_key suffix

  -- The job is finished, or the field is not below the bound.
  abbrev pub Kept : S → Type 0
  Kept s = (pending s entry ≡ none) ⊎ (bound ≤ or_zero (number s target field))

  above-Kept : (s : S) (o : Option ℕ) → number s target field ≡ o → bound ≤ or_zero o → Kept s
  above-Kept s o there above = inr (subst (λ n. bound ≤ or_zero n) (sym there) above)

  same-Kept :
      (s s' : S)
      → number s' target field ≡ number s target field
      → pending s' entry ≡ pending s entry
      → Kept s
      → Kept s'
  same-Kept s s' numbers entries (inl gone) = inl (entries ∙ gone)
  same-Kept s s' numbers entries (inr above) = above-Kept s' (number s target field) numbers above

  ack-Kept : (e : GroupEntry) (s : S) → Kept s → Kept (r.ack e s)
  ack-Kept e s kept = elim (Bool-cases (entry_beq e entry)) [
    | inl t ↦ inl (pending-ack s e entry ∙ rw t refl)
    | inr t ↦
        same-Kept s (r.ack e s) ((laws.ack-hashes e).numbers s target field)
          (pending-ack s e entry ∙ rw t refl) kept
  ]

  set_number-Kept :
      (k : Text) (n : NumberField) (v : ℕ) (s : S)
      → ((k == target && field_beq n field) ≡ true → bound ≤ v)
      → Kept s
      → Kept (r.set_number k n v s)
  set_number-Kept k n v s high (inl gone) =
      inl ((laws.set_number-pending k n v).entries s entry ∙ gone)
  set_number-Kept k n v s high (inr above) = elim (Bool-cases (k == target && field_beq n field)) [
    | inl t ↦
        above-Kept (r.set_number k n v s) (some v)
          (number-set_number s k target n field v ∙ rw t refl) (high t)
    | inr t ↦
        above-Kept (r.set_number k n v s) (number s target field)
          (number-set_number s k target n field v ∙ rw t refl) above
  ]

  set_consumer-Kept : (k c : Text) (s : S) → Kept s → Kept (r.set_word k (bytes "consumer") c s)
  set_consumer-Kept k c s =
      same-Kept s (r.set_word k (bytes "consumer") c s)
        (number-set_consumer r laws s k target field c)
        ((laws.set_word-pending k (bytes "consumer") c).entries s entry)

  -- The end of a job: its message is acknowledged and its key deleted.
  finish-Kept :
      (k : Text) (e : GroupEntry) (s : S)
      → goes_with target entry k e ≡ true
      → Kept s
      → Kept (r.del k (r.ack e s))
  finish-Kept k e s fit kept = elim (Bool-cases (k == target)) [
    | inl t ↦
        inl (pending-del_none r laws k entry (r.ack e s) (pending-ack s e entry ∙ rw (goes t) refl))
    | inr t ↦ elim (ack-Kept e s kept) [
      | inl gone ↦ inl (pending-del_none r laws k entry (r.ack e s) gone)
      | inr above ↦
          above-Kept (r.del k (r.ack e s)) (number (r.ack e s) target field)
            (number-del (r.ack e s) k target field ∙ rw t refl) above
    ]
  ]
    where
      goes : (k == target) ≡ true → entry_beq e entry ≡ true
      goes t = rw t at fit

  claim-Kept :
      (e : GroupEntry) (consumer : Text) (idle : ℕ) (s : S)
      → Kept s
      → Kept (r.claim e consumer idle s).0
  claim-Kept e consumer idle s (inr above) =
      above-Kept (r.claim e consumer idle s).0 (number s target field)
        ((laws.claim-hashes e consumer idle).numbers s target field) above
  claim-Kept e consumer idle s (inl gone) = elim (Bool-cases (entry_beq e entry)) [
    | inr t ↦ inl (
        pending-claim s e entry consumer idle
        ∙ rw t (if_never (r.claim e consumer idle s).1 (some consumer) (pending s entry))
        ∙ gone)
    | inl t ↦ inl (
        pending-claim s e entry consumer idle
        ∙ rw (claimed s e consumer idle (ap (pending s) (entry_beq_eq e entry t) ∙ gone)) gone)
  ]

  reclaim_loop-Kept :
      (now : ℕ) (queue group consumer : Text) (idle : ℕ) (prefix : Text) (ids : List Text)
      (cursor : Text) (s : S)
      → Kept s
      → Kept (reclaim_loop r now queue group consumer idle prefix ids cursor s).0
  unfolding reclaim_loop
  reclaim_loop-Kept now queue group consumer idle prefix [] cursor s kept = kept
  reclaim_loop-Kept now queue group consumer idle prefix (id ∷ ids) cursor s kept =
      let here = bytes "(" ++ id in
      let e : GroupEntry = record { stream = queue; group = group; message_id = id } in
      let kept' = claim-Kept e consumer idle s kept in
      let rest = reclaim_loop-Kept now queue group consumer idle prefix ids here s kept in
      let rest' =
        reclaim_loop-Kept now queue group consumer idle prefix ids here
          (r.claim e consumer idle s).0 kept' in
      elim (Bool-cases (leb (or_zero (number s (prefix ++ id) until_ms)) now)) [
        | inr l ↦ rw (l, reclaim_loop) rest
        | inl l ↦ elim (Bool-cases (r.claim e consumer idle s).1) [
          | inl c ↦ rw (l, c, reclaim_loop) kept'
          | inr c ↦ rw (l, c, reclaim_loop) rest'
        ]
      ]

  reclaim_job-Kept :
      (now : ℕ) (queue group consumer : Text) (idle : ℕ) (cursor prefix : Text) (s : S)
      → Kept s
      → Kept (reclaim_job r now queue group consumer idle cursor prefix s).0
  unfolding reclaim_job
  reclaim_job-Kept now queue group consumer idle cursor prefix s kept =
      let entries = r.idle_entries s queue group idle cursor 32 in
      let rest =
        reclaim_loop-Kept now queue group consumer idle prefix entries (bytes "-") s kept in
      elim (Option-cases
        (reclaim_loop r now queue group consumer idle prefix entries (bytes "-") s).2) [
          | inl h ↦ rw (h, reclaim_job) rest
          | inr (id, h) ↦ rw (h, reclaim_job) rest
        ]

  renew_script-Kept :
      (now : ℕ) (key : Text) (held : ℕ) (consumer : Text) (duration_ms : ℕ) (s : S)
      → respects field bound (renewing now key held consumer duration_ms) ≡ true
      → Kept s
      → Kept (renew_script r now key held consumer duration_ms s).0
  unfolding renew_script
  renew_script-Kept now key held consumer duration_ms s timely kept =
      let moved =
        set_number-Kept key until_ms (now + duration_ms) s
          (renew_high field (key == target) now duration_ms key consumer held timely) kept in
      elim (Bool-cases (
        not (is_number (number s key generation) held)
        || not (is_text (r.word s key (bytes "consumer")) consumer)
        || leb (or_zero (number s key until_ms)) now)) [
          | inl t ↦ rw (t, renew_script) kept
          | inr t ↦ rw (t, renew_script) moved
        ]
    where
      renew_high :
          (f : NumberField) (here : Bool) (now duration_ms : ℕ) (key consumer : Text) (held : ℕ)
          → respects f bound (renewing now key held consumer duration_ms) ≡ true
          → (here && field_beq until_ms f) ≡ true
          → bound ≤ now + duration_ms
      renew_high generation here now duration_ms key consumer held timely h = ground (arith, h)
      renew_high until_ms here now duration_ms key consumer held timely h = ground (arith, timely)
      renew_high sequence here now duration_ms key consumer held timely h = ground (arith, h)

  grant_gone :
      (now : ℕ) (key consumer : Text) (lease_ms count : ℕ) (s : S)
      → pending s entry ≡ none
      → pending (grant r now key consumer lease_ms count s).0 entry ≡ none
  unfolding grant
  grant_gone now key consumer lease_ms count s gone =
      (laws.persist-pending key).entries _ entry
      ∙ (laws.set_number-pending key sequence count).entries _ entry
      ∙ (laws.set_number-pending key until_ms (now + lease_ms)).entries _ entry
      ∙ (laws.set_word-pending key (bytes "consumer") consumer).entries _ entry
      ∙ (laws.set_number-pending key generation (or_zero (number s key generation) + 1)).entries s
          entry
      ∙ gone

  -- A grant writes a generation above the recorded one, and comes only once the deadline is reached.
  grant_above :
      (f : NumberField) (now lease_ms count : ℕ) (e : GroupEntry)
      (key run_key consumer attempt_id : Text) (s : S)
      → respects f bound (acquiring now e key run_key consumer lease_ms attempt_id) ≡ true
      → or_zero (number s key until_ms) ≤ now
      → bound ≤ or_zero (number s key f)
      → bound ≤ or_zero (number (grant r now key consumer lease_ms count s).0 key f)
  grant_above generation now lease_ms count e key run_key consumer attempt_id s timely late above =
      let (_, written, _, _, _) = grant_lem r laws now lease_ms count key consumer s in
      subst (λ n. bound ≤ or_zero n) (sym written) (omega (arith, above))
  grant_above until_ms now lease_ms count e key run_key consumer attempt_id s timely late above =
      absurd (ground (arith, timely, late, above))
  grant_above sequence now lease_ms count e key run_key consumer attempt_id s timely late above =
      absurd (ground (arith, timely))

  nowhere :
      (k : Text) (x : Bool) (v : ℕ) → (k == target) ≡ false → (k == target && x) ≡ true → bound ≤ v
  nowhere k x v t h = absurd (ground (arith, rw t at h))

  grant-Kept :
      (now lease_ms count : ℕ) (e : GroupEntry) (key run_key consumer attempt_id : Text) (s : S)
      → respects field bound (acquiring now e key run_key consumer lease_ms attempt_id) ≡ true
      → or_zero (number s key until_ms) ≤ now
      → Kept s
      → Kept (grant r now key consumer lease_ms count s).0
  unfolding grant
  grant-Kept now lease_ms count e key run_key consumer attempt_id s timely late (inl gone) =
      inl (grant_gone now key consumer lease_ms count s gone)
  grant-Kept now lease_ms count e key run_key consumer attempt_id s timely late (inr above) =
      elim (Bool-cases (key == target)) [
        | inl t ↦
            let same = (list_beq_iff key target).0 t in
            inr (
              subst
                (λ k.
                  bound ≤ or_zero (number (grant r now key consumer lease_ms count s).0 k field))
                same
                (grant_above field now lease_ms count e key run_key consumer attempt_id s timely
                  late (subst (λ k. bound ≤ or_zero (number s k field)) (sym same) above)))
        | inr t ↦
            let next = or_zero (number s key generation) + 1 in
            let s1 = r.set_number key generation next s in
            let s2 = r.set_word key (bytes "consumer") consumer s1 in
            let s3 = r.set_number key until_ms (now + lease_ms) s2 in
            let s4 = r.set_number key sequence count s3 in
            same-Kept s4 (r.persist key s4) ((laws.persist-hashes key).numbers s4 target field)
              ((laws.persist-pending key).entries s4 entry)
              (set_number-Kept key sequence count s3
                (nowhere key (field_beq sequence field) count t)
                (set_number-Kept key until_ms (now + lease_ms) s2
                  (nowhere key (field_beq until_ms field) (now + lease_ms) t)
                  (set_consumer-Kept key consumer s1 (
                    set_number-Kept key generation next s
                      (nowhere key (field_beq generation field) next t) (inr above)))))
      ]

  acquire_script-Kept :
      (now lease_ms : ℕ) (e : GroupEntry) (key run_key consumer attempt_id : Text) (s : S)
      → goes_with target entry key e ≡ true
      → respects field bound (acquiring now e key run_key consumer lease_ms attempt_id) ≡ true
      → Kept s
      → Kept (acquire_script r decode now e key run_key consumer lease_ms attempt_id s).0
  acquire_script-Kept now lease_ms e key run_key consumer attempt_id s fit timely kept =
      elim (acquire_cases r laws decode now lease_ms e key run_key consumer attempt_id s) [
        | inl (_, inl same) ↦ subst Kept (sym same) kept
        | inl (_, inr ended) ↦ subst Kept (sym ended) (finish-Kept key e s fit kept)
        | inr (count, _, late, _, same) ↦
            subst (λ p. Kept p.0) (sym same)
              (grant-Kept now lease_ms count e key run_key consumer attempt_id s timely late kept)
      ]

  settle_lease-Kept :
      (l : RedisJobLease) (event : Event) (s : S)
      → field_beq sequence field ≡ false
      → goes_with target entry l.key (entry_of l) ≡ true
      → Kept s
      → Kept (settle_lease r l event s)
  unfolding settle_lease
  settle_lease-Kept l event s other fit kept =
      let counted =
        set_number-Kept l.key sequence event.sequence s (λ h. absurd (ground (arith, other, h)))
          kept in
      elim (Bool-cases (is_terminal event.type)) [
        | inl t ↦
            rw (t, settle_lease)
              (finish-Kept l.key (entry_of l) (r.set_number l.key sequence event.sequence s) fit
                counted)
        | inr t ↦ rw (t, settle_lease) counted
      ]

  module _ (now : ℕ) (run_id event : Text) (state : List (Text × Text))
      (run_limit platform_limit seconds : ℕ) (s : S) (lasting : 0 < seconds) (kept : Kept s) where
    abbrev written : S
    written = write_event r run_id event state run_limit platform_limit seconds s

    abbrev published_by : Option RedisJobLease → S
    published_by lease =
        (publish_script r decode now lease run_id event state run_limit platform_limit seconds s).0

    written-Kept : Kept written
    written-Kept =
        let (numbers, entries) =
          write_event_frame r laws run_id suffix entry event state run_limit platform_limit seconds
            s lasting in
        same-Kept s written (numbers field) entries kept

    free_changes :
        let s' =
          (publish_script r decode now none run_id event state run_limit platform_limit seconds
            s).0 in
        (s' ≡ s) ⊎ (s' ≡ write_event r run_id event state run_limit platform_limit seconds s)
    unfolding publish_script
    free_changes = elim (Option-cases (decode.object event)) [
      | inl h ↦ rw h (ground arith)
      | inr (e, h) ↦ rw h (ground arith)
    ]

    free-Kept : Kept (published_by none)
    free-Kept = elim free_changes [
      | inl same ↦ subst Kept (sym same) kept
      | inr wrote ↦ subst Kept (sym wrote) written-Kept
    ]

    leased-Kept :
        (l : RedisJobLease)
        → field_beq sequence field ≡ false
        → goes_with target entry l.key (entry_of l) ≡ true
        → Kept (published_by (some l))
    leased-Kept l other fit = elim (Option-cases (decode.object event)) [
      | inl h ↦
          let (same, _) =
            publish_undecoded r laws decode now l run_id event state run_limit platform_limit
              seconds s h in
          subst Kept (sym same) kept
      | inr (e, h) ↦
          elim (publish_cases r laws decode now l run_id event state run_limit platform_limit
            seconds s e h) [
              | inl (same, _) ↦ subst Kept (sym same) kept
              | inr (_, wrote) ↦
                  subst (λ p. Kept p.0) (sym wrote)
                    (settle_lease-Kept l e written other fit written-Kept)
            ]
    ]

  run_call-Kept :
      (call : Call) (s : S)
      → field_beq sequence field ≡ false
      → fits target entry call ≡ true
      → respects field bound call ≡ true
      → Kept s
      → Kept (run_call r decode call s)
  run_call-Kept (reclaiming now queue group consumer idle cursor prefix) s other fit timely kept =
      reclaim_job-Kept now queue group consumer idle cursor prefix s kept
  run_call-Kept (acquiring now e key run_key consumer lease_ms attempt_id) s other fit timely kept =
      acquire_script-Kept now lease_ms e key run_key consumer attempt_id s fit timely kept
  run_call-Kept (renewing now key held consumer duration_ms) s other fit timely kept =
      renew_script-Kept now key held consumer duration_ms s timely kept
  run_call-Kept (publishing now none run_id event state run_limit platform_limit seconds) s other
        fit timely kept =
      free-Kept now run_id event state run_limit platform_limit seconds s (ground (arith, fit)) kept
  run_call-Kept (publishing now (some l) run_id event state run_limit platform_limit seconds) s
        other fit timely kept =
      leased-Kept now run_id event state run_limit platform_limit seconds s (ground (arith, fit))
        kept l other (ground (arith, fit))

  -- Calls that each concern the job only with its message, and respect the bound.
  abbrev pub suits : Call → Bool
  suits call = fits target entry call && respects field bound call

  pub run_calls-Kept :
      (calls : List Call) (s : S)
      → field_beq sequence field ≡ false
      → all suits calls ≡ true
      → Kept s
      → Kept (run_calls r decode calls s)
  run_calls-Kept [] s other suit kept = kept
  run_calls-Kept (call ∷ calls) s other suit kept =
      run_calls-Kept calls (run_call r decode call s) other (ground (arith, suit))
        (run_call-Kept call s other (ground (arith, suit)) (ground (arith, suit)) kept)
