-- ===== src/Worker/Scripts/Runs/Fencing.antt =====
-- platform/worker/redis_job_scripts.h and redis_client.cpp: what a worker that lost its job, or finished it,
-- can still do, and for how long a lease keeps the others away.
use technical_doc_parser.Prelude.{
  ℕ, ◌+◌, ◌<◌, ◌≤◌, ◌≡◌, refl, ap, sym, subst, ◌∙◌, inl, inr, true, false, Option, none, some, List,
  arith, all, Text, text_eq, Bool-cases, Option-cases,
}
use technical_doc_parser.Worker.Redis.{Redis, IsRedis, generation, until_ms, GroupEntry}
use technical_doc_parser.Worker.Scripts.{
  Decoder, RedisJobLease, Event, or_zero, is_number, is_text, is_terminal, entry_of, acquire_script,
  renew_script, publish_script,
}
use technical_doc_parser.Worker.Scripts.Leases.{
  self, holds, renew_script_lem, acquire_cases, acquire_script-Granted,
}
use technical_doc_parser.Worker.Scripts.Publication.{
  execution_key, is_published, publish_undecoded, publish_cases, publish_script_accepted,
  check_lease_published,
}
use technical_doc_parser.Worker.Scripts.Runs.{Call, run_calls}
use technical_doc_parser.Worker.Scripts.Runs.Kept.{Kept, suits, run_calls-Kept}

module _ {ℓ} {S : Type ℓ} (r : Redis S) (laws : IsRedis r) (decode : Decoder) (suffix : Text) where
  open r use {number, pending}

  abbrev target : Text
  target = execution_key suffix

  held_generation :
      (now : ℕ) (lease : RedisJobLease) (s : S)
      → holds r now lease.key lease.generation lease.consumer s ≡ true
      → is_number (number s lease.key generation) lease.generation ≡ true
  unfolding holds
  held_generation now lease s held = ground (arith, held)

  too_low : (g : ℕ) (o : Option ℕ) → is_number o g ≡ true → g + 1 ≤ or_zero o → ⊥
  too_low g none h above = ground (arith, h)
  too_low g (some n) h above = ground (arith, h, above)

  -- Where the recorded generation is above a lease's, or the job is finished, nothing is published under
  -- the lease.
  Kept-refused :
      (now : ℕ) (lease : RedisJobLease) (run_id event : Text) (state : List (Text × Text))
      (run_limit platform_limit seconds : ℕ) (s : S)
      → lease.key ≡ target
      → Kept r laws decode suffix (entry_of lease) generation (lease.generation + 1) s
      → let publish =
          publish_script r decode now
            (some lease)
            run_id
            event
            state
            run_limit
            platform_limit
            seconds
            s in
        (publish.0 ≡ s) × (is_published publish.1 ≡ false)
  Kept-refused now lease run_id event state run_limit platform_limit seconds s own kept =
      elim (Option-cases (decode.object event)) [
        | inl h ↦
            publish_undecoded r laws decode now lease run_id event state run_limit platform_limit
              seconds s h
        | inr (e, h) ↦
            elim (publish_cases r laws decode now lease run_id event state run_limit platform_limit
              seconds s e h) [
                | inl refused ↦ refused
                | inr (checked, _) ↦
                    let (held, mine, _) =
                      check_lease_published r laws now lease run_id e s checked in
                    elim kept [
                      | inl gone ↦ let absent = ap (λ p. is_text p lease.consumer) gone in cc
                      | inr above ↦ absurd (
                          too_low lease.generation (number s lease.key generation)
                            (held_generation now lease s held)
                            (subst (λ k. lease.generation + 1 ≤ or_zero (number s k generation))
                              (sym own) above))
                    ]
              ]
      ]

  -- A job is acquired anew, after which a lease of a lower generation publishes nothing and changes
  -- nothing, whatever calls come between: reclaims, acquisitions, renewals and publications by any
  -- workers, of which those on the job's key name its message.
  pub publish_script-acquire_script :
      (now lease_ms held count : ℕ) (run_key consumer attempt_id : Text) (s : S)
      (lease : RedisJobLease) (calls : List Call) (later : ℕ) (run_id event : Text)
      (state : List (Text × Text)) (run_limit platform_limit seconds : ℕ)
      → lease.key ≡ target
      → lease.generation ≤ or_zero (number s target generation)
      → (acquire_script r decode now
          (entry_of lease)
          target
          run_key
          consumer
          lease_ms
          attempt_id
          s).1
        ≡ some (held, count)
      → all (suits r laws decode suffix (entry_of lease) generation (lease.generation + 1)) calls
        ≡ true
      → let s' =
          run_calls r decode calls
            (acquire_script r decode now
              (entry_of lease)
              target
              run_key
              consumer
              lease_ms
              attempt_id
              s).0 in
        let publish =
          publish_script r decode later
            (some lease)
            run_id
            event
            state
            run_limit
            platform_limit
            seconds
            s' in
        (publish.0 ≡ s') × (is_published publish.1 ≡ false)
  publish_script-acquire_script now lease_ms held count run_key consumer attempt_id s lease calls
        later run_id event state run_limit platform_limit seconds own old given suit =
      let acquired =
        acquire_script r decode now (entry_of lease) target run_key consumer lease_ms attempt_id
          s in
      let (_, _, _, next, recorded, _, _, _) =
        acquire_script-Granted r laws decode now lease_ms held count (entry_of lease) target run_key
          consumer attempt_id s given in
      Kept-refused later lease run_id event state run_limit platform_limit seconds
        (run_calls r decode calls acquired.0) own
        (run_calls-Kept r laws decode suffix (entry_of lease) generation (lease.generation + 1)
          calls acquired.0 refl suit
          (inr (
            subst (λ n. lease.generation + 1 ≤ or_zero n) (sym recorded)
              (omega (arith, next, old)))))

  -- Once a terminal event is accepted under a lease, no lease of the job publishes anything or changes
  -- anything, whatever calls come between, of which those on the job's key name its message.
  pub publish_script_ended :
      (now : ℕ) (lease other : RedisJobLease) (run_id last : Text) (ending : Event)
      (state : List (Text × Text)) (run_limit platform_limit seconds : ℕ) (s : S)
      (calls : List Call) (later : ℕ) (other_id event : Text) (more : List (Text × Text))
      (other_run other_platform other_seconds : ℕ)
      → lease.key ≡ target
      → entry_of lease ≡ entry_of other
      → other.key ≡ target
      → decode.object last ≡ some ending
      → is_terminal ending.type ≡ true
      → is_published
          (publish_script r decode now
            (some lease)
            run_id
            last
            state
            run_limit
            platform_limit
            seconds
            s).1
        ≡ true
      → all (suits r laws decode suffix (entry_of other) generation (other.generation + 1)) calls
        ≡ true
      → let s' =
          run_calls r decode calls
            (publish_script r decode now
              (some lease)
              run_id
              last
              state
              run_limit
              platform_limit
              seconds
              s).0 in
        let publish =
          publish_script r decode later
            (some other)
            other_id
            event
            more
            other_run
            other_platform
            other_seconds
            s' in
        (publish.0 ≡ s') × (is_published publish.1 ≡ false)
  publish_script_ended now lease other run_id last ending state run_limit platform_limit seconds s
        calls later other_id event more other_run other_platform other_seconds own same_entry theirs
        decoded terminal accepted suit =
      let (_, _, _, _, gone) =
        publish_script_accepted r laws decode now lease run_id last state run_limit platform_limit
          seconds s ending decoded accepted in
      let s' =
        (publish_script r decode now (some lease) run_id last state run_limit platform_limit seconds
          s).0 in
      Kept-refused later other other_id event more other_run other_platform other_seconds
        (run_calls r decode calls s') theirs
        (run_calls-Kept r laws decode suffix (entry_of other) generation (other.generation + 1)
          calls s' refl suit (inl (ap (pending s') (sym same_entry) ∙ rw terminal at gone)))

  -- Before a guarded deadline the job is not acquired.
  Kept-excluded :
      (now lease_ms deadline : ℕ) (entry : GroupEntry) (run_key consumer attempt_id : Text) (s : S)
      → now < deadline
      → Kept r laws decode suffix entry until_ms deadline s
      → (acquire_script r decode now entry target run_key consumer lease_ms attempt_id s).1 ≡ none
  Kept-excluded now lease_ms deadline entry run_key consumer attempt_id s early kept =
      elim (acquire_cases r laws decode now lease_ms entry target run_key consumer attempt_id s) [
        | inl (nothing, _) ↦ nothing
        | inr (_, mine, late, _, _) ↦ elim kept [
          | inl gone ↦ let absent = ap (λ p. is_text p consumer) gone in cc
          | inr above ↦ absurd (omega (arith, early, late, above))
        ]
      ]

  -- Until the deadline of an acquisition, no consumer acquires the job, whatever calls come between, of
  -- which the acquisitions come before the deadline, the renewals do not shorten it, and those on the
  -- job's key name its message.
  pub acquire_script_excludes :
      (now lease_ms held count : ℕ) (entry : GroupEntry) (run_key consumer attempt_id : Text)
      (s : S) (calls : List Call) (later other_ms : ℕ) (other_key other other_attempt : Text)
      → (acquire_script r decode now entry target run_key consumer lease_ms attempt_id s).1
        ≡ some (held, count)
      → all (suits r laws decode suffix entry until_ms (now + lease_ms)) calls ≡ true
      → later < now + lease_ms
      → let s' =
          run_calls r decode calls
            (acquire_script r decode now entry target run_key consumer lease_ms attempt_id s).0 in
        (acquire_script r decode later entry target other_key other other_ms other_attempt s').1
        ≡ none
  acquire_script_excludes now lease_ms held count entry run_key consumer attempt_id s calls later
        other_ms other_key other other_attempt given suit early =
      let s' =
        (acquire_script r decode now entry target run_key consumer lease_ms attempt_id s).0 in
      let (_, _, _, _, _, _, deadline, _) =
        acquire_script-Granted r laws decode now lease_ms held count entry target run_key consumer
          attempt_id s given in
      Kept-excluded later other_ms (now + lease_ms) entry other_key other other_attempt
        (run_calls r decode calls s') early
        (run_calls-Kept r laws decode suffix entry until_ms (now + lease_ms) calls s' refl suit
          (inr (subst (λ n. now + lease_ms ≤ or_zero n) (sym deadline) (omega arith))))

  renewed :
      (now held duration_ms : ℕ) (consumer : Text) (s : S)
      → (renew_script r now target held consumer duration_ms s).1 ≡ true
      → (renew_script r now target held consumer duration_ms s).0
        ≡ r.set_number target until_ms (now + duration_ms) s
  renewed now held duration_ms consumer s given =
      let same = renew_script_lem r laws now held duration_ms target consumer s in
      elim (Bool-cases (holds r now target held consumer s)) [
        | inl t ↦ ap (λ p. p.0) (rw t at same)
        | inr t ↦ let refused = ap (λ p. p.1) (rw t at same) in cc
      ]

  -- Until the deadline of a renewal, no consumer acquires the job, under the same conditions.
  pub acquire_script-renew_script :
      (now held duration_ms : ℕ) (entry : GroupEntry) (consumer : Text) (s : S) (calls : List Call)
      (later other_ms : ℕ) (other_key other other_attempt : Text)
      → (renew_script r now target held consumer duration_ms s).1 ≡ true
      → all (suits r laws decode suffix entry until_ms (now + duration_ms)) calls ≡ true
      → later < now + duration_ms
      → let s' =
          run_calls r decode calls (renew_script r now target held consumer duration_ms s).0 in
        (acquire_script r decode later entry target other_key other other_ms other_attempt s').1
        ≡ none
  acquire_script-renew_script now held duration_ms entry consumer s calls later other_ms other_key
        other other_attempt given suit early =
      let s' = (renew_script r now target held consumer duration_ms s).0 in
      let deadline : number s' target until_ms ≡ some (now + duration_ms) =
        ap (λ x. number x target until_ms) (renewed now held duration_ms consumer s given)
        ∙ laws.number-set_number s target target until_ms until_ms (now + duration_ms)
        ∙ rw (self r laws target) refl in
      Kept-excluded later other_ms (now + duration_ms) entry other_key other other_attempt
        (run_calls r decode calls s') early
        (run_calls-Kept r laws decode suffix entry until_ms (now + duration_ms) calls s' refl suit
          (inr (subst (λ n. now + duration_ms ≤ or_zero n) (sym deadline) (omega arith))))
