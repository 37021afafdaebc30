-- ===== src/Worker/Scripts/Leases.antt =====
-- platform/worker/redis_job_scripts.h: leases, their acquisition and their renewal.
use Prim.Native.Nat.{max}
use mathlib.Core.Option.{some-injective}
use technical_doc_parser.Prelude.{
  ℕ, ◌+◌, ◌≡◌, ◌⊎◌, refl, ap, subst, sym, ◌∙◌, ◌≤◌, Bool-cases, Option-cases, inl, inr, some, Bool,
  true, false, ◌&&◌, none, some, arith, ltb, if◌then◌else◌, Text, bytes, ◌==◌, text_eq, nat_eq,
  list_beq_iff,
}
use technical_doc_parser.Worker.Redis.{
  Redis, IsRedis, NumberField, field_name, generation, until_ms, sequence, GroupEntry,
}
use technical_doc_parser.Worker.Scripts.{
  Decoder, or_zero, is_number, is_text, is_terminal, grant, acquire_script, renew_script,
}

module _ {ℓ} {S : Type ℓ} (r : Redis S) where
  open r use {number, word}

  -- A lease is held at a time: its generation and its consumer are recorded, and it has not expired.
  unfoldable pub holds : ℕ → Text → ℕ → Text → S → Bool
  holds now key held consumer s =
      is_number (number s key generation) held
      && is_text (word s key (bytes "consumer")) consumer
      && ltb now (or_zero (number s key until_ms))

module _ {ℓ} {S : Type ℓ} (r : Redis S) (laws : IsRedis r) where
  open r use {number, word, pending}
  open laws use {number-set_number, number-set_word, word-set_number, word-set_word}

  pub self : (k : Text) → (k == k) ≡ true
  self k = (list_beq_iff k k).1 refl

  -- The field `consumer` holds no number.
  consumer_apart :
      (k j : Text) (n : NumberField) → (k == j && field_name n == bytes "consumer") ≡ false
  consumer_apart k j generation = ground arith
  consumer_apart k j until_ms = ground arith
  consumer_apart k j sequence = ground arith

  pub number-set_consumer :
      (s : S) (k j : Text) (n : NumberField) (v : Text)
      → number (r.set_word k (bytes "consumer") v s) j n ≡ number s j n
  number-set_consumer s k j n v =
      number-set_word s k j (bytes "consumer") n v (consumer_apart k j n)

  consumer-set_number :
      (s : S) (k j : Text) (n : NumberField) (v : ℕ)
      → word (r.set_number k n v s) j (bytes "consumer") ≡ word s j (bytes "consumer")
  consumer-set_number s k j n v =
      word-set_number s k j n (bytes "consumer") v (consumer_apart k j n)

  -- A renewal succeeds exactly for a lease that is held; it then moves the deadline to `now` plus the
  -- duration, and otherwise changes nothing.
  pub renew_script_lem :
      (now held duration_ms : ℕ) (key consumer : Text) (s : S)
      → renew_script r now key held consumer duration_ms s ≡ (
          if holds r now key held consumer s
          then (r.set_number key until_ms (now + duration_ms) s, true)
          else (s, false))
  unfolding renew_script holds
  renew_script_lem now held duration_ms key consumer s = ground arith

  pub grant_lem :
      (now lease_ms count : ℕ) (key consumer : Text) (s : S)
      → let (s', lease) = grant r now key consumer lease_ms count s in
        (lease ≡ some (or_zero (number s key generation) + 1, count))
        × (number s' key generation ≡ some (or_zero (number s key generation) + 1))
        × (number s' key sequence ≡ some count)
        × (number s' key until_ms ≡ some (now + lease_ms))
        × (word s' key (bytes "consumer") ≡ some consumer)
  unfolding grant
  grant_lem now lease_ms count key consumer s =
      let here = self key in
      let numbers = (laws.persist-hashes key).numbers in
      let words = (laws.persist-hashes key).words in
      (
        refl,
        simp (numbers, number-set_number, number-set_consumer, here),
        simp (numbers, number-set_number, here),
        simp (numbers, number-set_number, number-set_consumer, here),
        simp (words, consumer-set_number, word-set_word, here),
      )

  -- What a lease that was granted says of the server before and after.
  abbrev pub Granted : ℕ → ℕ → GroupEntry → Text → Text → ℕ → ℕ → S → S → Type 0
  Granted now lease_ms entry key consumer held count s s' =
      (is_text (pending s entry) consumer ≡ true)
      × (or_zero (number s key until_ms) ≤ now)
      × (or_zero (number s key sequence) ≤ count)
      × (held ≡ or_zero (number s key generation) + 1)
      × (number s' key generation ≡ some held)
      × (number s' key sequence ≡ some count)
      × (number s' key until_ms ≡ some (now + lease_ms))
      × (word s' key (bytes "consumer") ≡ some consumer)

  grant-Granted :
      (now lease_ms count held sent : ℕ) (entry : GroupEntry) (key consumer : Text) (s : S)
      → is_text (pending s entry) consumer ≡ true
      → or_zero (number s key until_ms) ≤ now
      → or_zero (number s key sequence) ≤ count
      → (grant r now key consumer lease_ms count s).1 ≡ some (held, sent)
      → Granted now lease_ms entry key consumer held sent s
          (grant r now key consumer lease_ms count s).0
  grant-Granted now lease_ms count held sent entry key consumer s mine late below given =
      let (lease, g, n, u, c) = grant_lem now lease_ms count key consumer s in
      let same = some-injective _ _ (sym given ∙ lease) in
      let held_is = ap (λ p. p.0) same in
      let sent_is = ap (λ p. p.1) same in
      (
        mine,
        late,
        subst (λ v. or_zero (number s key sequence) ≤ v) (sym sent_is) below,
        held_is,
        g ∙ ap some (sym held_is),
        n ∙ ap some (sym sent_is),
        u,
        c,
      )

  pub acquire_cases :
      (decode : Decoder) (now lease_ms : ℕ) (entry : GroupEntry)
      (key run_key consumer attempt_id : Text) (s : S)
      → let acquired =
          acquire_script r decode now entry key run_key consumer lease_ms attempt_id s in
        ((acquired.1 ≡ none) × ((acquired.0 ≡ s) ⊎ (acquired.0 ≡ r.del key (r.ack entry s))))
        ⊎ ((count : ℕ) × (is_text (pending s entry) consumer ≡ true)
            × (or_zero (number s key until_ms) ≤ now)
            × (or_zero (number s key sequence) ≤ count)
            × (acquired ≡ grant r now key consumer lease_ms count s))
  unfolding acquire_script
  acquire_cases decode now lease_ms entry key run_key consumer attempt_id s =
      let old = or_zero (number s key sequence) in
      elim (Bool-cases (is_text (pending s entry) consumer)) [
        | inr t ↦ inl (rw (t, acquire_script) refl, inl (rw (t, acquire_script) refl))
        | inl t ↦ elim (Bool-cases (ltb now (or_zero (number s key until_ms)))) [
          | inl l ↦ inl (rw (t, l, acquire_script) refl, inl (rw (t, l, acquire_script) refl))
          | inr l ↦
              let late : or_zero (number s key until_ms) ≤ now = ground (arith, l) in
              elim (Option-cases (word s run_key (bytes "last_event"))) [
                | inl w ↦ inr (old, t, late, omega arith, rw (t, l, w, acquire_script) refl)
                | inr (previous, w) ↦ elim (Option-cases (decode.object previous)) [
                  | inl o ↦ inr (old, t, late, omega arith, rw (t, l, w, o, acquire_script) refl)
                  | inr (event, o) ↦ elim (Bool-cases (event.attempt_id == attempt_id)) [
                    | inr a ↦
                        inr (old, t, late, omega arith, rw (t, l, w, o, a, acquire_script) refl)
                    | inl a ↦ elim (Bool-cases (is_terminal event.type)) [
                      | inl e ↦ inl (
                        rw (t, l, w, o, a, e, acquire_script) refl,
                        inr (rw (t, l, w, o, a, e, acquire_script) refl),
                      )
                      | inr e ↦ inr (
                        max old event.sequence,
                        t,
                        late,
                        omega arith,
                        rw (t, l, w, o, a, e, acquire_script) refl,
                      )
                    ]
                  ]
                ]
              ]
        ]
      ]

  -- A job is acquired only by the consumer for which its message is pending, and only once its lease
  -- has expired. The lease has the next generation and a sequence that is not below the recorded one;
  -- the server records both, the consumer, and the new deadline.
  pub acquire_script-Granted :
      (decode : Decoder) (now lease_ms held count : ℕ) (entry : GroupEntry)
      (key run_key consumer attempt_id : Text) (s : S)
      → (acquire_script r decode now entry key run_key consumer lease_ms attempt_id s).1
        ≡ some (held, count)
      → Granted now lease_ms entry key consumer held count s
          (acquire_script r decode now entry key run_key consumer lease_ms attempt_id s).0
  acquire_script-Granted decode now lease_ms held count entry key run_key consumer attempt_id s
        given =
      elim (acquire_cases decode now lease_ms entry key run_key consumer attempt_id s) [
        | inl (nothing, _) ↦ cc
        | inr (sent, mine, late, below, same) ↦
            subst (λ p. Granted now lease_ms entry key consumer held count s p.0) (sym same)
              (grant-Granted now lease_ms sent held count entry key consumer s mine late below
                (sym (ap (λ p. p.1) same) ∙ given))
      ]
