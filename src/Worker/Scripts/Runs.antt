-- ===== src/Worker/Scripts/Runs.antt =====
-- platform/worker/redis_job_scripts.h and redis_client.cpp: what any sequence of calls of the scripts, by
-- any workers.
pub mod Kept
pub mod Fencing
use technical_doc_parser.Prelude.{
  ℕ, ◌+◌, ◌<◌, ◌≤◌, ◌≡◌, refl, ap, sym, subst, ◌∙◌, ◌⊎◌, inl, inr, Bool, true, false, not, ◌&&◌,
  ◌||◌, Option, none, some, List, [], ◌∷◌, ◌++◌, arith, ltb, leb, if◌then◌else◌, Text, bytes, ◌==◌,
  text_eq, nat_eq, list_beq_iff, all, Bool-cases, Option-cases,
}
use technical_doc_parser.Worker.Redis.{
  Redis, IsRedis, NumberField, field_beq, generation, until_ms, sequence, GroupEntry, entry_beq,
}
use technical_doc_parser.Worker.Scripts.{
  Decoder, RedisJobLease, Event, or_zero, is_number, is_text, is_terminal, entry_of, reclaim_loop,
  reclaim_job, grant, acquire_script, renew_script, write_event, check_lease, settle_lease,
  publish_script, Reply, published, cancelled, failed,
}
use technical_doc_parser.Worker.Scripts.Leases.{number-set_consumer, grant_lem, acquire_cases}
use technical_doc_parser.Worker.Scripts.Publication.{
  execution_key, write_event_frame, pending-del_none, publish_undecoded, publish_cases,
}

-- A call of a script, with the server's time. A message that is delivered for the first time is no
-- message of a job that has been acquired or has ended, so that deliveries are left out.
pub data Call : Type 0 where
  reclaiming : ℕ → Text → Text → Text → ℕ → Text → Text → Call
  acquiring : ℕ → GroupEntry → Text → Text → Text → ℕ → Text → Call
  renewing : ℕ → Text → ℕ → Text → ℕ → Call
  publishing : ℕ → Option RedisJobLease → Text → Text → List (Text × Text) → ℕ → ℕ → ℕ → Call

module _ {ℓ} {S : Type ℓ} (r : Redis S) (decode : Decoder) where
  abbrev pub run_call : Call → S → S
  run_call (reclaiming now queue group consumer idle cursor prefix) s =
      (reclaim_job r now queue group consumer idle cursor prefix s).0
  run_call (acquiring now entry key run_key consumer lease_ms attempt_id) s =
      (acquire_script r decode now entry key run_key consumer lease_ms attempt_id s).0
  run_call (renewing now key held consumer duration_ms) s =
      (renew_script r now key held consumer duration_ms s).0
  run_call (publishing now lease run_id event state run_limit platform_limit seconds) s =
      (publish_script r decode now lease run_id event state run_limit platform_limit seconds s).0

  abbrev pub run_calls : List Call → S → S
  run_calls [] s = s
  run_calls (call ∷ calls) s = run_calls calls (run_call call s)

-- A call concerns this job's key only together with its message, and keeps what it publishes for a time.
abbrev pub goes_with : Text → GroupEntry → Text → GroupEntry → Bool
goes_with key entry k e = not (k == key) || entry_beq e entry

abbrev pub fits : Text → GroupEntry → Call → Bool
fits key entry (reclaiming now queue group consumer idle cursor prefix) = true
fits key entry (acquiring now e k run_key consumer lease_ms attempt_id) = goes_with key entry k e
fits key entry (renewing now k held consumer duration_ms) = true
fits key entry (publishing now none run_id event state run_limit platform_limit seconds) =
    ltb 0 seconds
fits key entry (publishing now (some l) run_id event state run_limit platform_limit seconds) =
    ltb 0 seconds && goes_with key entry l.key (entry_of l)

-- An acquisition before a deadline, and a renewal that does not shorten it; other calls come at any time.
abbrev pub is_before : ℕ → Call → Bool
is_before deadline (acquiring now e k run_key consumer lease_ms attempt_id) = ltb now deadline
is_before deadline (renewing now k held consumer duration_ms) = leb deadline (now + duration_ms)
is_before deadline (reclaiming now queue group consumer idle cursor prefix) = true
is_before deadline (publishing now l run_id event state run_limit platform_limit seconds) = true

-- What a call must meet for a bound on a field to stay: a generation only grows, and a deadline is
-- guarded until it is reached.
abbrev pub respects : NumberField → ℕ → Call → Bool
respects generation bound call = true
respects until_ms bound call = is_before bound call
respects sequence bound call = false
