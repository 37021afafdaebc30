-- ===== src/Worker/Scripts.antt =====
-- platform/worker/redis_job_scripts.h and the publication script of redis_client.cpp, over the
-- interface of the server, with the calls of `RedisClient` that run them. JSON is a parameter: the
-- decoder of `cjson`, which gives the three fields that the scripts read.
pub mod Leases
pub mod Publication
pub mod Runs
pub mod Tests
use Prim.Native.Nat.{max}
use technical_doc_parser.Prelude.{
  ℕ, suc, ◌+◌, ◌≤◌, ◌≡◌, Bool, true, false, not, ◌&&◌, ◌||◌, Option, none, some, List, [], ◌∷◌,
  ◌++◌, arith, ltb, leb, nat_beq, if◌then◌else◌, Text, bytes, ◌==◌, text_eq, nat_eq, length,
}
use technical_doc_parser.Worker.Redis.{
  Redis, NumberField, generation, until_ms, sequence, Kind, GroupEntry,
}

pub record Event : Type 0 where
  pub type : Text
  pub attempt_id : Text
  pub sequence : ℕ

-- `cjson.decode`: whether it accepts a text, and the fields of an object, none for any other text.
pub record Decoder : Type 0 where
  pub valid : Text → Bool
  pub object : Text → Option Event

-- `RedisJobLease`
pub record RedisJobLease : Type 0 where
  pub key : Text
  pub stream : Text
  pub group : Text
  pub message_id : Text
  pub consumer : Text
  pub generation : ℕ
  pub sequence : ℕ
  pub duration_ms : ℕ

abbrev pub entry_of : RedisJobLease → GroupEntry
entry_of l = record { stream = l.stream; group = l.group; message_id = l.message_id }

-- `tonumber(redis.call('HGET', …) or '0')`
abbrev pub or_zero : Option ℕ → ℕ
or_zero none = 0
or_zero (some n) = n

-- A field that is missing differs from every argument.
abbrev pub is_number : Option ℕ → ℕ → Bool
is_number none v = false
is_number (some n) v = nat_beq n v

abbrev pub is_text : Option Text → Text → Bool
is_text none v = false
is_text (some t) v = t == v

unfoldable pub is_terminal : Text → Bool
is_terminal type =
    type == bytes "job_succeeded" || type == bytes "job_failed" || type == bytes "job_cancelled"

pub data Reply : Type 0 where
  published : Reply
  cancelled : Reply
  failed : Text → Reply

module _ {ℓ} {S : Type ℓ} (r : Redis S) where
  open r use {
    number, word, set_number, set_word, pending, idle_entries, claim, ack, add, kind, get, del,
    expire, persist,
  }

  -- The loop of `reclaimJobScript`: the state, the cursor, and the message that was claimed.
  unfoldable pub reclaim_loop :
      ℕ → Text → Text → Text → ℕ → Text → List Text → Text → S → S × Text × Option Text
  reclaim_loop now queue group consumer idle prefix [] cursor s = (s, cursor, none)
  reclaim_loop now queue group consumer idle prefix (id ∷ ids) cursor s =
      let here = bytes "(" ++ id in
      let (s', claimed) =
        claim (record { stream = queue; group = group; message_id = id }) consumer idle s in
      let rest = reclaim_loop now queue group consumer idle prefix ids here s in
      let rest' = reclaim_loop now queue group consumer idle prefix ids here s' in
      if leb (or_zero (number s (prefix ++ id) until_ms)) now
      then (if claimed then (s', here, some id) else rest')
      else rest

  -- `reclaimJobScript`
  unfoldable pub reclaim_job : ℕ → Text → Text → Text → ℕ → Text → Text → S → S × Text × Option Text
  unfolding reclaim_loop
  reclaim_job now queue group consumer idle cursor prefix s =
      let entries = idle_entries s queue group idle cursor 32 in
      let (s', cursor', found) =
        reclaim_loop now queue group consumer idle prefix entries (bytes "-") s in
      elim found [
        | some id ↦ (s', cursor', some id)
        | none ↦ (s', (if ltb (length entries) 32 then bytes "-" else cursor'), none)
      ]

  -- The last statements of `acquireJobScript`.
  unfoldable pub grant : ℕ → Text → Text → ℕ → ℕ → S → S × Option (ℕ × ℕ)
  grant now key consumer lease_ms sequence_number s =
      let next = or_zero (number s key generation) + 1 in
      (
        persist key (
            set_number key sequence sequence_number (
              set_number key until_ms (now + lease_ms)
                (set_word key (bytes "consumer") consumer (set_number key generation next s)))),
        some (next, sequence_number),
      )

  -- `acquireJobScript`
  unfoldable pub acquire_script :
      Decoder → ℕ → GroupEntry → Text → Text → Text → ℕ → Text → S → S × Option (ℕ × ℕ)
  unfolding grant is_terminal
  acquire_script decode now entry key run_key consumer lease_ms attempt_id s =
      let old = or_zero (number s key sequence) in
      if not (is_text (pending s entry) consumer)
      then (s, none)
      else if ltb now (or_zero (number s key until_ms))
      then (s, none)
      else elim (word s run_key (bytes "last_event")) [
        | none ↦ grant now key consumer lease_ms old s
        | some previous ↦ elim (decode.object previous) [
          | none ↦ grant now key consumer lease_ms old s
          | some event ↦
              if event.attempt_id == attempt_id
              then (if is_terminal event.type
                  then (del key (ack entry s), none)
                  else grant now key consumer lease_ms (max old event.sequence) s)
              else grant now key consumer lease_ms old s
        ]
      ]

  -- `renewJobScript`
  unfoldable pub renew_script : ℕ → Text → ℕ → Text → ℕ → S → S × Bool
  renew_script now key held consumer duration_ms s =
      if not (is_number (number s key generation) held)
        || not (is_text (word s key (bytes "consumer")) consumer)
        || leb (or_zero (number s key until_ms)) now
      then (s, false)
      else (set_number key until_ms (now + duration_ms) s, true)

  unfoldable pub set_words : Text → List (Text × Text) → S → S
  set_words key [] s = s
  set_words key ((k, v) ∷ state) s = set_words key state (set_word key k v s)

  abbrev pub kind_fits : Kind → Kind → Bool
  kind_fits Kind.absent _ = true
  kind_fits Kind.stream Kind.stream = true
  kind_fits Kind.hash Kind.hash = true
  kind_fits _ _ = false

  -- What the publication script writes once its tests have passed, up to the second EXPIRE.
  unfoldable pub write_event : Text → Text → List (Text × Text) → ℕ → ℕ → ℕ → S → S
  unfolding set_words
  write_event run_id event state run_limit platform_limit seconds s =
      expire (bytes "run:" ++ run_id) seconds (
        expire (bytes "run-events:" ++ run_id) seconds (
          set_words (bytes "run:" ++ run_id) state (
            add (bytes "platform-events") platform_limit event
              (add (bytes "run-events:" ++ run_id) run_limit event s))))

  -- The tests of the script on the lease.
  unfoldable pub check_lease : ℕ → RedisJobLease → Text → Event → S → Reply
  check_lease now lease run_id event s =
      if not (is_number (number s lease.key generation) lease.generation)
        || not (is_text (word s lease.key (bytes "consumer")) lease.consumer)
        || leb (or_zero (number s lease.key until_ms)) now
      then failed (bytes "JOB_LEASE_LOST")
      else if not (is_text (pending s (entry_of lease)) lease.consumer)
      then failed (bytes "JOB_LEASE_LOST")
      else if leb event.sequence (or_zero (number s lease.key sequence))
      then failed (bytes "JOB_SEQUENCE_REGRESSION")
      else if not (event.type == bytes "job_cancelled")
          && is_text (get s (bytes "run-cancel:" ++ run_id)) event.attempt_id
      then cancelled
      else published

  -- What a leased publication writes behind the event: the sequence, or the end of the job.
  unfoldable pub settle_lease : RedisJobLease → Event → S → S
  unfolding is_terminal
  settle_lease lease event s =
      let counted = set_number lease.key sequence event.sequence s in
      if is_terminal event.type then del lease.key (ack (entry_of lease) counted) else counted

  -- The publication script. Without a lease only the kinds of the keys and the JSON are tested; under a
  -- lease, a value that is not an object fails when its sequence is compared.
  unfoldable pub publish_script :
      Decoder
      → ℕ
      → Option RedisJobLease
      → Text
      → Text
      → List (Text × Text)
      → ℕ
      → ℕ
      → ℕ
      → S
      → S × Reply
  unfolding write_event check_lease settle_lease
  publish_script decode now lease run_id event state run_limit platform_limit seconds s =
      let written = write_event run_id event state run_limit platform_limit seconds s in
      if not (kind_fits (kind s (bytes "run-events:" ++ run_id)) Kind.stream)
      then (s, failed (bytes "WRONGTYPE event publication key run-events:" ++ run_id))
      else if not (kind_fits (kind s (bytes "platform-events")) Kind.stream)
      then (s, failed (bytes "WRONGTYPE event publication key platform-events"))
      else if not (kind_fits (kind s (bytes "run:" ++ run_id)) Kind.hash)
      then (s, failed (bytes "WRONGTYPE event publication key run:" ++ run_id))
      else elim (decode.object event) [
        | none ↦ elim lease [
          | none ↦ if decode.valid event then (written, published) else (s, failed (bytes "cjson"))
          | some held ↦ (s, failed (bytes "cjson"))
        ]
        | some e ↦ elim lease [
          | none ↦ (written, published)
          | some held ↦ elim (check_lease now held run_id e s) [
            | published ↦ (settle_lease held e written, published)
            | cancelled ↦ (s, cancelled)
            | failed why ↦ (s, failed why)
          ]
        ]
      ]
