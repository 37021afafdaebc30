-- ===== src/Worker/Scripts/Tests.antt =====
-- Runs of the scripts on a server in memory: a job that one worker holds.
use technical_doc_parser.Prelude.{
  ℕ, ◌==◌, text_eq, ◌+◌, ◌<◌, ◌≤◌, ◌≡◌, ◌||◌, refl, List, ◌∷◌, all, true, false, none, some, [],
  Text, bytes, arith, if◌then◌else◌,
}
use technical_doc_parser.Worker.Redis.{generation, until_ms, sequence}
use technical_doc_parser.Worker.Redis.Memory.{Server, empty, memory, memory-IsRedis, set_pending}
use technical_doc_parser.Worker.Scripts.{
  Event, Decoder, RedisJobLease, or_zero, is_text, entry_of, is_terminal, acquire_script,
  renew_script, publish_script, write_event, check_lease, settle_lease, set_words, grant, Reply,
}
use technical_doc_parser.Worker.Scripts.Leases.{
  holds, renew_script_lem, Granted, acquire_script-Granted,
}
use technical_doc_parser.Worker.Scripts.Publication.{
  is_published, publish_script_accepted, publish_script_refused,
}
use technical_doc_parser.Worker.Scripts.Runs.{
  Call, reclaiming, acquiring, renewing, publishing, run_calls,
}
use technical_doc_parser.Worker.Scripts.Runs.Kept.{suits}
use technical_doc_parser.Worker.Scripts.Runs.Fencing.{
  publish_script-acquire_script, publish_script_ended, acquire_script_excludes,
  acquire_script-renew_script,
}

abbrev lease : RedisJobLease
lease = record {
  key = bytes "job-execution:7";
  stream = bytes "q";
  group = bytes "g";
  message_id = bytes "7";
  consumer = bytes "w";
  generation = 1;
  sequence = 0;
  duration_ms = 50;
}

-- The message is delivered to the worker.
abbrev delivered : Server
delivered = set_pending (entry_of lease) (some lease.consumer) empty

abbrev progress : Event
progress = record { type = bytes "progress"; attempt_id = bytes "a"; sequence = 3 }

abbrev failure : Event
failure = record { type = bytes "job_failed"; attempt_id = bytes "a"; sequence = 4 }

abbrev decode : Decoder
decode = record {
  valid = λ text. text == bytes "p" || text == bytes "f" || text == bytes "1";
  object = λ text.
      if text == bytes "p" then some progress else if text == bytes "f" then some failure else none;
}

abbrev running : Server
running =
    let (s, _) =
      acquire_script memory decode 100 (entry_of lease) lease.key (bytes "run:r") lease.consumer 50
        (bytes "a") delivered in
    s

renew_script_test : renew_script memory 120 lease.key 1 lease.consumer 50 running ≡ (
    if holds memory 120 lease.key 1 lease.consumer running
    then (memory.set_number lease.key until_ms (120 + 50) running, true)
    else (running, false))
renew_script_test = renew_script_lem memory memory-IsRedis 120 1 50 lease.key lease.consumer running

-- The worker publishes an event at a time, under its lease.
abbrev publish : ℕ → Text → Server → Server × Reply
publish now event s =
    publish_script memory decode now (some lease) (bytes "r") event [] 100 1000 60 s

progress_accepted : is_published (publish 120 (bytes "p") running).1 ≡ true
unfolding publish_script acquire_script write_event check_lease settle_lease is_terminal set_words
    grant
progress_accepted = refl

publish_script_accepted_example :
    let s' = (publish 120 (bytes "p") running).0 in
    (holds memory 120 lease.key lease.generation lease.consumer running ≡ true)
    × (is_text (running.pending (entry_of lease)) lease.consumer ≡ true)
    × (or_zero (running.numbers lease.key sequence) < 3)
    × (or_zero (s'.numbers lease.key sequence) ≡ (if is_terminal progress.type then 0 else 3))
    × ((if is_terminal progress.type then s'.pending (entry_of lease) else none) ≡ none)
publish_script_accepted_example =
    publish_script_accepted memory memory-IsRedis decode 120 lease (bytes "r") (bytes "p") [] 100
      1000 60 running progress refl progress_accepted

-- After the deadline of the lease.
progress_refused : is_published (publish 150 (bytes "p") running).1 ≡ false
unfolding publish_script acquire_script write_event check_lease settle_lease is_terminal set_words
    grant
progress_refused = refl

publish_script_refused_example : (publish 150 (bytes "p") running).0 ≡ running
publish_script_refused_example =
    publish_script_refused memory memory-IsRedis decode 150 lease (bytes "r") (bytes "p") [] 100
      1000 60 running progress_refused

-- The first acquisition, of which `running` is the outcome.
acquired :
    (acquire_script memory decode 100
      (entry_of lease)
      lease.key
      (bytes "run:r")
      lease.consumer
      50
      (bytes "a")
      delivered).1
    ≡ some (1, 0)
unfolding acquire_script grant
acquired = refl

acquire_script-Granted_example :
    Granted memory memory-IsRedis 100 50
      (entry_of lease)
      lease.key
      lease.consumer
      1
      0
      delivered
      (acquire_script memory decode 100
        (entry_of lease)
        lease.key
        (bytes "run:r")
        lease.consumer
        50
        (bytes "a")
        delivered).0
acquire_script-Granted_example =
    acquire_script-Granted memory memory-IsRedis decode 100 50 1 0 (entry_of lease) lease.key
      (bytes "run:r") lease.consumer (bytes "a") delivered acquired

-- The lease under which the worker acquires the job again, once the first has expired.
abbrev renewed_lease : RedisJobLease
renewed_lease = record lease { generation = 2 }

regained :
    (acquire_script memory decode 160
      (entry_of lease)
      lease.key
      (bytes "run:r")
      lease.consumer
      50
      (bytes "a")
      running).1
    ≡ some (2, 0)
unfolding acquire_script grant
regained = refl

-- What happens under the second lease: it is renewed, and an event is published.
abbrev busy : List Call
busy =
    renewing 165 lease.key 2 lease.consumer 50
    ∷ publishing 170 (some renewed_lease) (bytes "r") (bytes "p") [] 100 1000 60
    ∷ reclaiming 175 (bytes "q") (bytes "g") (bytes "v") 30 (bytes "-") (bytes "job-execution:")
    ∷ []

busy_lem :
    all (suits memory memory-IsRedis decode (bytes "7") (entry_of lease) generation 2) busy ≡ true
busy_lem = refl

abbrev after_regained : Server
after_regained =
    run_calls memory decode busy
      (acquire_script memory decode 160 (entry_of lease) lease.key (bytes "run:r") lease.consumer 50
        (bytes "a") running).0

first_generation : lease.generation ≤ or_zero (running.numbers lease.key generation)
unfolding acquire_script grant
first_generation = omega arith

publish_script-acquire_script_example :
    ((publish 180 (bytes "p") after_regained).0 ≡ after_regained)
    × (is_published (publish 180 (bytes "p") after_regained).1 ≡ false)
publish_script-acquire_script_example =
    publish_script-acquire_script memory memory-IsRedis decode (bytes "7") 160 50 2 0
      (bytes "run:r") lease.consumer (bytes "a") running lease busy 180 (bytes "r") (bytes "p") []
      100 1000 60 refl first_generation regained busy_lem

-- Another worker tries to acquire the job, once its lease would have expired.
abbrev attempts : List Call
attempts = acquiring 200 (entry_of lease) lease.key (bytes "run:r") (bytes "v") 50 (bytes "b") ∷ []

attempts_lem :
    all (suits memory memory-IsRedis decode (bytes "7") (entry_of lease) generation 3) attempts
    ≡ true
attempts_lem = refl

failure_accepted : is_published (publish 130 (bytes "f") running).1 ≡ true
unfolding publish_script acquire_script write_event check_lease settle_lease is_terminal set_words
    grant
failure_accepted = refl

failure_terminal : is_terminal failure.type ≡ true
unfolding is_terminal
failure_terminal = refl

abbrev after_failure : Server
after_failure = run_calls memory decode attempts (publish 130 (bytes "f") running).0

publish_script_ended_example :
    let (s', reply) =
      publish_script memory decode 210
        (some renewed_lease)
        (bytes "r")
        (bytes "p")
        []
        100
        1000
        60
        after_failure in
    (s' ≡ after_failure) × (is_published reply ≡ false)
publish_script_ended_example =
    publish_script_ended memory memory-IsRedis decode (bytes "7") 130 lease renewed_lease
      (bytes "r") (bytes "f") failure [] 100 1000 60 running attempts 210 (bytes "r") (bytes "p") []
      100 1000 60 refl refl refl refl failure_terminal failure_accepted attempts_lem

-- The worker publishes and renews, and another tries to acquire the job.
abbrev held_calls : List Call
held_calls =
    publishing 110 (some lease) (bytes "r") (bytes "p") [] 100 1000 60
    ∷ renewing 120 lease.key 1 lease.consumer 50
    ∷ acquiring 130 (entry_of lease) lease.key (bytes "run:r") (bytes "v") 50 (bytes "b")
    ∷ []

held_calls_lem :
    (deadline : ℕ)
    → 130 < deadline
    → deadline ≤ 170
    → all
        (suits memory memory-IsRedis decode (bytes "7") (entry_of lease) until_ms deadline)
        held_calls
      ≡ true
held_calls_lem deadline low high = ground (arith, low, high)

abbrev while_held : Server
while_held =
    run_calls memory decode held_calls
      (acquire_script memory decode 100 (entry_of lease) lease.key (bytes "run:r") lease.consumer 50
        (bytes "a") delivered).0

acquire_script_excludes_example :
    (acquire_script memory decode 149
      (entry_of lease)
      lease.key
      (bytes "run:r")
      (bytes "v")
      50
      (bytes "b")
      while_held).1
    ≡ none
acquire_script_excludes_example =
    acquire_script_excludes memory memory-IsRedis decode (bytes "7") 100 50 1 0 (entry_of lease)
      (bytes "run:r") lease.consumer (bytes "a") delivered held_calls 149 50 (bytes "run:r")
      (bytes "v") (bytes "b") acquired (held_calls_lem 150 (omega arith) (omega arith))
      (omega arith)

renewal : (renew_script memory 120 lease.key 1 lease.consumer 50 running).1 ≡ true
unfolding renew_script acquire_script grant
renewal = refl

acquire_script-renew_script_example :
    (acquire_script memory decode 169
      (entry_of lease)
      lease.key
      (bytes "run:r")
      (bytes "v")
      50
      (bytes "b")
      (run_calls memory decode held_calls
        (renew_script memory 120 lease.key 1 lease.consumer 50 running).0)).1
    ≡ none
acquire_script-renew_script_example =
    acquire_script-renew_script memory memory-IsRedis decode (bytes "7") 120 1 50 (entry_of lease)
      lease.consumer running held_calls 169 50 (bytes "run:r") (bytes "v") (bytes "b") renewal
      (held_calls_lem 170 (omega arith) (omega arith)) (omega arith)
