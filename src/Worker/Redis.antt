-- ===== src/Worker/Redis.antt =====
-- The Redis server as the scripts of platform/worker/redis_job_scripts.h and redis_client.cpp use it:
-- its commands are operations on a state, and the laws are what the Redis documentation says of
-- them. A script runs atomically, at the time that its TIME call returns. The laws are those of runs in
-- which each command meets a key of its own type: with a key of another type Redis ends the script with
-- an error, which the scripts rule out for the keys whose TYPE they test.
pub mod Memory
use technical_doc_parser.Prelude.{
  ℕ, ◌<◌, ◌≡◌, nat_eq, Bool, true, false, Option, none, some, Text, Eq, ◌==◌, ◌&&◌, if◌then◌else◌,
  text_eq, ◌↔◌, arith, List, bytes,
}

-- The fields of a job execution hash that hold decimal numbers. Decimal texts of numbers are equal
-- exactly if the numbers are, so that a comparison of such fields is one of numbers.
pub data NumberField : Type 0 where
  generation until_ms sequence : NumberField

abbrev pub field_beq : NumberField → NumberField → Bool
field_beq generation generation = true
field_beq until_ms until_ms = true
field_beq sequence sequence = true
field_beq _ _ = false

pub field_beq_iff : (a b : NumberField) → (field_beq a b ≡ true) ↔ (a ≡ b)
field_beq_iff a b = ground arith

abbrev pub field_name : NumberField → Text
field_name generation = bytes "generation"
field_name until_ms = bytes "until_ms"
field_name sequence = bytes "sequence"

-- What TYPE answers.
pub data Kind : Type 0 where
  absent stream hash other : Kind

-- One pending entry of a consumer group.
pub record GroupEntry : Type 0 where
  pub stream : Text
  pub group : Text
  pub message_id : Text

abbrev pub entry_beq : GroupEntry → GroupEntry → Bool
entry_beq a b = a.stream == b.stream && a.group == b.group && a.message_id == b.message_id

pub record Redis {ℓ} (S : Type ℓ) : Type ℓ where
  -- HGET and HSET, of a number or of a text.
  pub number : S → Text → NumberField → Option ℕ
  pub word : S → Text → Text → Option Text
  pub set_number : Text → NumberField → ℕ → S → S
  pub set_word : Text → Text → Text → S → S
  -- The consumer that XPENDING of one id names.
  pub pending : S → GroupEntry → Option Text
  -- XPENDING with IDLE: at most `count` ids behind a cursor that are idle for so many milliseconds.
  pub idle_entries : S → Text → Text → ℕ → Text → ℕ → List Text
  -- XCLAIM of one id: the state, and whether the message was claimed.
  pub claim : GroupEntry → Text → ℕ → S → S × Bool
  pub ack : GroupEntry → S → S
  -- The newest entry of a stream, and XADD with MAXLEN.
  pub latest : S → Text → Option Text
  pub add : Text → ℕ → Text → S → S
  pub kind : S → Text → Kind
  pub get : S → Text → Option Text
  pub del : Text → S → S
  pub expire : Text → ℕ → S → S
  pub persist : Text → S → S

-- Commands that leave the hashes, or the pending entries, alone.
pub record KeepsHashes {ℓ} {S : Type ℓ} (r : Redis S) (f : S → S) : Type ℓ where
  pub numbers : (s : S) (k : Text) (n : NumberField) → r.number (f s) k n ≡ r.number s k n
  pub words : (s : S) (k n : Text) → r.word (f s) k n ≡ r.word s k n

pub record KeepsPending {ℓ} {S : Type ℓ} (r : Redis S) (f : S → S) : Type ℓ where
  pub entries : (s : S) (e : GroupEntry) → r.pending (f s) e ≡ r.pending s e

pub record KeepsLatest {ℓ} {S : Type ℓ} (r : Redis S) (f : S → S) : Type ℓ where
  pub newest : (s : S) (k : Text) → r.latest (f s) k ≡ r.latest s k

pub record IsRedis {ℓ} {S : Type ℓ} (r : Redis S) : Type ℓ where
  pub number-set_number :
      (s : S) (k j : Text) (n m : NumberField) (v : ℕ)
      → r.number (r.set_number k n v s) j m
        ≡ (if k == j && field_beq n m then some v else r.number s j m)
  pub word-set_number :
      (s : S) (k j : Text) (n : NumberField) (w : Text) (v : ℕ)
      → (k == j && field_name n == w) ≡ false
      → r.word (r.set_number k n v s) j w ≡ r.word s j w
  pub number-set_word :
      (s : S) (k j w : Text) (n : NumberField) (v : Text)
      → (k == j && field_name n == w) ≡ false
      → r.number (r.set_word k w v s) j n ≡ r.number s j n
  pub word-set_word :
      (s : S) (k j w u v : Text)
      → r.word (r.set_word k w v s) j u ≡ (if k == j && w == u then some v else r.word s j u)
  pub number-del :
      (s : S) (k j : Text) (n : NumberField)
      → r.number (r.del k s) j n ≡ (if k == j then none else r.number s j n)
  pub word-del :
      (s : S) (k j w : Text) → r.word (r.del k s) j w ≡ (if k == j then none else r.word s j w)
  pub pending-ack :
      (s : S) (e d : GroupEntry)
      → r.pending (r.ack e s) d ≡ (if entry_beq e d then none else r.pending s d)
  -- Only a pending entry is claimed, and a refused claim changes no entry.
  pub pending-claim :
      (s : S) (e d : GroupEntry) (consumer : Text) (idle : ℕ)
      → r.pending (r.claim e consumer idle s).0 d
        ≡ (if (r.claim e consumer idle s).1 && entry_beq e d then some consumer else r.pending s d)
  pub claimed :
      (s : S) (e : GroupEntry) (consumer : Text) (idle : ℕ)
      → r.pending s e ≡ none
      → (r.claim e consumer idle s).1 ≡ false
  pub latest-add :
      (s : S) (k j : Text) (limit : ℕ) (v : Text)
      → r.latest (r.add k limit v s) j ≡ (if k == j then some v else r.latest s j)
  pub set_number-pending :
      (k : Text) (n : NumberField) (v : ℕ) → KeepsPending r (r.set_number k n v)
  pub set_word-pending : (k w v : Text) → KeepsPending r (r.set_word k w v)
  -- With a stream its groups are deleted.
  pub pending-del :
      (s : S) (k : Text) (e : GroupEntry)
      → r.pending (r.del k s) e ≡ (if k == e.stream then none else r.pending s e)
  pub add-pending : (k : Text) (limit : ℕ) (v : Text) → KeepsPending r (r.add k limit v)
  pub add-hashes : (k : Text) (limit : ℕ) (v : Text) → KeepsHashes r (r.add k limit v)
  pub ack-hashes : (e : GroupEntry) → KeepsHashes r (r.ack e)
  pub claim-hashes :
      (e : GroupEntry) (consumer : Text) (idle : ℕ)
      → KeepsHashes r (λ s. (r.claim e consumer idle s).0)
  -- A key with a positive time to live is still there when the script ends.
  pub expire-hashes : (k : Text) (seconds : ℕ) → 0 < seconds → KeepsHashes r (r.expire k seconds)
  pub expire-pending : (k : Text) (seconds : ℕ) → KeepsPending r (r.expire k seconds)
  pub expire-latest : (k : Text) (seconds : ℕ) → 0 < seconds → KeepsLatest r (r.expire k seconds)
  pub set_number-latest : (k : Text) (n : NumberField) (v : ℕ) → KeepsLatest r (r.set_number k n v)
  pub set_word-latest : (k w v : Text) → KeepsLatest r (r.set_word k w v)
  pub ack-latest : (e : GroupEntry) → KeepsLatest r (r.ack e)
  pub latest-del :
      (s : S) (k j : Text) → r.latest (r.del k s) j ≡ (if k == j then none else r.latest s j)
  pub persist-hashes : (k : Text) → KeepsHashes r (r.persist k)
  pub persist-pending : (k : Text) → KeepsPending r (r.persist k)
