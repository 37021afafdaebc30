-- ===== src/Worker/Redis/Memory.antt =====
-- A server in memory, which shows that the laws of the interface hold together: its state is what
-- its reading commands answer. No key expires in it while a script runs.
use technical_doc_parser.Prelude.{
  ℕ, ◌≡◌, refl, Bool, true, false, ◌&&◌, Option, none, some, Text, ◌==◌, text_eq, if◌then◌else◌, [],
  Option-cases, inl, inr, ap,
}
use technical_doc_parser.Worker.Redis.{
  Redis, IsRedis, NumberField, field_beq, Kind, GroupEntry, entry_beq,
}

pub record Server : Type 0 where
  pub numbers : Text → NumberField → Option ℕ
  pub words : Text → Text → Option Text
  pub pending : GroupEntry → Option Text
  pub newest : Text → Option Text

abbrev pub empty : Server
empty = record {
  numbers = λ k n. none;
  words = λ k w. none;
  pending = λ e. none;
  newest = λ k. none;
}

abbrev pub set_pending : GroupEntry → Option Text → Server → Server
set_pending e c s = record s { pending = λ d. if entry_beq e d then c else s.pending d }

abbrev pub claim : GroupEntry → Text → ℕ → Server → Server × Bool
claim e consumer idle s = elim (s.pending e) [
  | none ↦ (s, false)
  | some _ ↦ (set_pending e (some consumer) s, true)
]

abbrev pub kind : Server → Text → Kind
kind s k = elim (s.newest k) [ none ↦ Kind.absent | some _ ↦ Kind.stream ]

abbrev pub memory : Redis Server
memory = record {
  number = λ s. s.numbers;
  word = λ s. s.words;
  set_number = λ k n v s. record s {
    numbers = λ j m. if k == j && field_beq n m then some v else s.numbers j m;
  };
  set_word =
      λ k w v s. record s { words = λ j u. if k == j && w == u then some v else s.words j u };
  pending = λ s. s.pending;
  idle_entries = λ s queue group idle cursor limit. [];
  claim = claim;
  ack = λ e. set_pending e none;
  latest = λ s. s.newest;
  add = λ k limit v s. record s { newest = λ j. if k == j then some v else s.newest j };
  kind = kind;
  get = λ s k. none;
  del = λ k s. record s {
    numbers = λ j n. if k == j then none else s.numbers j n;
    words = λ j w. if k == j then none else s.words j w;
    newest = λ j. if k == j then none else s.newest j;
    pending = λ e. if k == e.stream then none else s.pending e;
  };
  expire = λ k seconds s. s;
  persist = λ k s. s;
}

claim_pending :
    (s : Server) (e d : GroupEntry) (consumer : Text) (idle : ℕ)
    → (claim e consumer idle s).0.pending d
      ≡ (if (claim e consumer idle s).1 && entry_beq e d then some consumer else s.pending d)
claim_pending s e d consumer idle = elim (Option-cases (s.pending e)) [
  | inl h ↦ rw (h, claim) refl
  | inr (c, h) ↦ rw (h, claim) refl
]

claim_absent :
    (s : Server) (e : GroupEntry) (consumer : Text) (idle : ℕ)
    → s.pending e ≡ none
    → (claim e consumer idle s).1 ≡ false
claim_absent s e consumer idle h = rw (h, claim) refl

claim_keeps :
    (s : Server) (e : GroupEntry) (consumer : Text) (idle : ℕ)
    → ((claim e consumer idle s).0.numbers ≡ s.numbers)
      × ((claim e consumer idle s).0.words ≡ s.words)
claim_keeps s e consumer idle = elim (Option-cases (s.pending e)) [
  | inl h ↦ rw (h, claim) (refl, refl)
  | inr (c, h) ↦ rw (h, claim) (refl, refl)
]

pub memory-IsRedis : IsRedis memory
memory-IsRedis = record {
  number-set_number = λ s k j n m v. refl;
  word-set_number = λ s k j n w v apart. refl;
  number-set_word = λ s k j w n v apart. refl;
  word-set_word = λ s k j w u v. refl;
  number-del = λ s k j n. refl;
  word-del = λ s k j w. refl;
  pending-ack = λ s e d. refl;
  pending-claim = claim_pending;
  claimed = claim_absent;
  latest-add = λ s k j limit v. refl;
  set_number-pending = λ k n v. record { entries = λ s e. refl };
  set_word-pending = λ k w v. record { entries = λ s e. refl };
  pending-del = λ s k e. refl;
  add-pending = λ k limit v. record { entries = λ s e. refl };
  add-hashes = λ k limit v. record { numbers = λ s j n. refl; words = λ s j w. refl };
  ack-hashes = λ e. record { numbers = λ s j n. refl; words = λ s j w. refl };
  claim-hashes = λ e consumer idle. record {
    numbers = λ s k n. ap (λ f. f k n) (claim_keeps s e consumer idle).0;
    words = λ s k w. ap (λ f. f k w) (claim_keeps s e consumer idle).1;
  };
  expire-hashes = λ k seconds pos. record { numbers = λ s j n. refl; words = λ s j w. refl };
  expire-pending = λ k seconds. record { entries = λ s e. refl };
  expire-latest = λ k seconds pos. record { newest = λ s j. refl };
  set_number-latest = λ k n v. record { newest = λ s j. refl };
  set_word-latest = λ k w v. record { newest = λ s j. refl };
  ack-latest = λ e. record { newest = λ s j. refl };
  latest-del = λ s k j. refl;
  persist-hashes = λ k. record { numbers = λ s j n. refl; words = λ s j w. refl };
  persist-pending = λ k. record { entries = λ s e. refl };
}
