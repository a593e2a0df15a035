-- ===== src/Session/Errors.antt =====
-- ErrorStore of include/crowdy/session/stores.hpp: errors of the server, attributed to what was sent.
-- The callback is the log `reported`, newest first; the clock's readings are arguments.
use mathlib.Core.Logic.{ite}
use crowdy_cpp.Base.{
  ℕ, zero, suc, ◌+◌, ◌%◌, ◌^◌, ◌≡◌, ◌<◌, inl, inr, refl, sym, ap, ◌∙◌, Option, none, some, List, [],
  ◌∷◌, length, take, replicate, set, get_or, get_or-set_self, get_or-set_ne, length-set,
  length-take, take_all, take-cons-take, All, ltb→lt, ltb_false→le, min, ltb, if◌then◌else◌,
  Bool-cases, ite_yes, ite_no, ℕ_discrete, arith,
}
use crowdy_cpp.Base.Int.{ℤ}
use crowdy_cpp.Core.Le.{Bytes}
use crowdy_cpp.Wire.Control.{GenericErrorView}
use crowdy_cpp.Session.Actors.{Bytes_discrete}

pub data SendKind : Type 0 where
  unknown actor_update voxel_update audio text client_event : SendKind
  generic_spatial single_actor channel heartbeat : SendKind

pub SendKind_discrete : Discrete SendKind
SendKind_discrete = hlevel

pub record SentPacketRecord : Type 0 where
  pub kind : SendKind
  pub actor_uuid : Option Bytes

pub record AttributedError : Type 0 where
  pub code : ℕ
  pub sequence : ℕ
  pub kind : SendKind
  pub actor_uuid : Option Bytes
  pub at_ms : ℤ

abbrev pub max_errors : ℕ
max_errors = 64

pub record ErrorStore : Type 0 where
  pub sent : List (Option SentPacketRecord)
  pub recent : List AttributedError
  pub total : ℕ
  pub reported : List AttributedError

pub error_store : ErrorStore
error_store = record { sent = replicate 256 none; recent = []; total = 0; reported = [] }

pub record_send : ErrorStore → ℕ → SendKind → Option Bytes → ErrorStore
record_send s sequence kind actor_uuid = record s {
  sent = set s.sent sequence (some (record { kind = kind; actor_uuid = actor_uuid }));
}

-- `send ? send->kind : SendKind::Unknown`
abbrev pub kind_of : Option SentPacketRecord → SendKind
kind_of none = SendKind.unknown
kind_of (some r) = r.kind

abbrev pub uuid_of : Option SentPacketRecord → Option Bytes
uuid_of none = none
uuid_of (some r) = r.actor_uuid

pub attribute : Option SentPacketRecord → GenericErrorView → ℤ → AttributedError
attribute sent e now = record {
  code = e.code;
  sequence = e.sequence;
  kind = kind_of sent;
  actor_uuid = uuid_of sent;
  at_ms = now;
}

-- `recent_.pop_back()`
abbrev pub pop_back : List AttributedError → List AttributedError
pop_back [] = []
pop_back (x ∷ []) = []
pop_back (x ∷ y ∷ xs) = x ∷ pop_back (y ∷ xs)

pub ingest : ErrorStore → GenericErrorView → ℤ → ErrorStore
ingest s e now =
    let err = attribute (get_or s.sent e.sequence none) e now in
    let recent = err ∷ s.recent in
    record s {
      recent = if ltb max_errors (length recent) then pop_back recent else recent;
      total = (s.total + 1) % 2 ^ 64;
      reported = err ∷ s.reported;
    }

pub recent_of : ErrorStore → ℕ → List AttributedError
recent_of s limit = take (min limit (length s.recent)) s.recent

pub last : ErrorStore → Option AttributedError
last s = elim s.recent [ [] ↦ none | e ∷ _ ↦ some e ]

-- The loops of the two `lastFor`.
abbrev pub first_of_kind : SendKind → List AttributedError → Option AttributedError
first_of_kind kind [] = none
first_of_kind kind (e ∷ errors) =
    ite (SendKind_discrete e.kind kind) (some e) (first_of_kind kind errors)

abbrev pub is_about :
    Bytes → Option Bytes → Option AttributedError → Option AttributedError → Option AttributedError
is_about uuid none found rest = rest
is_about uuid (some u) found rest = ite (Bytes_discrete u uuid) found rest

abbrev pub first_about : Bytes → List AttributedError → Option AttributedError
first_about uuid [] = none
first_about uuid (e ∷ errors) = is_about uuid e.actor_uuid (some e) (first_about uuid errors)

pub last_for_kind : ErrorStore → SendKind → Option AttributedError
last_for_kind s kind = first_of_kind kind s.recent

pub last_for_uuid : ErrorStore → Bytes → Option AttributedError
last_for_uuid s uuid = first_about uuid s.recent

pub clear : ErrorStore → ErrorStore
clear s = record s { recent = [] }

pub data ErrorCall : Type 0 where
  record_send_call : ℕ → SendKind → Option Bytes → ErrorCall
  ingest_call : GenericErrorView → ℤ → ErrorCall
  clear_call : ErrorCall

abbrev pub call : ErrorCall → ErrorStore → ErrorStore
call (record_send_call sequence kind actor_uuid) s = record_send s sequence kind actor_uuid
call (ingest_call e now) s = ingest s e now
call clear_call s = clear s

-- The store after the calls, the latest first.
abbrev pub run : List ErrorCall → ErrorStore
run [] = error_store
run (c ∷ calls) = call c (run calls)

-- The latest send with this sequence.
abbrev pub sent_with : ℕ → List ErrorCall → Option SentPacketRecord
sent_with i [] = none
sent_with i (record_send_call sequence kind actor_uuid ∷ calls) =
    ite (ℕ_discrete sequence i) (some (record { kind = kind; actor_uuid = actor_uuid }))
      (sent_with i calls)
sent_with i (ingest_call e now ∷ calls) = sent_with i calls
sent_with i (clear_call ∷ calls) = sent_with i calls

-- The record of an error after this send, of its kind and actor; without a send, of neither.
abbrev error_after : Option SentPacketRecord → GenericErrorView → ℤ → AttributedError
error_after none e now = record {
  code = e.code;
  sequence = e.sequence;
  kind = SendKind.unknown;
  actor_uuid = none;
  at_ms = now;
}
error_after (some r) e now = record {
  code = e.code;
  sequence = e.sequence;
  kind = r.kind;
  actor_uuid = r.actor_uuid;
  at_ms = now;
}

attribute-error_after :
    (sent : Option SentPacketRecord) (e : GenericErrorView) (now : ℤ)
    → attribute sent e now ≡ error_after sent e now
unfolding attribute
attribute-error_after none e now = refl
attribute-error_after (some r) e now = refl

-- The errors since the last `clear`, each attributed to the latest send before it with its sequence.
abbrev pub attributed : List ErrorCall → List AttributedError
attributed [] = []
attributed (record_send_call sequence kind actor_uuid ∷ calls) = attributed calls
attributed (ingest_call e now ∷ calls) =
    error_after (sent_with e.sequence calls) e now ∷ attributed calls
attributed (clear_call ∷ calls) = []

-- The number of errors since the start.
abbrev pub error_count : List ErrorCall → ℕ
error_count [] = 0
error_count (record_send_call sequence kind actor_uuid ∷ calls) = error_count calls
error_count (ingest_call e now ∷ calls) = suc (error_count calls)
error_count (clear_call ∷ calls) = error_count calls

-- The sequence of an error is a byte.
abbrev pub HasByteSequence : ErrorCall → Type 0
HasByteSequence (record_send_call sequence kind actor_uuid) = Unit {0}
HasByteSequence (ingest_call e now) = e.sequence < 256
HasByteSequence clear_call = Unit {0}

sent-run-length : (calls : List ErrorCall) → length (run calls).sent ≡ 256
unfolding error_store record_send ingest clear
sent-run-length [] = refl
sent-run-length (record_send_call sequence kind actor_uuid ∷ calls) =
    length-set (run calls).sent sequence _ ∙ sent-run-length calls
sent-run-length (ingest_call e now ∷ calls) = sent-run-length calls
sent-run-length (clear_call ∷ calls) = sent-run-length calls

get_or-none :
    (n i : ℕ) → get_or (replicate n (let r : Option SentPacketRecord = none in r)) i none ≡ none
get_or-none zero i = refl
get_or-none (suc n) zero = refl
get_or-none (suc n) (suc i) = get_or-none n i

sent-run :
    (calls : List ErrorCall) (i : ℕ) → i < 256 → get_or (run calls).sent i none ≡ sent_with i calls
unfolding error_store record_send ingest clear
sent-run [] i h = get_or-none 256 i
sent-run (record_send_call sequence kind actor_uuid ∷ calls) i h =
    let r : Option SentPacketRecord = some (record { kind = kind; actor_uuid = actor_uuid }) in
    elim (ℕ_discrete sequence i) [
      | yes same ↦
          ap (λ j. get_or (set (run calls).sent j r) i none) same
          ∙ get_or-set_self (run calls).sent i r none (omega (arith, sent-run-length calls, h))
          ∙ sym (ite_yes (ℕ_discrete sequence i) r (sent_with i calls) same)
      | no apart ↦
          get_or-set_ne (run calls).sent sequence i r none apart
          ∙ sent-run calls i h
          ∙ sym (ite_no (ℕ_discrete sequence i) r (sent_with i calls) apart)
    ]
sent-run (ingest_call e now ∷ calls) i h = sent-run calls i h
sent-run (clear_call ∷ calls) i h = sent-run calls i h

pop_back-take : (n : ℕ) (xs : List AttributedError) → length xs ≡ suc n → pop_back xs ≡ take n xs
pop_back-take n [] e = absurd (omega (arith, e))
pop_back-take zero (x ∷ []) e = refl
pop_back-take (suc n) (x ∷ []) e = absurd (omega (arith, e))
pop_back-take zero (x ∷ y ∷ xs) e = absurd (omega (arith, e))
pop_back-take (suc n) (x ∷ y ∷ xs) e = ap (λ r. x ∷ r) (pop_back-take n (y ∷ xs) (omega (arith, e)))

-- The ring of errors keeps the latest 64.
retained :
    (err : AttributedError) (xs : List AttributedError)
    → (let r = err ∷ take max_errors xs in if ltb max_errors (length r) then pop_back r else r)
      ≡ take max_errors (err ∷ xs)
retained err xs =
    let r : List AttributedError = err ∷ take max_errors xs in
    let k : length r ≡ suc (min max_errors (length xs)) = ap suc (length-take max_errors xs) in
    elim (Bool-cases (ltb max_errors (length r))) [
      | inl full ↦
          ap (λ b. if b then pop_back r else r) full
          ∙ pop_back-take max_errors r (omega (arith, k, ltb→lt max_errors (length r) full))
          ∙ take-cons-take max_errors err xs
      | inr room ↦
          ap (λ b. if b then pop_back r else r) room
          ∙ sym (take_all max_errors r (ltb_false→le room))
          ∙ take-cons-take max_errors err xs
    ]

recent-run :
    (calls : List ErrorCall)
    → All HasByteSequence calls
    → (run calls).recent ≡ take max_errors (attributed calls)
unfolding error_store record_send ingest clear
recent-run [] h = refl
recent-run (record_send_call sequence kind actor_uuid ∷ calls) h = recent-run calls h.1
recent-run (ingest_call e now ∷ calls) h =
    let err : AttributedError = error_after (sent_with e.sequence calls) e now in
    ap (λ f. let r = f ∷ (run calls).recent in if ltb max_errors (length r) then pop_back r else r)
      (ap (λ f. attribute f e now) (sent-run calls e.sequence h.0)
        ∙ attribute-error_after (sent_with e.sequence calls) e now)
    ∙ ap (λ xs. let r = err ∷ xs in if ltb max_errors (length r) then pop_back r else r)
        (recent-run calls h.1)
    ∙ retained err (attributed calls)
recent-run (clear_call ∷ calls) h = refl

total-run : (calls : List ErrorCall) → (run calls).total ≡ error_count calls % 2 ^ 64
unfolding error_store record_send ingest clear
total-run [] = refl
total-run (record_send_call sequence kind actor_uuid ∷ calls) = total-run calls
total-run (ingest_call e now ∷ calls) = omega (arith, total-run calls)
total-run (clear_call ∷ calls) = total-run calls

-- The store's state as its calls determine it.
pub record IsAttributed (calls : List ErrorCall) : Type 0 where
  pub recent : (run calls).recent ≡ take max_errors (attributed calls)
  pub total : (run calls).total ≡ error_count calls % 2 ^ 64

-- After any calls of a new store whose errors carry sequences of one byte: it has the latest 64
-- errors since the last `clear`, newest first, each with the kind and the actor of the latest send
-- recorded before it under its sequence (none: unknown, no actor); and `total` counts all the errors,
-- those before a `clear` too, modulo 2^64.
pub run-IsAttributed : (calls : List ErrorCall) → All HasByteSequence calls → IsAttributed calls
run-IsAttributed calls h = record { recent = recent-run calls h; total = total-run calls }
