-- ===== src/Audit/Examples.antt =====
-- python/apexquant-audit/src/apexquant-audit
-- A log of two events with a toy digest, and the theorems at it.
use lord_hermes.Common.{◌≡◌, refl, ◌↔◌, true, false, [], ◌∷◌, ◌++◌, none, String, nat_eq, ok}
use lord_hermes.Common.Text.{Text, codes, text_eq, text_beq}
use lord_hermes.Audit.Hashing.{
  AuditFields, Payload, PayloadValue, null, number, text, object, genesis_hash, verify_chain,
}
use lord_hermes.Audit.Chain.{IsChain, first_seq, verify_chain_iff}
use lord_hermes.Audit.Repository.{
  Storage, AuditTable, record_of, new_row, append_event, find_event, breaks_idempotency,
}
use lord_hermes.Audit.Appends.{
  IsLog, append_event-IsLog, append_event_twice, resend_breaks_verification,
}

-- The length of the payload's texts, in unary.
toy_value : PayloadValue Unit → Text
toy_value null = []
toy_value (number n) = n ∷ []
toy_value (text t) = t
toy_value (object d) = []

toy_digest : Payload Unit → Text
toy_digest [] = []
toy_digest ((key, value) ∷ rest) = toy_value value ++ toy_digest rest

abbrev event : String → AuditFields Unit
event id = record {
  event_id = codes id;
  occurred_at = record {
    year = 2026;
    month = 1;
    day = 2;
    hour = 3;
    minute = 4;
    second = 5;
    microsecond = 6;
  };
  actor_type = codes "SERVICE";
  actor_id = none;
  principal_name = none;
  service_name = codes "svc";
  plane = codes "CONTROL";
  action = codes "start";
  resource_type = [];
  resource_id = [];
  decision = codes "INFO";
  reason = [];
  severity = codes "INFO";
  request_id = none;
  correlation_id = none;
  trace_id = none;
  idempotency_key = none;
  event_data = tt;
}

-- A table that gives back what it was given.
abbrev exact : Storage Unit
exact = record { timestamp = λ t. t; json = λ d. d }

abbrev empty : AuditTable Unit
empty = record { rows = []; next_seq = 1 }

empty-IsLog : IsLog toy_digest exact empty
empty-IsLog = (tt, refl)

abbrev one : AuditTable Unit
one = record { rows = new_row toy_digest exact empty (event "a") ∷ []; next_seq = 2 }

one-IsLog : IsLog toy_digest exact one
one-IsLog = ((refl, (refl, (refl, tt))), refl)

verify_chain_iff_example :
    ((verify_chain toy_digest one.rows genesis_hash).ok ≡ true)
    ↔ IsChain toy_digest (first_seq toy_digest one.rows) genesis_hash one.rows
verify_chain_iff_example = verify_chain_iff toy_digest one.rows genesis_hash

append_event-IsLog_example :
    IsLog toy_digest exact (append_event toy_digest exact one (event "b")).0
    × ((verify_chain toy_digest
          (append_event toy_digest exact one (event "b")).0.rows
          genesis_hash).ok
        ≡ true)
unfolding find_event breaks_idempotency text_beq
append_event-IsLog_example =
    append_event-IsLog toy_digest exact one (event "b") one-IsLog (refl, refl) refl

append_event_twice_example :
    ((append_event toy_digest exact
        (append_event toy_digest exact one (event "b")).0
        (event "b")).0.rows
      ≡ (append_event toy_digest exact one (event "b")).0.rows)
    × ((append_event toy_digest exact
          (append_event toy_digest exact one (event "b")).0
          (event "b")).1
        ≡ ok (record_of (new_row toy_digest exact one (event "b"))))
unfolding append_event find_event breaks_idempotency text_beq
append_event_twice_example =
    append_event_twice toy_digest exact one (event "b")
      (record_of (new_row toy_digest exact one (event "b"))) refl

resend_breaks_verification_example :
    (verify_chain toy_digest
      (append_event toy_digest exact
        (append_event toy_digest exact one (event "a")).0
        (event "b")).0.rows
      genesis_hash).ok
    ≡ false
unfolding find_event breaks_idempotency text_beq
resend_breaks_verification_example =
    resend_breaks_verification toy_digest exact one (event "a") (event "b")
      (new_row toy_digest exact empty (event "a")) one-IsLog refl (refl, refl)
