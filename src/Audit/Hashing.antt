-- ===== src/Audit/Hashing.antt =====
-- python/apexquant-audit/src/apexquant-audit/hashing.py. `digest` is the hexadecimal SHA-256 of the
-- payload's canonical JSON, and `Data` the JSON objects; a text is the list of its code points.
use lord_hermes.Common.{
  ℕ, ◌+◌, ◌/◌, ◌%◌, zero, suc, Bool, not, List, [], ◌∷◌, ◌++◌, Option, none, some, String, ◌==◌,
  nat_eq, length, is_nonempty, if◌then◌else◌,
}
use lord_hermes.Common.Text.{Text, text_eq}

-- "0" * 64
unfoldable pub repeat : ℕ → ℕ → Text
repeat zero c = []
repeat (suc n) c = c ∷ repeat n c

pub genesis_hash : Text
unfolding repeat
genesis_hash = repeat 64 b'0'

abbrev audit_schema_version : ℕ
audit_schema_version = 1

pub record Datetime : Type 0 where
  pub year : ℕ
  pub month : ℕ
  pub day : ℕ
  pub hour : ℕ
  pub minute : ℕ
  pub second : ℕ
  pub microsecond : ℕ

pub record AuditFields (Data : Type 0) : Type 0 where
  pub event_id : Text
  pub occurred_at : Datetime
  pub actor_type : Text
  pub actor_id : Option Text
  pub principal_name : Option Text
  pub service_name : Text
  pub plane : Text
  pub action : Text
  pub resource_type : Text
  pub resource_id : Text
  pub decision : Text
  pub reason : Text
  pub severity : Text
  pub request_id : Option Text
  pub correlation_id : Option Text
  pub trace_id : Option Text
  pub idempotency_key : Option Text
  pub event_data : Data

pub data PayloadValue (Data : Type 0) : Type 0 where
  null : PayloadValue Data
  number : ℕ → PayloadValue Data
  text : Text → PayloadValue Data
  object : Data → PayloadValue Data

-- The last digits of a number, padded with zeros.
pad : ℕ → ℕ → Text
pad zero n = []
pad (suc width) n = pad width (n / 10) ++ (48 + n % 10) ∷ []

-- value.strftime("%Y-%m-%dT%H:%M:%S.%fZ")
format_timestamp : Datetime → Text
unfolding pad
format_timestamp value =
    pad 4 value.year
    ++ b'-' ∷ pad 2 value.month
    ++ b'-' ∷ pad 2 value.day
    ++ b'T' ∷ pad 2 value.hour
    ++ b':' ∷ pad 2 value.minute
    ++ b':' ∷ pad 2 value.second
    ++ b'.' ∷ pad 6 value.microsecond
    ++ b'Z' ∷ []

or_null : {Data : Type 0} → Option Text → PayloadValue Data
or_null none = null
or_null (some value) = text value

abbrev pub Payload : Type 0 → Type 0
Payload Data = List (String × PayloadValue Data)

pub canonical_payload : {Data : Type 0} → AuditFields Data → Text → Payload Data
unfolding format_timestamp or_null
canonical_payload fields prev_hash =
    ("audit_schema_version", number audit_schema_version)
    ∷ ("event_id", text fields.event_id)
    ∷ ("occurred_at", text (format_timestamp fields.occurred_at))
    ∷ ("actor_type", text fields.actor_type)
    ∷ ("actor_id", or_null fields.actor_id)
    ∷ ("principal_name", or_null fields.principal_name)
    ∷ ("service_name", text fields.service_name)
    ∷ ("plane", text fields.plane)
    ∷ ("action", text fields.action)
    ∷ ("resource_type", text fields.resource_type)
    ∷ ("resource_id", text fields.resource_id)
    ∷ ("decision", text fields.decision)
    ∷ ("reason", text fields.reason)
    ∷ ("severity", text fields.severity)
    ∷ ("request_id", or_null fields.request_id)
    ∷ ("correlation_id", or_null fields.correlation_id)
    ∷ ("trace_id", or_null fields.trace_id)
    ∷ ("idempotency_key", or_null fields.idempotency_key)
    ∷ ("data", object fields.event_data)
    ∷ ("prev_hash", text prev_hash)
    ∷ []

-- A row of audit.events: `fields_from_row` reads the columns that stand in `fields`.
pub record Row (Data : Type 0) : Type 0 where
  pub event_seq : ℕ
  pub fields : AuditFields Data
  pub prev_hash : Text
  pub event_hash : Text

pub data ChainViolation : Type 0 where
  sequence_gap : (event_seq expected : ℕ) → ChainViolation
  prev_hash_mismatch : (event_seq : ℕ) → ChainViolation
  event_hash_mismatch : (event_seq : ℕ) → ChainViolation

pub record ChainReport : Type 0 where
  pub ok : Bool
  pub events_checked : ℕ
  pub violations : List ChainViolation

abbrev pub unless : Bool → ChainViolation → List ChainViolation
unless test violation = if test then [] else violation ∷ []

-- The number that the row should have: its own for the first row.
abbrev pub expected_at : Option ℕ → ℕ → ℕ
expected_at none event_seq = event_seq
expected_at (some expected) event_seq = expected

-- (expected_seq or int(row["event_seq"])) + 1
abbrev pub expected_after : ℕ → ℕ → ℕ
expected_after zero event_seq = suc event_seq
expected_after (suc n) event_seq = suc (suc n)

module _ {Data : Type 0} (digest : Payload Data → Text) where
  unfoldable pub compute_event_hash : AuditFields Data → Text → Text
  compute_event_hash fields prev_hash = digest (canonical_payload fields prev_hash)

  -- The loop of `verify_chain` over the rows that are left.
  unfoldable pub check_rows : Option ℕ → Text → List (Row Data) → List ChainViolation
  check_rows expected_seq prev_hash [] = []
  check_rows expected_seq prev_hash (row ∷ rest) =
      let expected = expected_at expected_seq row.event_seq in
      unless (row.event_seq == expected) (sequence_gap row.event_seq expected)
      ++ (unless (row.prev_hash == prev_hash) (prev_hash_mismatch row.event_seq)
          ++ (unless (row.event_hash == compute_event_hash row.fields prev_hash)
                (event_hash_mismatch row.event_seq)
              ++ check_rows (some (expected_after expected row.event_seq)) row.event_hash rest))

  unfoldable pub verify_chain : List (Row Data) → Text → ChainReport
  verify_chain rows initial_prev_hash =
      let violations = check_rows none initial_prev_hash rows in
      record {
        ok = not (is_nonempty violations);
        events_checked = length rows;
        violations = violations;
      }
