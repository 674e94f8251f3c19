-- ===== src/Audit/Repository.antt =====
-- python/apexquant-audit/src/apexquant-audit/repository.py: the table audit.events with the statements
-- that append to it and read the range to verify. `event_seq` is an identity column: Postgres takes
-- the next number before it looks for a conflict, and a number that was taken is not given back. The
-- table's CHECK constraints, which restate the request model, are left out.
use lord_hermes.Common.{
  ℕ, ◌-◌, Bool, true, false, ◌&&◌, List, [], ◌∷◌, ◌++◌, Option, none, some, ◌==◌, nat_eq, leb, any,
  keep, take, suc, if◌then◌else◌, Outcome, ok, err,
}
use lord_hermes.Common.Text.{Text, text_eq}
use lord_hermes.Audit.Hashing.{
  Datetime, AuditFields, Payload, Row, genesis_hash, compute_event_hash,
}

-- The rows in the order of their numbers, and the next number.
pub record AuditTable (Data : Type 0) : Type 0 where
  pub rows : List (Row Data)
  pub next_seq : ℕ

pub record AuditEventRecord : Type 0 where
  pub event_seq : ℕ
  pub event_id : Text
  pub occurred_at : Datetime
  pub event_hash : Text

pub data AuditRepositoryError : Type 0 where
  append_failed : AuditRepositoryError
  unique_violation : AuditRepositoryError
  previous_event_missing : ℕ → AuditRepositoryError

abbrev pub record_of : {Data : Type 0} → Row Data → AuditEventRecord
record_of row = record {
  event_seq = row.event_seq;
  event_id = row.fields.event_id;
  occurred_at = row.fields.occurred_at;
  event_hash = row.event_hash;
}

-- SELECT ... ORDER BY event_seq DESC LIMIT 1, or the hash that is given for an empty table.
abbrev pub last_hash : {Data : Type 0} → Text → List (Row Data) → Text
last_hash prev [] = prev
last_hash prev (row ∷ rest) = last_hash row.event_hash rest

-- SELECT ... WHERE event_id = %s
unfoldable pub find_event : {Data : Type 0} → Text → List (Row Data) → Option (Row Data)
find_event event_id [] = none
find_event event_id (row ∷ rest) =
    let other = find_event event_id rest in
    if row.fields.event_id == event_id then some row else other

abbrev same_key : Option Text → Option Text → Bool
same_key none key = false
same_key (some k) none = false
same_key (some k) (some l) = k == l

-- The unique index on (service_name, idempotency_key), where the key is not null.
unfoldable pub breaks_idempotency : {Data : Type 0} → AuditFields Data → List (Row Data) → Bool
breaks_idempotency fields rows =
    any
      (λ row.
        row.fields.service_name == fields.service_name
        && same_key row.fields.idempotency_key fields.idempotency_key)
      rows

-- INSERT ... ON CONFLICT (event_id) DO NOTHING, once the conflict is known.
abbrev pub settle :
    {Data : Type 0}
    → Option (Row Data)
    → Bool
    → Row Data
    → List (Row Data)
    → List (Row Data) × Outcome AuditRepositoryError AuditEventRecord
settle (some existing) broken row rows = (rows, ok (record_of existing))
settle none true row rows = (rows, err unique_violation)
settle none false row rows = (rows ++ row ∷ [], ok (record_of row))

-- row = SELECT event_hash ... WHERE event_seq = %s
unfoldable pub find_seq : {Data : Type 0} → ℕ → List (Row Data) → Option (Row Data)
find_seq seq [] = none
find_seq seq (row ∷ rest) =
    let other = find_seq seq rest in if row.event_seq == seq then some row else other

-- max(1, min(limit, 10000))
abbrev clamp : ℕ → ℕ
clamp limit = if leb limit 1 then 1 else if leb 10000 limit then 10000 else limit

abbrev up_to : Option ℕ → ℕ → Bool
up_to none seq = true
up_to (some end_seq) seq = leb seq end_seq

abbrev pub select_range : {Data : Type 0} → ℕ → Option ℕ → ℕ → List (Row Data) → List (Row Data)
select_range start end_seq limit rows =
    take (clamp limit) (keep (λ row. leb start row.event_seq && up_to end_seq row.event_seq) rows)

abbrev from_previous :
    {Data : Type 0}
    → ℕ
    → Option (Row Data)
    → List (Row Data)
    → Outcome AuditRepositoryError (Text × List (Row Data))
from_previous start none rows = err (previous_event_missing start)
from_previous start (some row) rows = ok (row.event_hash, rows)

unfoldable pub fetch_verification_range :
    {Data : Type 0}
    → AuditTable Data
    → Option ℕ
    → Option ℕ
    → ℕ
    → Outcome AuditRepositoryError (Text × List (Row Data))
fetch_verification_range table none end_seq limit =
    ok (genesis_hash, select_range 1 end_seq limit table.rows)
fetch_verification_range table (some start) end_seq limit =
    if leb start 1
    then ok (genesis_hash, select_range 1 end_seq limit table.rows)
    else from_previous start (find_seq (start - 1) table.rows)
        (select_range start end_seq limit table.rows)

-- What TIMESTAMPTZ and JSONB give back of a value: not always the value, since JSONB has numbers of
-- its own (1e20 comes back without its exponent) and one value for each key.
pub record Storage (Data : Type 0) : Type 0 where
  pub timestamp : Datetime → Datetime
  pub json : Data → Data

-- The fields of an event as its row gives them back.
abbrev pub stored : {Data : Type 0} → Storage Data → AuditFields Data → AuditFields Data
stored storage fields = record fields {
  occurred_at = storage.timestamp fields.occurred_at;
  event_data = storage.json fields.event_data;
}

module _ {Data : Type 0} (digest : Payload Data → Text) (storage : Storage Data) where
  abbrev pub new_row : AuditTable Data → AuditFields Data → Row Data
  new_row table fields =
      let prev_hash = last_hash genesis_hash table.rows in
      record {
        event_seq = table.next_seq;
        fields = stored storage fields;
        prev_hash = prev_hash;
        event_hash = compute_event_hash digest fields prev_hash;
      }

  unfoldable pub append_event :
      AuditTable Data
      → AuditFields Data
      → AuditTable Data × Outcome AuditRepositoryError AuditEventRecord
  append_event table fields =
      let done =
        settle (find_event fields.event_id table.rows) (breaks_idempotency fields table.rows)
          (new_row table fields) table.rows in
      (record { rows = done.0; next_seq = suc table.next_seq }, done.1)
