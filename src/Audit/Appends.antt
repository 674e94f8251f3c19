-- ===== src/Audit/Appends.antt =====
-- python/apexquant-audit/src/apexquant-audit/repository.py
-- What appending to the audit log does to its chain.
use lord_hermes.Common.{
  ℕ, ◌+◌, ◌≡◌, refl, sym, ap, ◌∙◌, subst, ◌⊎◌, inl, inr, Bool, true, false, List, [], ◌∷◌, ◌++◌,
  none, some, ◌==◌, nat_eq, suc, length, length-append, if◌then◌else◌, arith, Outcome, ok, err,
  Option-cases, Bool-cases,
}
use lord_hermes.Common.Text.{Text, text_eq, text_beq_iff}
use lord_hermes.Audit.Hashing.{
  AuditFields, Payload, Row, genesis_hash, compute_event_hash, verify_chain,
}
use lord_hermes.Audit.Chain.{IsChain, first_seq, verify_chain_iff}
use lord_hermes.Audit.Repository.{
  AuditTable, AuditEventRecord, AuditRepositoryError, unique_violation, record_of, last_hash,
  find_event, breaks_idempotency, new_row, append_event, Storage, stored,
}

module _ {Data : Type 0} (digest : Payload Data → Text) (storage : Storage Data) where
  -- A row fits at the end of a chain.
  abbrev pub Fits : ℕ → Text → List (Row Data) → Row Data → Type 0
  Fits seq prev rows row =
      (row.event_seq ≡ seq + length rows)
      × ((row.prev_hash ≡ last_hash prev rows)
          × (row.event_hash ≡ compute_event_hash digest row.fields (last_hash prev rows)))

  IsChain-snoc :
      (rows : List (Row Data)) (row : Row Data) (seq : ℕ) (prev : Text)
      → IsChain digest seq prev rows
      → Fits seq prev rows row
      → IsChain digest seq prev (rows ++ row ∷ [])
  IsChain-snoc [] row seq prev c (n, (p, h)) = (omega arith, (p, (h, tt)))
  IsChain-snoc (r ∷ rows) row seq prev (n, (p, (h, c))) (m, (q, k)) =
      (n, (p, (h, IsChain-snoc rows row (suc seq) r.event_hash c (omega arith, (q, k)))))

  IsChain-last :
      (rows : List (Row Data)) (row : Row Data) (seq : ℕ) (prev : Text)
      → IsChain digest seq prev (rows ++ row ∷ [])
      → row.event_seq ≡ seq + length rows
  IsChain-last [] row seq prev c = omega (arith, c.0)
  IsChain-last (r ∷ rows) row seq prev c =
      omega (arith, IsChain-last rows row (suc seq) r.event_hash c.1.1.1)

  -- The whole log is a chain from the genesis hash, numbered from 1, and the next number follows.
  abbrev pub IsLog : AuditTable Data → Type 0
  IsLog table = IsChain digest 1 genesis_hash table.rows × (table.next_seq ≡ 1 + length table.rows)

  abbrev pub IsFresh : AuditTable Data → AuditFields Data → Type 0
  IsFresh table fields =
      (find_event fields.event_id table.rows ≡ none)
      × (breaks_idempotency fields table.rows ≡ false)

  append-fresh :
      (table : AuditTable Data) (fields : AuditFields Data)
      → IsFresh table fields
      → append_event digest storage table fields ≡ (
        record {
          rows = table.rows ++ new_row digest storage table fields ∷ [];
          next_seq = suc table.next_seq;
        },
        ok (record_of (new_row digest storage table fields)),
      )
  unfolding append_event
  append-fresh table fields (f, b) = rw (f, b) refl

  append-duplicate :
      (table : AuditTable Data) (fields : AuditFields Data) (row : Row Data)
      → find_event fields.event_id table.rows ≡ some row
      → append_event digest storage table fields
        ≡ (record { rows = table.rows; next_seq = suc table.next_seq }, ok (record_of row))
  unfolding append_event
  append-duplicate table fields row f = rw f refl

  own_start :
      (rows : List (Row Data)) (seq : ℕ) (prev : Text)
      → IsChain digest seq prev rows
      → IsChain digest (first_seq digest rows) prev rows
  own_start [] seq prev c = tt
  own_start (row ∷ rest) seq prev c = subst (λ s. IsChain digest s prev (row ∷ rest)) (sym c.0) c

  abbrev added : AuditTable Data → AuditFields Data → AuditTable Data
  added table fields = record {
    rows = table.rows ++ new_row digest storage table fields ∷ [];
    next_seq = suc table.next_seq;
  }

  added-IsLog :
      (table : AuditTable Data) (fields : AuditFields Data)
      → stored storage fields ≡ fields
      → IsLog table
      → IsLog (added table fields)
  added-IsLog table fields survives (c, n) = (
    IsChain-snoc table.rows (new_row digest storage table fields) 1 genesis_hash c (
      n,
      (
        refl,
        ap (λ f. compute_event_hash digest f (last_hash genesis_hash table.rows)) (sym survives),
      ),
    ),
    omega (arith, length-append table.rows (new_row digest storage table fields ∷ [])),
  )

  -- Appending an event whose id and idempotency key are new, and whose timestamp and data come back
  -- from the table as they were, to a log that is a chain keeps it a chain, and the log that results
  -- verifies.
  pub append_event-IsLog :
      (table : AuditTable Data) (fields : AuditFields Data)
      → IsLog table
      → IsFresh table fields
      → stored storage fields ≡ fields
      → let after = (append_event digest storage table fields).0 in
        IsLog after × ((verify_chain digest after.rows genesis_hash).ok ≡ true)
  append_event-IsLog table fields log fresh survives =
      subst (λ r. IsLog r.0 × ((verify_chain digest r.0.rows genesis_hash).ok ≡ true))
        (sym (append-fresh table fields fresh))
        (
          after,
          (verify_chain_iff digest (added table fields).rows genesis_hash).1
              (own_start (added table fields).rows 1 genesis_hash after.0),
        )
    where
      after : IsLog (added table fields)
      after = added-IsLog table fields survives log

  find_event-append :
      (id : Text) (rows : List (Row Data)) (row : Row Data)
      → find_event id rows ≡ none
      → row.fields.event_id ≡ id
      → find_event id (rows ++ row ∷ []) ≡ some row
  unfolding find_event
  find_event-append id [] row h e = rw ((text_beq_iff row.fields.event_id id).1 e) refl
  find_event-append id (r ∷ rows) row h e =
      passed (r.fields.event_id == id) h
        (find_event-append id rows row (passes (r.fields.event_id == id) h) e)
    where
      passes :
          (b : Bool) → (if b then some r else find_event id rows) ≡ none → find_event id rows ≡ none
      passes true k = absurd (cc k)
      passes false k = k

      passed :
          (b : Bool)
          → (if b then some r else find_event id rows) ≡ none
          → find_event id (rows ++ row ∷ []) ≡ some row
          → (if b then some r else find_event id (rows ++ row ∷ [])) ≡ some row
      passed true k f = absurd (cc k)
      passed false k f = f

  started :
      (id : Text) (rows : List (Row Data)) (found row : Row Data)
      → IsChain digest 1 genesis_hash rows
      → find_event id rows ≡ some found
      → first_seq digest (rows ++ row ∷ []) ≡ 1
  unfolding find_event
  started id [] found row c f = absurd (cc f)
  started id (r ∷ rows) found row c f = c.0

  append-broken :
      (table : AuditTable Data) (fields : AuditFields Data)
      → find_event fields.event_id table.rows ≡ none
      → breaks_idempotency fields table.rows ≡ true
      → (append_event digest storage table fields).1 ≡ err unique_violation
  unfolding append_event
  append-broken table fields f b = rw (f, b) refl

  -- What the second of two appends must give.
  abbrev Repeats : AuditFields Data → AuditEventRecord → AuditTable Data → Type 0
  Repeats fields given first =
      ((append_event digest storage first fields).0.rows ≡ first.rows)
      × ((append_event digest storage first fields).1 ≡ ok given)

  stored-Repeats :
      (fields : AuditFields Data) (given : AuditEventRecord) (first : AuditTable Data)
      (row : Row Data)
      → find_event fields.event_id first.rows ≡ some row
      → ◌≡◌ {A = Outcome AuditRepositoryError AuditEventRecord} (ok (record_of row)) (ok given)
      → Repeats fields given first
  stored-Repeats fields given first row f e =
      subst (λ r. (r.0.rows ≡ first.rows) × (r.1 ≡ ok given))
        (sym (append-duplicate first fields row f)) (refl, e)

  -- Sending an event again, after an append that gave a record, changes no row and gives the same
  -- record.
  pub append_event_twice :
      (table : AuditTable Data) (fields : AuditFields Data) (given : AuditEventRecord)
      → (append_event digest storage table fields).1 ≡ ok given
      → let first = (append_event digest storage table fields).0 in
        let second = append_event digest storage first fields in
        (second.0.rows ≡ first.rows) × (second.1 ≡ ok given)
  append_event_twice table fields given h =
      elim (Option-cases (find_event fields.event_id table.rows)) [
        | inr (row, f) ↦
            let e = append-duplicate table fields row f in
            subst (λ r. Repeats fields given r.0) (sym e)
              (stored-Repeats fields given
                (record { rows = table.rows; next_seq = suc table.next_seq }) row f
                (ap (λ r. r.1) (sym e) ∙ h))
        | inl f ↦ elim (Bool-cases (breaks_idempotency fields table.rows)) [
          | inl b ↦ absurd (cc (h, append-broken table fields f b))
          | inr b ↦
              let e = append-fresh table fields (f, b) in
              subst (λ r. Repeats fields given r.0) (sym e)
                (stored-Repeats fields given (added table fields)
                  (new_row digest storage table fields)
                  (find_event-append fields.event_id table.rows
                    (new_row digest storage table fields) f refl)
                  (ap (λ r. r.1) (sym e) ∙ h))
        ]
      ]

  -- In a log that is a chain, sending an event of the log again uses up a number: when the next new
  -- event comes, the log has a gap in its numbers and no longer verifies.
  pub resend_breaks_verification :
      (table : AuditTable Data) (again fresh : AuditFields Data) (row : Row Data)
      → IsLog table
      → find_event again.event_id table.rows ≡ some row
      → IsFresh table fresh
      → let resent = (append_event digest storage table again).0 in
        let after = (append_event digest storage resent fresh).0 in
        (verify_chain digest after.rows genesis_hash).ok ≡ false
  resend_breaks_verification table again fresh row (c, n) f g =
      subst
        (λ r.
          (verify_chain digest (append_event digest storage r.0 fresh).0.rows genesis_hash).ok
          ≡ false)
        (sym (append-duplicate table again row f))
        (subst (λ r. (verify_chain digest r.0.rows genesis_hash).ok ≡ false)
          (sym (append-fresh resent fresh g))
          (by_report (Bool-cases (verify_chain digest (added resent fresh).rows genesis_hash).ok)))
    where
      resent : AuditTable Data
      resent = record { rows = table.rows; next_seq = suc table.next_seq }

      first_is_one : first_seq digest (added resent fresh).rows ≡ 1
      first_is_one = started again.event_id table.rows row (new_row digest storage resent fresh) c f

      by_report :
          ((verify_chain digest (added resent fresh).rows genesis_hash).ok ≡ true)
            ⊎ ((verify_chain digest (added resent fresh).rows genesis_hash).ok ≡ false)
          → (verify_chain digest (added resent fresh).rows genesis_hash).ok ≡ false
      by_report (inr h) = h
      by_report (inl h) = absurd (
          omega (
            arith,
            n,
            first_is_one,
            IsChain-last table.rows (new_row digest storage resent fresh)
                (first_seq digest (added resent fresh).rows) genesis_hash
                ((verify_chain_iff digest (added resent fresh).rows genesis_hash).0 h),
          ))
