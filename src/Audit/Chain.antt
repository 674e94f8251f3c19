-- ===== src/Audit/Chain.antt =====
-- python/apexquant-audit/src/apexquant-audit/hashing.py
-- The hash chain of the audit log, stated without the loop of `verify_chain`.
use lord_hermes.Common.{
  ℕ, ◌≡◌, refl, sym, ap, ◌∙◌, subst, ◌↔◌, Bool, true, false, not, List, [], ◌∷◌, ◌++◌, none, some,
  ◌==◌, nat_eq, is_nonempty, zero, suc, append_nil_iff,
}
use lord_hermes.Common.Text.{Text, text_eq, text_beq_iff}
use lord_hermes.Audit.Hashing.{
  Payload, Row, ChainViolation, sequence_gap, prev_hash_mismatch, event_hash_mismatch, unless,
  expected_after, compute_event_hash, check_rows, verify_chain,
}

unless_nil : (b : Bool) (v : ChainViolation) → (unless b v ≡ []) ↔ (b ≡ true)
unless_nil true v = (λ _. refl, λ _. refl)
unless_nil false v = (λ h. absurd (cc h), λ h. absurd (cc h))

expected_after-suc : (n : ℕ) → expected_after n n ≡ suc n
expected_after-suc zero = refl
expected_after-suc (suc n) = refl

nonempty_iff : (xs : List ChainViolation) → (not (is_nonempty xs) ≡ true) ↔ (xs ≡ [])
nonempty_iff [] = (λ _. refl, λ _. refl)
nonempty_iff (x ∷ xs) = (λ h. absurd (cc h), λ h. absurd (cc h))

module _ {Data : Type 0} (digest : Payload Data → Text) where
  -- The rows are numbered from `seq` without a gap, each names the hash of the row before it (the
  -- first one `prev`), and each hash is that of the row's own fields and of the hash before it.
  abbrev pub IsChain : ℕ → Text → List (Row Data) → Type 0
  IsChain seq prev [] = Unit
  IsChain seq prev (row ∷ rest) =
      (row.event_seq ≡ seq)
      × ((row.prev_hash ≡ prev)
          × ((row.event_hash ≡ compute_event_hash digest row.fields prev)
              × IsChain (suc seq) row.event_hash rest))

  abbrev pub first_seq : List (Row Data) → ℕ
  first_seq [] = 0
  first_seq (row ∷ rest) = row.event_seq

  link_iff :
      (row : Row Data) (rest : List (Row Data)) (seq : ℕ) (prev : Text)
      → (check_rows digest (some (suc seq)) row.event_hash rest ≡ [])
        ↔ IsChain (suc seq) row.event_hash rest
      → (check_rows digest (some seq) prev (row ∷ rest) ≡ []) ↔ IsChain seq prev (row ∷ rest)
  unfolding check_rows
  link_iff row rest seq prev others_iff = (forth, back)
    where
      after : ℕ → List ChainViolation
      after e = check_rows digest (some e) row.event_hash rest

      hash_part : ℕ → List ChainViolation
      hash_part e =
          unless (row.event_hash == compute_event_hash digest row.fields prev)
            (event_hash_mismatch row.event_seq)
          ++ after e

      prev_part : ℕ → List ChainViolation
      prev_part e = unless (row.prev_hash == prev) (prev_hash_mismatch row.event_seq) ++ hash_part e

      next : ℕ
      next = expected_after seq row.event_seq

      next_suc : row.event_seq ≡ seq → next ≡ suc seq
      next_suc e = ap (expected_after seq) e ∙ expected_after-suc seq

      forth :
          unless (row.event_seq == seq) (sequence_gap row.event_seq seq) ++ prev_part next ≡ []
          → IsChain seq prev (row ∷ rest)
      forth h =
          let one = (append_nil_iff _ (prev_part next)).0 h in
          let two = (append_nil_iff _ (hash_part next)).0 one.1 in
          let three = (append_nil_iff _ (after next)).0 two.1 in
          let numbered : row.event_seq ≡ seq =
            (nat_eq.beq_iff row.event_seq seq).0 ((unless_nil _ _).0 one.0) in
          (
            numbered,
            (
              (text_beq_iff row.prev_hash prev).0 ((unless_nil _ _).0 two.0),
              (
                (text_beq_iff row.event_hash _).0 ((unless_nil _ _).0 three.0),
                others_iff.0 (subst (λ e. after e ≡ []) (next_suc numbered) three.1),
              ),
            ),
          )

      back :
          IsChain seq prev (row ∷ rest)
          → unless (row.event_seq == seq) (sequence_gap row.event_seq seq) ++ prev_part next ≡ []
      back (numbered, (linked, (hashed, others))) = (append_nil_iff _ (prev_part next)).1 (
        (unless_nil _ _).1 ((nat_eq.beq_iff row.event_seq seq).1 numbered),
        (append_nil_iff _ (hash_part next)).1 (
          (unless_nil _ _).1 ((text_beq_iff row.prev_hash prev).1 linked),
          (append_nil_iff _ (after next)).1 (
            (unless_nil _ _).1 ((text_beq_iff row.event_hash _).1 hashed),
            subst (λ e. after e ≡ []) (sym (next_suc numbered)) (others_iff.1 others),
          ),
        ),
      )

  pub check_rows-IsChain :
      (rows : List (Row Data)) (seq : ℕ) (prev : Text)
      → (check_rows digest (some seq) prev rows ≡ []) ↔ IsChain seq prev rows
  unfolding check_rows
  check_rows-IsChain [] seq prev = (λ _. tt, λ _. refl)
  check_rows-IsChain (row ∷ rest) seq prev =
      link_iff row rest seq prev (check_rows-IsChain rest (suc seq) row.event_hash)

  -- The first row sets the number that is expected of it.
  check_rows-none :
      (rows : List (Row Data)) (prev : Text)
      → check_rows digest none prev rows ≡ check_rows digest (some (first_seq rows)) prev rows
  unfolding check_rows
  check_rows-none [] prev = refl
  check_rows-none (row ∷ rest) prev = refl

  -- The report on some rows is ok exactly when they are a chain that starts at the number of the first
  -- row: no gap in the numbers, every link intact, and every event hash the one of the row's fields.
  pub verify_chain_iff :
      (rows : List (Row Data)) (initial_prev_hash : Text)
      → ((verify_chain digest rows initial_prev_hash).ok ≡ true)
        ↔ IsChain (first_seq rows) initial_prev_hash rows
  unfolding verify_chain
  verify_chain_iff rows prev = (
    λ h.
        (check_rows-IsChain rows (first_seq rows) prev).0
          (sym (check_rows-none rows prev) ∙ (nonempty_iff _).0 h),
    λ c.
        (nonempty_iff _).1
          (check_rows-none rows prev ∙ (check_rows-IsChain rows (first_seq rows) prev).1 c),
  )
