-- ===== src/Spool/Transaction/Outcome.antt =====
-- The two ways in which `transaction` and `classified_transaction` end.
use hass_questdb_writer.Prelude.{
  ◌≡◌, ◌⊎◌, inl, inr, refl, true, Option, none, Result, ok, err, arith, Bool-cases, Option-cases, ℕ,
  List,
}
use hass_questdb_writer.Spool.Types.{
  Error, SqliteError, value_error, sqlite, spool_closed, Db, Spool, Sql,
}
use hass_questdb_writer.Spool.Errors.{classify_storage_error}
use hass_questdb_writer.Spool.Transaction.{
  transaction, classified_transaction, settle, sequence_tuple, no_duplicates, all_positive,
}

-- The transaction raises, and the spool is as it was.
abbrev pub Fails : {A : Type 0} → Spool → Result Error A × Spool → Type 0
Fails s t = (x : Error) × (t ≡ (err x, s))

module _ {A : Type 0} (body : Sql A) (fault : Option SqliteError) (s : Spool) where
  transaction_cases :
      (transaction fault body s ≡ settle s (body s.db)) ⊎ Fails s (transaction fault body s)
  unfolding transaction
  transaction_cases = elim (Bool-cases s.is_open) [
    | inr closed ↦ inr (spool_closed, simp closed)
    | inl open_ ↦ elim (Option-cases fault) [
      | inl none_ ↦ inl (simp (open_, none_))
      | inr (e, some_) ↦ inr (sqlite e, simp (open_, some_))
    ]
  ]

  pub transaction-ok :
      (a : A) (d : Db)
      → body s.db ≡ (ok a, d)
      → (transaction fault body s ≡ (ok a, record s { db = d }))
        ⊎ Fails s (transaction fault body s)
  transaction-ok a d e = elim transaction_cases [ inl t ↦ inl (rw e at t) | inr f ↦ inr f ]

  pub transaction-err :
      (x : Error) (d : Db) → body s.db ≡ (err x, d) → Fails s (transaction fault body s)
  transaction-err x d e = elim transaction_cases [ inl t ↦ (x, rw e at t) | inr f ↦ f ]

  -- What holds before, and after the block where it returns, holds after the transaction.
  pub transaction-keeps {κ} :
      (P : Db → Type κ)
      → ((a : A) (d : Db) → body s.db ≡ (ok a, d) → P d)
      → P s.db
      → P (transaction fault body s).1.db
  transaction-keeps P after before = elim transaction_cases [
    | inr (x, t) ↦ rw t before
    | inl t ↦ rw t (settled (body s.db) refl)
  ]
    where
      settled : (r : Result Error A × Db) → body s.db ≡ r → P (settle s r).1.db
      settled (ok a, d) e = after a d e
      settled (err x, d) e = before

  pub classified_transaction-keeps {κ} :
      (P : Db → Type κ)
      → ((a : A) (d : Db) → body s.db ≡ (ok a, d) → P d)
      → P s.db
      → P (classified_transaction fault body s).1.db
  unfolding classified_transaction
  classified_transaction-keeps P after before = transaction-keeps P after before

  classified-Fails :
      Fails s (transaction fault body s) → Fails s (classified_transaction fault body s)
  unfolding classified_transaction
  classified-Fails (sqlite e, t) = (classify_storage_error e none, rw (t, classified_transaction))
  classified-Fails (x, t) = (x, rw (t, classified_transaction))

  pub classified_transaction-ok :
      (a : A) (d : Db)
      → body s.db ≡ (ok a, d)
      → (classified_transaction fault body s ≡ (ok a, record s { db = d }))
        ⊎ Fails s (classified_transaction fault body s)
  unfolding classified_transaction
  classified_transaction-ok a d e = elim (transaction-ok a d e) [
    | inl t ↦ inl (rw (t, classified_transaction))
    | inr f ↦ inr (classified-Fails f)
  ]

  pub classified_transaction-err :
      (x : Error) (d : Db) → body s.db ≡ (err x, d) → Fails s (classified_transaction fault body s)
  classified_transaction-err x d e = classified-Fails (transaction-err x d e)

pub sequence_tuple_cases :
    (qs : List ℕ)
    → ((sequence_tuple qs ≡ ok qs) × (no_duplicates qs ≡ true) × (all_positive qs ≡ true))
      ⊎ (sequence_tuple qs ≡ err value_error)
unfolding sequence_tuple
sequence_tuple_cases qs = ground arith
