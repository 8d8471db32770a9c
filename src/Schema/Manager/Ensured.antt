-- ===== src/Schema/Manager/Ensured.antt =====
-- What a call of `ensure` of custom_components/hass_questdb_writer/schema.py has done.
use hass_questdb_writer.Prelude.{
  ◌≡◌, refl, inl, inr, ◌||◌, Option, none, some, List, Text, is_empty, has_nul, Result, ok, err,
  Bool-cases, arith,
}
use hass_questdb_writer.Transport.{TransportError}
use hass_questdb_writer.Schema.{Column, SchemaError, validate_table_columns, create_table_ddl}
use hass_questdb_writer.Schema.Manager.{
  Shown, show_failed, shown, Answers, Manager, ensure, after_validate, after_show, after_create,
  send, show_columns_query,
}

-- The table was created or present, and its columns are the owned ones.
abbrev pub IsValidated : Answers → Type 0
IsValidated answers =
    (dataset : Option (List (Option Column))) × (answers.created ≡ ok tt)
    × (answers.columns ≡ shown (some dataset))
    × (validate_table_columns dataset ≡ ok tt)

module _ (table : Text) (answers : Answers) where
  after_validate-ok :
      (r : Result SchemaError (Unit {0})) (m : Manager)
      → (after_validate table answers r m).0 ≡ ok tt
      → r ≡ ok tt
  unfolding after_validate
  after_validate-ok (ok x) m h = refl
  after_validate-ok (err x) m h = absurd (cc (h))

  after_show-ok :
      (s : Shown) (m : Manager)
      → (after_show table answers s m).0 ≡ ok tt
      → (dataset : Option (List (Option Column))) × (s ≡ shown (some dataset))
        × (validate_table_columns dataset ≡ ok tt)
  unfolding after_show
  after_show-ok (show_failed e b) m h = absurd (ground (arith, h))
  after_show-ok (shown none) m h = absurd (cc (h))
  after_show-ok (shown (some dataset)) m h =
      (dataset, refl, after_validate-ok (validate_table_columns dataset) m h)

  after_create-ok :
      (r : Result TransportError (Unit {0})) (m : Manager)
      → answers.created ≡ r
      → (after_create table answers r m).0 ≡ ok tt
      → IsValidated answers
  unfolding after_create
  after_create-ok (err e) m c h = absurd (cc (h))
  after_create-ok (ok x) m c h =
      let (dataset, s, v) = after_show-ok answers.columns (send (show_columns_query table) m) h in
      (dataset, c, s, v)

-- A call of `ensure` returns only where the server confirmed the DDL and the columns that it shows
-- pass the validation.
pub ensure-IsValidated :
    (table : Text) (answers : Answers) (m : Manager)
    → (ensure table answers m).0 ≡ ok tt
    → IsValidated answers
unfolding ensure
ensure-IsValidated table answers m h = elim (Bool-cases (is_empty table || has_nul table)) [
  | inl e ↦ absurd (cc (rw e at h))
  | inr e ↦
      after_create-ok table answers answers.created (send (create_table_ddl table) m) refl
        (rw e at h)
]
