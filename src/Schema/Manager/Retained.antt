-- ===== src/Schema/Manager/Retained.antt =====
-- What a call of `ensure` of custom_components/hass_questdb_writer/schema.py does about the retention.
use mathlib.Core.Path.{subst}
use mathlib.Core.List.{append_assoc}
use hass_questdb_writer.Prelude.{
  zero, suc, ℕ, ◌<◌, ◌≢◌, pos, negsuc, [], ◌∷◌, ◌++◌, codes, replace, decimal, if◌then◌else◌, ◌≡◌,
  refl, sym, ap, ◌⊎◌, inl, inr, true, false, ◌||◌, Option, some, List, ◌==◌, Text, is_empty,
  has_nul, Result, ok, err, arith, ℤ,
}
use hass_questdb_writer.Transport.{TransportError, Kind, retryable, permanent, authentication}
use hass_questdb_writer.Worker.Accounting.{if_cases}
use hass_questdb_writer.Schema.{quote_identifier, Column, validate_table_columns, create_table_ddl}
use hass_questdb_writer.Schema.Manager.{
  Raised, transport_error, shown, ttl_value, Answers, Manager, ensure, is_permanent, positive,
  or_none, same_ttl, apply_retention, after_ttl, after_alter, after_clear, read_ttl_days,
  after_validate, after_show, after_create, send, ttl_query, show_columns_query, set_ttl_query,
}
use hass_questdb_writer.Schema.Manager.Ensured.{IsValidated}

-- The table's TTL as the server shows it, without its unit, is the retention: the same number of
-- days, or for no retention a TTL that is not positive.
abbrev pub IsTtl : ℤ → ℕ → Type 0
IsTtl n days = (n ≡ pos days) ⊎ (days ≡ 0) × ((k : ℕ) × (n ≡ negsuc k))

abbrev pub create_and_show : Text → List Text
create_and_show table =
    create_table_ddl table ∷ (codes "SHOW COLUMNS FROM " ++ quote_identifier table) ∷ []

abbrev pub read_ttl : Text → List Text
read_ttl table =
    (codes "SELECT table_name, ttlValue, ttlUnit FROM tables() WHERE table_name = '"
      ++ (replace b'\'' (codes "''") table ++ codes "'"))
    ∷ []

abbrev pub alter_ttl : Text → ℕ → List Text
alter_ttl table days =
    (codes "ALTER TABLE "
      ++ (quote_identifier table ++ (codes " SET TTL " ++ (decimal days ++ codes " DAYS"))))
    ∷ []

abbrev pub sending : List Text → Manager → Manager
sending queries m = record m { sent = m.sent ++ queries }

abbrev pub give_up : Manager → Manager
give_up m = record m { ttl_rejected = true }

-- How a call that sent ALTER TABLE ends, by its answer.
abbrev pub IsAltered : Answers → ℕ → Manager → Result Raised (Unit {0}) × Manager → Type 0
IsAltered answers days m p =
    (answers.altered ≡ ok tt) × (p ≡ (ok tt, m))
    ⊎ ((e : TransportError) × (answers.altered ≡ err e)
        × (e.kind ≢ retryable)
        × (0 < days)
        × (p ≡ (ok tt, give_up m)))
    ⊎ ((e : TransportError) × (answers.altered ≡ err e)
        × ((e.kind ≡ retryable) ⊎ (days ≡ 0))
        × (p ≡ (err (transport_error e), m)))

-- How `_apply_retention` ends.
abbrev pub IsRetained : Text → Answers → ℤ → Manager → Result Raised (Unit {0}) × Manager → Type 0
IsRetained table answers n m p =
    (m.ttl_rejected ≡ true) × (p ≡ (ok tt, m))
    ⊎ (m.ttl_rejected ≡ false)
      × IsTtl n m.retention_days
      × (p ≡ (ok tt, sending (read_ttl table) m))
    ⊎ (m.ttl_rejected ≡ false)
      × (¬ IsTtl n m.retention_days)
      × IsAltered answers m.retention_days
          (sending (alter_ttl table m.retention_days) (sending (read_ttl table) m)) p

same_ttl-IsTtl : (n : ℤ) (days : ℕ) → same_ttl (positive n) (or_none days) ≡ true → IsTtl n days
same_ttl-IsTtl (pos zero) zero h = inl refl
same_ttl-IsTtl (pos zero) (suc d) h = absurd (cc (h))
same_ttl-IsTtl (pos (suc n)) zero h = absurd (cc (h))
same_ttl-IsTtl (pos (suc n)) (suc d) h = inl (ap pos (ground (arith, h)))
same_ttl-IsTtl (negsuc k) zero h = inr (refl, (k, refl))
same_ttl-IsTtl (negsuc k) (suc d) h = absurd (cc (h))

IsTtl-same_ttl : (n : ℤ) (days : ℕ) → IsTtl n days → same_ttl (positive n) (or_none days) ≡ true
IsTtl-same_ttl (pos zero) zero h = refl
IsTtl-same_ttl (pos zero) (suc d) h = ground (arith, h)
IsTtl-same_ttl (pos (suc n)) zero h = ground (arith, h)
IsTtl-same_ttl (pos (suc n)) (suc d) h = ground (arith, h)
IsTtl-same_ttl (negsuc k) zero h = refl
IsTtl-same_ttl (negsuc k) (suc d) h = ground (arith, h)

-- Two steps of `send` are one.
sending-sending :
    (qs rs : List Text) (m : Manager) → sending rs (sending qs m) ≡ sending (qs ++ rs) m
sending-sending qs rs m = ap (λ l. record m { sent = l }) (append_assoc m.sent qs rs)

is_permanent-kind : (k : Kind) → is_permanent k ≡ true → k ≢ retryable
is_permanent-kind permanent h e = absurd (cc (e))
is_permanent-kind authentication h e = absurd (cc (e))
is_permanent-kind retryable h e = absurd (cc (h))

not_permanent : (k : Kind) → is_permanent k ≡ false → k ≡ retryable
not_permanent permanent h = absurd (cc (h))
not_permanent authentication h = absurd (cc (h))
not_permanent retryable h = refl

module _ (table : Text) (answers : Answers) (n : ℤ) where
  after_clear-IsAltered :
      (r : Result TransportError (Unit {0})) (m : Manager)
      → answers.altered ≡ r
      → IsAltered answers 0 m (after_clear r m)
  unfolding after_clear
  after_clear-IsAltered (ok x) m a = inl (a, refl)
  after_clear-IsAltered (err e) m a = inr (inr (e, a, inr refl, refl))

  cleared-IsAltered :
      (days : ℕ) (m : Manager)
      → days ≡ 0
      → IsAltered answers days
          (sending (alter_ttl table days) m)
          (after_clear answers.altered (send (set_ttl_query table 0) m))
  unfolding set_ttl_query decimal
  cleared-IsAltered zero m z =
      after_clear-IsAltered answers.altered (sending (alter_ttl table 0) m) refl
  cleared-IsAltered (suc days) m z = absurd (omega (arith, z))

  after_alter-IsAltered :
      (r : Result TransportError (Unit {0})) (days : ℕ) (m : Manager)
      → answers.altered ≡ r
      → 0 < days
      → IsAltered answers days m (after_alter r m)
  unfolding after_alter
  after_alter-IsAltered (ok x) days m a l = inl (a, refl)
  after_alter-IsAltered (err e) days m a l =
      if_cases (IsAltered answers days m) (is_permanent e.kind) _ _
        (λ h. inr (inl (e, a, is_permanent-kind e.kind h, l, refl)))
        (λ h. inr (inr (e, a, inl (not_permanent e.kind h), refl)))

  -- The query for a changed TTL, and what follows its answer.
  altered-IsAltered :
      (m : Manager)
      → IsAltered answers m.retention_days (sending (alter_ttl table m.retention_days) m) (
          if m.retention_days == 0
          then after_clear answers.altered (send (set_ttl_query table 0) m)
          else after_alter answers.altered (send (set_ttl_query table m.retention_days) m))
  unfolding set_ttl_query
  altered-IsAltered m =
      if_cases (IsAltered answers m.retention_days (sending (alter_ttl table m.retention_days) m))
        (m.retention_days == 0) _ _ (λ z. cleared-IsAltered m.retention_days m (ground (arith, z)))
        (λ z.
          after_alter-IsAltered answers.altered m.retention_days
            (sending (alter_ttl table m.retention_days) m) refl (ground (arith, z)))

  after_ttl-IsRetained :
      (m : Manager)
      → m.ttl_rejected ≡ false
      → IsRetained table answers n m
          (after_ttl table answers.altered (ok (positive n)) (send (ttl_query table) m))
  unfolding after_ttl ttl_query
  after_ttl-IsRetained m f =
      if_cases (IsRetained table answers n m) (same_ttl (positive n) (or_none m.retention_days)) _ _
        (λ h. inr (inl (f, same_ttl-IsTtl n m.retention_days h, refl)))
        (λ h. inr (
          inr (
            f,
            (λ t. absurd (cc (h, IsTtl-same_ttl n m.retention_days t))),
            altered-IsAltered (send (ttl_query table) m),
          )))

  apply_retention-IsRetained :
      (m : Manager)
      → answers.ttl ≡ ttl_value n
      → IsRetained table answers n m (apply_retention table answers m)
  unfolding apply_retention read_ttl_days
  apply_retention-IsRetained m t =
      if_cases (IsRetained table answers n m) m.ttl_rejected _ _ (λ h. inl (h, refl))
        (λ h.
          subst
            (λ r.
              IsRetained table answers n m
                (after_ttl table answers.altered (read_ttl_days r) (send (ttl_query table) m)))
            (sym t) (after_ttl-IsRetained m h))

-- The queries after a confirmed DDL and valid columns.
validated-IsRetained :
    (table : Text) (answers : Answers) (n : ℤ) (m : Manager)
    (dataset : Option (List (Option Column)))
    → answers.created ≡ ok tt
    → answers.columns ≡ shown (some dataset)
    → validate_table_columns dataset ≡ ok tt
    → answers.ttl ≡ ttl_value n
    → IsRetained table answers n
        (sending (create_and_show table) m)
        (after_create table answers answers.created (send (create_table_ddl table) m))
unfolding after_create after_show after_validate show_columns_query
validated-IsRetained table answers n m dataset c s v t =
    let m1 : Manager = send (create_table_ddl table) m in
    let m2 : Manager = send (show_columns_query table) m1 in
    let P : Result Raised (Unit {0}) × Manager → Type 0 =
      IsRetained table answers n (sending (create_and_show table) m) in
    subst (λ r. P (after_create table answers r m1)) (sym c)
      (subst (λ q. P (after_show table answers q m2)) (sym s)
        (subst (λ r. P (after_validate table answers r m2)) (sym v)
          (subst (λ w. IsRetained table answers n w (apply_retention table answers m2))
            (sending-sending (create_table_ddl table ∷ []) (show_columns_query table ∷ []) m)
            (apply_retention-IsRetained table answers n m2 t))))

-- With the DDL confirmed, valid columns and a TTL that could be read, `ensure` sends CREATE TABLE and
-- SHOW COLUMNS, and no more where an earlier call gave the retention up. Else it reads the TTL, and
-- sends no more where its number, whose unit is not read, is the retention's. Else it sends one ALTER
-- TABLE with the retention in days: it returns where that is confirmed; it returns and gives the
-- retention up where that is answered by an error that is not retryable and the retention is not 0;
-- and else it raises that error.
pub ensure-retention :
    (table : Text) (answers : Answers) (m : Manager) (n : ℤ)
    → is_empty table ≡ false
    → has_nul table ≡ false
    → IsValidated answers
    → answers.ttl ≡ ttl_value n
    → IsRetained table answers n (sending (create_and_show table) m) (ensure table answers m)
unfolding ensure
ensure-retention table answers m n full clean (dataset, c, s, v) t =
    if_cases (IsRetained table answers n (sending (create_and_show table) m))
      (is_empty table || has_nul table) _ _ (λ e. absurd (ground (arith, e, full, clean)))
      (λ _. validated-IsRetained table answers n m dataset c s v t)
