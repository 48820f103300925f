-- ===== src/Errors.antt =====
-- Go's error values as the service builds them: internal/domain/mileage/account.go (the sentinels),
-- and every errors.New and fmt.Errorf of internal/. A driver's error keeps what the code reads of it.
use mileage_core.Base.{ℕ, String, Bool, true, false, ◌≡◌, refl}

-- The sentinel errors of package mileage.
pub data Sentinel : Type 0 where
  insufficient_balance invalid_amount optimistic_lock idempotency_conflict already_processed :
      Sentinel

-- What the drivers report: sql.ErrNoRows, redis.Nil, a *mysql.MySQLError with its Number and
-- Message, or anything else.
pub data DriverError : Type 0 where
  no_rows redis_nil : DriverError
  mysql_error : ℕ → String → DriverError
  other_error : String → DriverError

-- `sentinel` is one of the values above, `message` is errors.New (or fmt.Errorf with no %w),
-- `wrapped` is fmt.Errorf("prefix: %w", err), and `rollback_failed` is the text of tx.go that
-- shows the rollback's error and wraps the original one.
pub data Error : Type 0 where
  sentinel : Sentinel → Error
  message : String → Error
  driver : DriverError → Error
  wrapped : String → Error → Error
  rollback_failed : DriverError → Error → Error

unfoldable pub same_sentinel : Sentinel → Sentinel → Bool
same_sentinel insufficient_balance insufficient_balance = true
same_sentinel invalid_amount invalid_amount = true
same_sentinel optimistic_lock optimistic_lock = true
same_sentinel idempotency_conflict idempotency_conflict = true
same_sentinel already_processed already_processed = true
same_sentinel _ _ = false

-- errors.Is against a sentinel: it follows the wrapped errors.
unfoldable pub errors_is : Error → Sentinel → Bool
unfolding same_sentinel
errors_is (sentinel s) t = same_sentinel s t
errors_is (message m) t = false
errors_is (driver d) t = false
errors_is (wrapped prefix e) t = errors_is e t
errors_is (rollback_failed d e) t = errors_is e t

-- An error that is one sentinel is no other.
pub errors_is_only :
    (e : Error) (s t : Sentinel) → errors_is e s ≡ true → errors_is e t ≡ same_sentinel s t
unfolding errors_is
errors_is_only (sentinel insufficient_balance) insufficient_balance t h = refl
errors_is_only (sentinel invalid_amount) invalid_amount t h = refl
errors_is_only (sentinel optimistic_lock) optimistic_lock t h = refl
errors_is_only (sentinel idempotency_conflict) idempotency_conflict t h = refl
errors_is_only (sentinel already_processed) already_processed t h = refl
errors_is_only (message m) s t h = cc
errors_is_only (driver d) s t h = cc
errors_is_only (wrapped prefix e) s t h = errors_is_only e s t h
errors_is_only (rollback_failed d e) s t h = errors_is_only e s t h
errors_is_only (sentinel r) s t h = cc
