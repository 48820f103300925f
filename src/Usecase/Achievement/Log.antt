-- ===== src/Usecase/Achievement/Log.antt =====
-- The achievement_events table that the achievement usecase writes to.
use mileage_core.Base.{String, ◌≡◌, ◌⊎◌, inl, inr, ◌∙◌, List, [], ◌∷◌}
use mileage_core.Errors.{driver, wrapped}
use mileage_core.Effect.{Ensures, returned, failed, Ensures-change_error}
use mileage_core.Platform.{Platform, Reply, done, refused, SqlValue, varchar, SqlResult, on_db}
use mileage_core.Mysql.Tx.{background, executed}
use mileage_core.Mysql.Contract.{On}
use mileage_core.Mysql.AchievementRepository.{insert_event_sql, create_event}
use mileage_core.Usecase.Achievement.{AchievementInput, record_event}

-- A row of achievement_events, but for the time that the database sets.
pub record EventRow : Type 0 where
  pub id : String
  pub user_id : String
  pub action_type : String
  pub idempotency_key : String

-- The values of `id, user_id, action_type, idempotency_key`.
abbrev pub columns : EventRow → List SqlValue
columns row =
    varchar row.id
    ∷ varchar row.user_id
    ∷ varchar row.action_type
    ∷ varchar row.idempotency_key
    ∷ []

-- The table's rows, the newest first, with no other client: an INSERT outside of a transaction adds
-- a row of its arguments, and one that fails has added it or not.
pub record EventTable (p : Platform) : Type 0 where
  pub events : p.World → List EventRow
  pub ulid_law : (w : p.World) → events (p.new_ulid w).1 ≡ events w
  pub insert_law :
      (row : EventRow) (w : p.World)
      → let (r, w') = p.exec_context on_db insert_event_sql (columns row) w in
        On r
          (λ res. events w' ≡ row ∷ events w)
          (λ d. (events w' ≡ events w) ⊎ (events w' ≡ row ∷ events w))

module _ (p : Platform) (table : EventTable p) (input : AchievementInput) where
  open p use {World, new_ulid}
  open table use {events}

  -- The row of an input under the identifier that is generated in this world.
  abbrev pub logged_row : World → EventRow
  logged_row w = record {
    id = (new_ulid w).0;
    user_id = input.user_id;
    action_type = input.action_type;
    idempotency_key = input.idempotency_key;
  }

  -- This row has been added.
  abbrev pub Logged : World → World → Type 0
  Logged w w' = events w' ≡ logged_row w ∷ events w

  inserted :
      (w v : World) (r : Reply SqlResult) (w' : World)
      → events v ≡ events w
      → On r
          (λ res. events w' ≡ logged_row w ∷ events v)
          (λ d. (events w' ≡ events v) ⊎ (events w' ≡ logged_row w ∷ events v))
      → Ensures
          (λ u v'. Logged w v')
          (λ e v'. (events v' ≡ events w) ⊎ Logged w v')
          (executed (λ d. wrapped "insert achievement event" (driver d)) r w')
  inserted w v (done res) w' same added = returned (rw same at added)
  inserted w v (refused d) w' same (inl kept) = failed (inl (kept ∙ same))
  inserted w v (refused d) w' same (inr added) = failed (inr (rw same at added))

  -- A result has added the row of the input, and an error has added it or nothing.
  pub record_event_lem :
      (w : World)
      → Ensures
          (λ u w'. Logged w w')
          (λ e w'. (events w' ≡ events w) ⊎ Logged w w')
          (record_event p background input w)
  unfolding record_event create_event
  record_event_lem w =
      Ensures-change_error (wrapped "create achievement event")
        (inserted w _ _ _ (table.ulid_law w) (table.insert_law (logged_row w) (new_ulid w).1))
        (λ e w' h. h)
