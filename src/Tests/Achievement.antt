-- ===== src/Tests/Achievement.antt =====
-- Achievement events on the memory platform.
use mileage_core.Base.{String, ◌≡◌, ◌⊎◌, refl, some, List, [], ◌∷◌}
use mileage_core.Mysql.Contract.{On}
use mileage_core.Effect.{returns, Ensures}
use mileage_core.Mysql.AchievementRepository.{create_event}
use mileage_core.Usecase.Achievement.{record_event}
use mileage_core.Usecase.Achievement.Log.{EventRow, columns, EventTable}
use mileage_core.Handler.{Response, status_text}
use mileage_core.Handler.Achievement.{AchievementRequest, handle_event}
use mileage_core.Handler.Achievement.Status.{Tells, handle_event_lem, handle_event-twice}
use mileage_core.Tests.Memory.{Memory, memory, exec, next_id}
use mileage_core.Tests.Posting.{start}
use mileage_core.Tests.Success.{asked}

ids_keep : (ids : List String) (m : Memory) → (next_id ids m).1.events ≡ m.events
unfolding next_id
ids_keep [] m = refl
ids_keep (id ∷ rest) m = refl

insert_lem :
    (row : EventRow) (m : Memory)
    → let (r, m') = exec (columns row) m in
      On r
        (λ res. m'.events ≡ row ∷ m.events)
        (λ d. (m'.events ≡ m.events) ⊎ (m'.events ≡ row ∷ m.events))
unfolding exec
insert_lem row m = refl

abbrev event_table : EventTable memory
event_table = record {
  events = λ m. m.events;
  ulid_law = λ m. ids_keep m.ids m;
  insert_law = insert_lem;
}

abbrev walked : AchievementRequest
walked = record { action_type = "walked"; idempotency_key = "k" }

abbrev created : Response
created = record { status = 201; body = status_text "ok"; counted = []; headers = [] }

-- The row of the request under this identifier.
abbrev row : String → EventRow
row id = record { id = id; user_id = "alice"; action_type = "walked"; idempotency_key = "k" }

abbrev once : Memory
once = record start { ids = "01B" ∷ "01C" ∷ []; events = row "01A" ∷ [] }

abbrev twice : Memory
twice = record start { ids = "01C" ∷ []; events = row "01B" ∷ row "01A" ∷ [] }

first : handle_event memory asked (some walked) start ≡ returns created once
unfolding handle_event record_event create_event exec next_id
first = refl

second : handle_event memory asked (some walked) once ≡ returns created twice
unfolding handle_event record_event create_event exec next_id
second = refl

handle_event_lem_example :
    Ensures
      (Tells memory event_table asked walked start)
      (λ e w. ⊥)
      (handle_event memory asked (some walked) start)
handle_event_lem_example = handle_event_lem memory event_table asked walked start

handle_event-twice_example : twice.events ≡ row "01B" ∷ row "01A" ∷ []
unfolding next_id
handle_event-twice_example =
    handle_event-twice memory event_table asked walked start once twice created created first second
      refl refl
