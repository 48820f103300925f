-- ===== src/Tests/Handler.antt =====
-- Requests on the memory platform.
use mileage_core.Base.{◌≡◌, refl, some}
use mileage_core.Base.Int.{pos}
use mileage_core.Errors.{sentinel, wrapped, already_processed, errors_is}
use mileage_core.Effect.{Ensures}
use mileage_core.Usecase.Posting.{grant_flow}
use mileage_core.Handler.{Request}
use mileage_core.Handler.Mileage.{handle_mileage_error, handle_posting}
use mileage_core.Handler.Mileage.Status.{StatusTells, handle_posting_lem, already_processed_status}
use mileage_core.Tests.Memory.{memory}
use mileage_core.Tests.Server.{memory_server}
use mileage_core.Tests.Posting.{start, request, Owned-subst, account_kept, start-Owned}

abbrev pub posted : Request
posted = record {
  user_id = some "alice";
  request_id = some "";
  header = λ name. "k";
  query_param = λ name. "";
  method = "POST";
  path = "/";
  route = "/";
  content = "";
}

handle_posting_lem_example :
    Ensures
      (StatusTells memory memory_server grant_flow "grant" (request "k" (pos 100)) start)
      (λ e w. ⊥)
      (handle_posting memory grant_flow "grant" posted
        (some (record { amount = pos 100; reason = "" }))
        start)
handle_posting_lem_example =
    handle_posting_lem memory memory_server grant_flow "grant" posted
      (record { amount = pos 100; reason = "" }) (Owned-subst grant_flow (request "k" (pos 100)))
      (account_kept "alice") start (start-Owned grant_flow (request "k" (pos 100)))

already_processed_status_example :
    (handle_mileage_error posted
      (wrapped "insert transaction" (sentinel already_processed))
      "grant").status
    ≡ 500
unfolding errors_is
already_processed_status_example =
    already_processed_status posted (wrapped "insert transaction" (sentinel already_processed))
      "grant" refl
