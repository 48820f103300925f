-- ===== src/Tests/Delivery.antt =====
-- A grant over HTTP on the memory platform.
use mileage_core.Base.{refl, arith}
use mileage_core.Base.Int.{pos}
use mileage_core.Mysql.UserRepository.{Claims}
use mileage_core.Usecase.Posting.{PostingInput, grant_flow}
use mileage_core.Usecase.Posting.Success.Steps.{Ready}
use mileage_core.Handler.Mileage.{PostingRequest, input_of}
use mileage_core.Router.{serve}
use mileage_core.Router.Delivery.{Quiet, delivered, Ends}
use mileage_core.Router.Posting.{Confirmed, serve-Confirmed}
use mileage_core.Tests.Memory.{memory}
use mileage_core.Tests.Server.{memory_server}
use mileage_core.Tests.Posting.{alice_row, start}
use mileage_core.Tests.Auth.{identity}
use mileage_core.Tests.Success.{calm, granted_account, start-Ready}
use mileage_core.Tests.Gateway.{
  web, accepts, echo, routing, passing, settings, sent, grant_route, grant_route_found,
}

abbrev quiet : Quiet memory memory_server web
quiet = record {
  allow_law = λ w. refl;
  parse_token_law = λ token keys w. refl;
  now_law = λ w. refl;
  write_log_law = λ e w. refl;
  increment_law = λ v labels w. refl;
  observe_law = λ v labels d w. refl;
}

abbrev claims : Claims
claims = record { sub = "alice"; iat = pos 0; exp = pos 1 }

abbrev bound : PostingRequest
bound = record { amount = pos 100; reason = "welcome" }

abbrev input : PostingInput
input = input_of (delivered memory web sent grant_route "alice" start) "k" bound

input-Ready :
    Ready memory memory_server calm grant_flow input alice_row granted_account start.tables
input-Ready = record {
  stored = start-Ready.stored;
  balance_range = start-Ready.balance_range;
  version_range = start-Ready.version_range;
  next_range = start-Ready.next_range;
  accepted = start-Ready.accepted;
  changed_range = start-Ready.changed_range;
  fresh = start-Ready.fresh;
  fits = λ id. tt;
}

serve-Confirmed_example :
    Ends memory memory_server
      (Confirmed memory memory_server calm identity web quiet echo passing routing settings
        grant_flow "grant" bound alice_row granted_account input start.tables)
      (serve memory identity web echo settings sent start)
serve-Confirmed_example =
    serve-Confirmed memory memory_server calm identity web quiet echo passing routing settings
      grant_flow "grant" bound alice_row granted_account accepts sent start grant_route claims
      "token of alice" grant_route_found refl (λ e. cc) refl refl (λ e. cc) refl (ground arith)
      (λ e. cc) refl (ground arith) input-Ready
