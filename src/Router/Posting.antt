-- ===== src/Router/Posting.antt =====
-- A grant or a redemption over HTTP, on a database that works, with no other client.
use text.Mathlib.Text.{◌==◌ as str_eq}
use mileage_core.Base.{
  ℕ, String, ◌<>◌, true, false, Bool-cases, ◌⊎◌, inl, inr, ◌≡◌, ◌≢◌, refl, sym, subst, ap, ◌∙◌,
  Option, none, some,
}
use mileage_core.Base.Int.{pos, ◌<ℤ◌}
use mileage_core.Effect.{Outcome, Ensures, returned, failed}
use mileage_core.Platform.{Platform, done}
use mileage_core.Tables.{Tables}
use mileage_core.Domain.Account.{MileageAccount}
use mileage_core.Mysql.Rows.{AccountRow}
use mileage_core.Mysql.Contract.{Server}
use mileage_core.Mysql.Calm.{Calm}
use mileage_core.Mysql.UserRepository.{Identity, Claims}
use mileage_core.Usecase.Posting.{PostingInput, PostingOutput, Flow, grant_flow, redeem_flow}
use mileage_core.Usecase.Posting.Success.{Booked}
use mileage_core.Usecase.Posting.Success.Steps.{Ready}
use mileage_core.Handler.{Request, Response, Body, posting_response}
use mileage_core.Handler.Mileage.{
  PostingRequest, input_of, handle_posting, handle_grant, handle_redeem,
}
use mileage_core.Handler.Mileage.Success.{Acknowledged, handle_posting-Posts}
use mileage_core.Middleware.{Web}
use mileage_core.Middleware.RequestId.{request_id_header}
use mileage_core.Middleware.Auth.{key_for}
use mileage_core.Middleware.Auth.Session.{Accepts}
use mileage_core.Config.{Config}
use mileage_core.Router.{
  Endpoint, health, metrics, signup, login, balance, transactions, grant, redeem, achievements,
  profile, Route, routes, Echo, handler_of, serve,
}
use mileage_core.Router.Access.{Routing, NeedsUser, route-protected}
use mileage_core.Router.Refusal.{Passing}
use mileage_core.Router.Delivery.{
  Quiet, identified, limiting, arriving, delivered, Ends, serve-Ends,
}

-- What an endpoint posts, and the name of the operation.
abbrev pub posting_of : Endpoint → Option (Flow × String)
posting_of grant = some (grant_flow, "grant")
posting_of redeem = some (redeem_flow, "redeem")
posting_of _ = none

posting_of-NeedsUser :
    (e : Endpoint) (flow : Flow) (operation : String)
    → posting_of e ≡ some (flow, operation)
    → NeedsUser e
posting_of-NeedsUser health flow operation is = absurd cc
posting_of-NeedsUser metrics flow operation is = absurd cc
posting_of-NeedsUser signup flow operation is = absurd cc
posting_of-NeedsUser login flow operation is = absurd cc
posting_of-NeedsUser (profile name) flow operation is = absurd cc
posting_of-NeedsUser _ flow operation is = tt

some_inj : {A : Type 0} {a b : A} → some a ≡ some b → a ≡ b
some_inj is = cc

module _ (p : Platform) (s : Server p) (calm : Calm p s) (i : Identity p) (web : Web p)
    (quiet : Quiet p s web) (echo : Echo p) (passing : Passing p echo) (routing : Routing p echo)
    (config : Config) where
  open p use {World}
  open s use {committed}

  -- The handler of what an endpoint posts.
  abbrev posted : Request → World → Flow × String → Outcome World Response
  posted c w (flow, operation) = handle_posting p flow operation c (echo.bind_posting c) w

  handler_of-posting :
      (e : Endpoint) (flow : Flow) (operation : String) (c : Request) (w : World)
      → posting_of e ≡ some (flow, operation)
      → handler_of p i web echo config e c w
        ≡ handle_posting p flow operation c (echo.bind_posting c) w
  unfolding handle_grant handle_redeem
  handler_of-posting grant flow operation c w is = ap (posted c w) (some_inj is)
  handler_of-posting redeem flow operation c w is = ap (posted c w) (some_inj is)
  handler_of-posting health flow operation c w is = absurd cc
  handler_of-posting metrics flow operation c w is = absurd cc
  handler_of-posting signup flow operation c w is = absurd cc
  handler_of-posting login flow operation c w is = absurd cc
  handler_of-posting (profile name) flow operation c w is = absurd cc
  handler_of-posting balance flow operation c w is = absurd cc
  handler_of-posting transactions flow operation c w is = absurd cc
  handler_of-posting achievements flow operation c w is = absurd cc

  module _ (flow : Flow) (operation : String) (req : PostingRequest) (row : AccountRow)
      (changed : MileageAccount) where
    -- Status 200 with the posting's transaction, balance and version, and the tables that have it.
    abbrev pub Confirmed : PostingInput → Tables → ℕ → Body → Tables → Type 0
    Confirmed input t status body t' =
        (status ≡ 200)
        × (out : PostingOutput) × (body
            ≡ posting_response (record {
              transaction_id = out.transaction_id;
              balance = out.balance;
              version = out.version;
            }))
        × Booked p s calm flow input row changed t out t'

    confirmed :
        (c : Request) (w : World) (o : Outcome World Response)
        → Ensures (Acknowledged p s calm flow operation c req row changed w) (λ e w'. ⊥) o
        → Ends p s (Confirmed (input_of c (c.header "Idempotency-Key") req) (committed w)) o
    confirmed c w _ (returned {a = r} {w = w'} told) = (r, w', refl, told)
    confirmed c w _ (failed b) = absurd b

    -- Nothing has changed the tables when the request reaches its endpoint.
    unchanged :
        (c : Request) (w : World) (token : String)
        → committed (web.parse_token token (key_for config.jwt.secret) (arriving p web c w)).1
          ≡ committed w
    unchanged c w token =
        quiet.parse_token_law _ _ _
        ∙ quiet.allow_law _
        ∙ quiet.now_law _
        ∙ quiet.now_law _
        ∙ identified_tables (Bool-cases (str_eq (c.header request_id_header) ""))
      where
        identified_tables :
            (str_eq (c.header request_id_header) "" ≡ true)
              ⊎ (str_eq (c.header request_id_header) "" ≡ false)
            → committed (identified p web c w).1 ≡ committed w
        identified_tables (inl missing) = rw missing (sym (calm.only_client _ _ (s.ulid_law w).0))
        identified_tables (inr given) = rw given refl

    -- On a database that works, with no other client, behind middleware that leaves the tables alone:
    -- a request whose route leads to Grant or Redeem, with another method than OPTIONS, which the
    -- limiter lets through, with a bearer token that is signed for a non-empty user and has not
    -- expired, an Idempotency-Key header and a bound body of a positive amount, and whose posting can
    -- go through, is answered through all of the middleware by status 200 and the transaction,
    -- balance and version of the posting for the token's user, and then the tables are those before
    -- with the transaction on record and that user's row updated.
    pub serve-Confirmed :
        (a : Accepts p i web) (c : Request) (w : World) (r : Route) (claims : Claims)
        (token : String)
        → echo.find routes c ≡ some r
        → posting_of r.endpoint ≡ some (flow, operation)
        → c.method ≢ "OPTIONS"
        → (web.allow (limiting p web c w)).0 ≡ true
        → c.header "Authorization" ≡ "Bearer" <> (" " <> token)
        → claims.sub ≢ ""
        → i.signed_string config.jwt.secret claims ≡ done token
        → a.time (arriving p web c w) <ℤ claims.exp
        → c.header "Idempotency-Key" ≢ ""
        → echo.bind_posting (delivered p web c r claims.sub w) ≡ some req
        → pos 0 <ℤ req.amount
        → Ready p s calm flow
            (input_of (delivered p web c r claims.sub w) (c.header "Idempotency-Key") req)
            row
            changed
            (committed w)
        → Ends p s
            (Confirmed
              (input_of (delivered p web c r claims.sub w) (c.header "Idempotency-Key") req)
              (committed w))
            (serve p i web echo config c w)
    serve-Confirmed a c w r claims token found posts simple allowed sent named signed early keyed
          bound positive ready =
        let c' = delivered p web c r claims.sub w in
        let key = c.header "Idempotency-Key" in
        let v = (web.parse_token token (key_for config.jwt.secret) (arriving p web c w)).1 in
        let tables : committed v ≡ committed w = unchanged c w token in
        serve-Ends p s i web quiet echo passing config
          (Confirmed (input_of c' key req) (committed w)) a c w r claims token found
          (route-protected p echo routing c r found
            (posting_of-NeedsUser r.endpoint flow operation posts))
          simple allowed sent named signed early
          (rw (handler_of-posting r.endpoint flow operation c' v posts, bound)
            (subst
              (λ t.
                Ends p s (Confirmed (input_of c' key req) t)
                  (handle_posting p flow operation c' (some req) v))
              tables
              (confirmed c' v _ (
                handle_posting-Posts p s calm flow operation c' req row changed v keyed positive (
                  subst (Ready p s calm flow (input_of c' key req) row changed) (sym tables)
                    ready)))))
