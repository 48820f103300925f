-- ===== src/Handler/Achievement/Status.antt =====
-- What the response of the achievement handler says of the table of events.
use text.Mathlib.Text.{◌==◌ as str_eq}
use text.Mathlib.TextEquality.{eq_iff}
use mileage_core.Base.{◌≡◌, ◌≢◌, refl, ap, ◌∙◌, ◌⊎◌, inl, inr, some, List, ◌∷◌, Bool-cases, arith}
use mileage_core.Effect.{Outcome, returns, Ensures, returned, failed, Ensures-returns}
use mileage_core.Platform.{Platform}
use mileage_core.Usecase.Achievement.Log.{EventRow, EventTable, record_event_lem}
use mileage_core.Handler.{Request, Response, text_or_empty}
use mileage_core.Handler.Achievement.{AchievementRequest, event_input, event_answer, handle_event}

module _ (p : Platform) (table : EventTable p) (c : Request) (req : AchievementRequest) where
  open p use {World, new_ulid}
  open table use {events}

  -- The row that the request asks for, under the identifier that is generated in this world.
  abbrev pub asked_row : World → EventRow
  asked_row w = record {
    id = (new_ulid w).0;
    user_id = text_or_empty c.user_id;
    action_type = req.action_type;
    idempotency_key = req.idempotency_key;
  }

  abbrev Adds : World → World → Type 0
  Adds w w' = events w' ≡ asked_row w ∷ events w

  abbrev pub Tells : World → Response → World → Type 0
  Tells w r w' =
      ((r.status ≡ 201) × (req.action_type ≢ "") × Adds w w')
      ⊎ (((r.status ≡ 400) × (req.action_type ≡ "") × (w' ≡ w))
          ⊎ ((r.status ≡ 500) × (req.action_type ≢ "") × ((events w' ≡ events w) ⊎ Adds w w')))

  answered :
      (w : World) (o : Outcome World (Unit {0}))
      → req.action_type ≢ ""
      → Ensures (λ u w'. Adds w w') (λ e w'. (events w' ≡ events w) ⊎ Adds w w') o
      → Ensures (Tells w) (λ e w'. ⊥) (event_answer c o)
  answered w _ named (returned added) = returned (inl (refl, named, added))
  answered w _ named (failed h) = returned (inr (inr (refl, named, h)))

  -- When no other client writes to the table of events, the achievement handler answers a bound
  -- request with a response, never with an error or a panic. With status 201 the action type is not
  -- empty, and one row has been added: the user of the request, its action type and its key, under
  -- the identifier that the ULID generator gives in the world of the call. With 400 the action type
  -- is empty and nothing has been called. Otherwise the status is 500, the action type is not empty,
  -- and either that row has been added or none.
  pub handle_event_lem : (w : World) → Ensures (Tells w) (λ e w'. ⊥) (handle_event p c (some req) w)
  unfolding handle_event
  handle_event_lem w = elim (Bool-cases (str_eq req.action_type "")) [
    | inl empty ↦ rw empty (returned (inr (inl (refl, (eq_iff req.action_type "").0 empty, refl))))
    | inr given ↦ rw given (
        answered w _ (λ e. ground (arith, eq_iff req.action_type ""))
          (record_event_lem p table (event_input c req) w))
  ]

  created :
      (w w' : World) (r : Response)
      → handle_event p c (some req) w ≡ returns r w'
      → r.status ≡ 201
      → Adds w w'
  created w w' r is ok = added (Ensures-returns r w' (rw is at (handle_event_lem w)))
    where
      added : Tells w r w' → Adds w w'
      added (inl (status, named, h)) = h
      added (inr (inl (status, empty, same))) = absurd (ground (arith, ok))
      added (inr (inr (status, named, rest))) = absurd (ground (arith, ok))

  -- When no other client writes to the table of events, and a request is answered by status 201 in
  -- one world and again in the world after it, then two rows have been added, both with the user of
  -- the request, its action type and its key, each under the identifier that the ULID generator gives
  -- in the world of its call.
  pub handle_event-twice :
      (w w₁ w₂ : World) (r₁ r₂ : Response)
      → handle_event p c (some req) w ≡ returns r₁ w₁
      → handle_event p c (some req) w₁ ≡ returns r₂ w₂
      → r₁.status ≡ 201
      → r₂.status ≡ 201
      → events w₂ ≡ asked_row w₁ ∷ asked_row w ∷ events w
  handle_event-twice w w₁ w₂ r₁ r₂ once again ok₁ ok₂ =
      created w₁ w₂ r₂ again ok₂
      ∙ ap (λ (es : List EventRow). asked_row w₁ ∷ es) (created w w₁ r₁ once ok₁)
