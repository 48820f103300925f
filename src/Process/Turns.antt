-- ===== src/Process/Turns.antt =====
-- What the goroutine for the shutdown has done after so many turns.
use mileage_core.Base.{
  ℕ, zero, suc, String, ◌+◌, ◌≤◌, ◌≡◌, refl, sym, ap, subst, ◌⊎◌, inl, inr, Option, none, some, [],
  ◌∷◌, ◌++◌, arith,
}
use mileage_core.Process.{
  Call, notify, close_server, sync_logger, main_thread, shutdown_thread, Trace, Host, Goroutine,
  launched, waiting, signalled, closed, over, shut_down, take_turns, meanwhile, call,
}
use mileage_core.Process.Threads.{
  calls_of, shutting_down, error_line, Answered, Progress, Progress-call,
}

module _ (h : Host) where
  -- The turns that the schedule has given by now, since the goroutine was launched at `base`: there,
  -- and after each call of main.
  abbrev pub turns_given : Trace → Trace → ℕ
  turns_given base [] = h.turns base
  turns_given base ((main_thread, c) ∷ new) =
      h.turns ((main_thread, c) ∷ new ++ base) + turns_given base new
  turns_given base ((shutdown_thread, c) ∷ new) = turns_given base new

  -- The calls of the goroutine after k turns: signal.Notify, the line for a signal, Echo.Close, and the
  -- line for the error that Close has given, if it is one.
  abbrev pub ShuttingDown : ℕ → Trace → Type 0
  ShuttingDown k t =
      ((k ≡ 0) × (calls_of shutdown_thread t ≡ []))
      ⊎ (((k ≡ 1) × (calls_of shutdown_thread t ≡ notify ∷ []))
          ⊎ (((k ≡ 2) × (calls_of shutdown_thread t ≡ shutting_down))
              ⊎ (((k ≡ 3) × (calls_of shutdown_thread t ≡ close_server ∷ shutting_down))
                  ⊎ ((4 ≤ k)
                      × (e : Option String) × Answered h t e
                      × (calls_of shutdown_thread t
                          ≡ error_line e ++ (close_server ∷ shutting_down))))))

  -- Where it stands after k turns.
  abbrev pub Stands : Goroutine → ℕ → Type 0
  Stands launched k = k ≡ 0
  Stands waiting k = k ≡ 1
  Stands signalled k = k ≡ 2
  Stands (closed e) k = k ≡ 3
  Stands over k = 4 ≤ k

  Stands-shut_down :
      (g : Goroutine) (t : Trace) (k : ℕ) → Stands g k → Stands (shut_down h g t).0 (suc k)
  unfolding shut_down
  Stands-shut_down launched t k is = omega (arith, is)
  Stands-shut_down waiting t k is = omega (arith, is)
  Stands-shut_down signalled t k is = omega (arith, is)
  Stands-shut_down (closed none) t k is = omega (arith, is)
  Stands-shut_down (closed (some e)) t k is = omega (arith, is)
  Stands-shut_down over t k is = omega (arith, is)

  -- A trace after base to which the schedule has given as many turns as to this one.
  abbrev SameTurns : Trace → Trace → Trace → Type 0
  SameTurns base new t =
      (new' : Trace) × (t ≡ new' ++ base) × (turns_given base new' ≡ turns_given base new)

  SameTurns-call :
      (c : Call) (t base new : Trace)
      → t ≡ new ++ base
      → SameTurns base new ((shutdown_thread, c) ∷ t)
  SameTurns-call c t base new is =
      ((shutdown_thread, c) ∷ new, ap (λ (u : Trace). (shutdown_thread, c) ∷ u) is, refl)

  SameTurns-shut_down :
      (g : Goroutine) (t base new : Trace)
      → t ≡ new ++ base
      → SameTurns base new (shut_down h g t).1
  unfolding shut_down
  SameTurns-shut_down launched t base new is = SameTurns-call _ t base new is
  SameTurns-shut_down waiting t base new is = SameTurns-call _ t base new is
  SameTurns-shut_down signalled t base new is = SameTurns-call _ t base new is
  SameTurns-shut_down (closed none) t base new is = (new, is, refl)
  SameTurns-shut_down (closed (some e)) t base new is = SameTurns-call _ t base new is
  SameTurns-shut_down over t base new is = (new, is, refl)

  -- After the turns that were given the goroutine stands where they lead.
  abbrev pub Counted : Trace → Goroutine × Trace → Type 0
  Counted base s = (new : Trace) × (s.1 ≡ new ++ base) × Stands s.0 (turns_given base new)

  take_turns-Counted :
      (n k : ℕ) (g : Goroutine) (t base new : Trace)
      → Stands g k
      → t ≡ new ++ base
      → turns_given base new ≡ n + k
      → Counted base (take_turns h n (g, t))
  unfolding take_turns
  take_turns-Counted zero k g t base new stands is given =
      let all : k ≡ turns_given base new = omega (arith, given) in
      (new, is, subst (Stands g) all stands)
  take_turns-Counted (suc n) k g t base new stands is given =
      let (new', is', same) = SameTurns-shut_down g t base new is in
      take_turns-Counted n (suc k) _ _ base new' (Stands-shut_down g t k stands) is'
        (omega (arith, same, given))

  pub launched-Counted : (base : Trace) → Counted base (meanwhile h (launched, base))
  launched-Counted base =
      take_turns-Counted (h.turns base) 0 launched base base [] refl refl (omega arith)

  pub call-Counted :
      (base : Trace) (c : Call) (s : Goroutine × Trace) → Counted base s → Counted base (call h c s)
  call-Counted base c (g, t) (new, is, stands) =
      take_turns-Counted _ (turns_given base new) g _ base ((main_thread, c) ∷ new) stands
        (ap (λ (u : Trace). (main_thread, c) ∷ u) is)
        (ap (λ (u : Trace). h.turns ((main_thread, c) ∷ u) + turns_given base new) (sym is))

  shutting_down_lem :
      (g : Goroutine) (k : ℕ) (t : Trace) → Progress h g t → Stands g k → ShuttingDown k t
  shutting_down_lem launched k t is at = inl (at, is)
  shutting_down_lem waiting k t is at = inr (inl (at, is))
  shutting_down_lem signalled k t is at = inr (inr (inl (at, is)))
  shutting_down_lem (closed e) k t p at = inr (inr (inr (inl (at, p.0))))
  shutting_down_lem over k t (e, answered, is) at = inr (inr (inr (inr (at, e, answered, is))))

  -- The end of main, after the last turns.
  pub sync_logger-ShuttingDown :
      (base : Trace) (s : Goroutine × Trace)
      → Progress h s.0 s.1
      → Counted base s
      → (new : Trace) × (s.1 ≡ new ++ base)
        × ShuttingDown (turns_given base new) ((main_thread, sync_logger) ∷ s.1)
  sync_logger-ShuttingDown base (g, t) p (new, is, stands) =
      (new, is, shutting_down_lem g _ _ (Progress-call h g t sync_logger p) stands)
