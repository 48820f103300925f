-- ===== src/Process/Threads.antt =====
-- What the goroutine for the shutdown has done at any point of the process, and that main's own calls
-- do not depend on it.
use mathlib.Core.List.{append_assoc}
use mileage_core.Base.{
  ℕ, zero, suc, Bool, true, false, ◌≡◌, refl, sym, ap, ◌∙◌, String, Option, none, some, List, [],
  ◌∷◌, ◌++◌, if◌then◌else◌,
}
use mileage_core.Middleware.{info_level, error_level}
use mileage_core.Process.{
  Call, log_line, notify, close_server, Thread, main_thread, shutdown_thread, Trace, Host,
  Goroutine, launched, waiting, signalled, closed, over, shut_down, take_turns, meanwhile, call,
}

-- The calls of one of the two, the latest first.
abbrev pub same_thread : Thread → Thread → Bool
same_thread main_thread main_thread = true
same_thread shutdown_thread shutdown_thread = true
same_thread main_thread shutdown_thread = false
same_thread shutdown_thread main_thread = false

abbrev pub calls_of : Thread → Trace → List Call
calls_of x [] = []
calls_of x ((y, c) ∷ t) = let rest = calls_of x t in if same_thread x y then c ∷ rest else rest

-- One trace continues another.
abbrev pub Grows : Trace → Trace → Type 0
Grows t t' = (new : Trace) × (t' ≡ new ++ t)

Grows-trans : {a b c : Trace} → Grows a b → Grows b c → Grows a c
Grows-trans {a} (early, first) (late, second) =
    (late ++ early, second ∙ ap (λ t. late ++ t) first ∙ sym (append_assoc late early a))

abbrev pub shutting_down : List Call
shutting_down = log_line info_level "shutting down server..." none ∷ notify ∷ []

-- The line for an error of Echo.Close.
abbrev pub error_line : Option String → List Call
error_line none = []
error_line (some e) = log_line error_level "server shutdown error" (some e) ∷ []

-- The trace after one more call.
pub Grows-call : {t t' : Trace} (x : Thread × Call) → Grows t t' → Grows t (x ∷ t')
Grows-call x (new, is) = (x ∷ new, ap (λ (u : Trace). x ∷ u) is)

module _ (h : Host) where
  -- The error that Echo.Close has given to the goroutine at an earlier point of the trace.
  abbrev pub Answered : Trace → Option String → Type 0
  Answered t e =
      (at : Trace) × Grows ((shutdown_thread, close_server) ∷ at) t
      × (calls_of shutdown_thread at ≡ shutting_down)
      × (e ≡ h.error close_server at)

  -- The calls of the goroutine, by where it stands.
  abbrev pub Progress : Goroutine → Trace → Type 0
  Progress launched t = calls_of shutdown_thread t ≡ []
  Progress waiting t = calls_of shutdown_thread t ≡ notify ∷ []
  Progress signalled t = calls_of shutdown_thread t ≡ shutting_down
  Progress (closed e) t = (calls_of shutdown_thread t ≡ close_server ∷ shutting_down) × Answered t e
  Progress over t =
      (e : Option String) × Answered t e
      × (calls_of shutdown_thread t ≡ error_line e ++ (close_server ∷ shutting_down))

  -- A call of main leaves the goroutine where it is.
  pub Progress-call :
      (g : Goroutine) (t : Trace) (c : Call) → Progress g t → Progress g ((main_thread, c) ∷ t)
  Progress-call launched t c is = is
  Progress-call waiting t c is = is
  Progress-call signalled t c is = is
  Progress-call (closed e) t c (is, (at, grown, before, answer)) =
      (is, (at, Grows-call _ grown, before, answer))
  Progress-call over t c (e, (at, grown, before, answer), is) =
      (e, (at, Grows-call _ grown, before, answer), is)

  -- One step of the goroutine.
  Progress-shut_down :
      (g : Goroutine) (t : Trace) → Progress g t → Progress (shut_down h g t).0 (shut_down h g t).1
  unfolding shut_down
  Progress-shut_down launched t is = ap (λ (cs : List Call). notify ∷ cs) is
  Progress-shut_down waiting t is =
      ap (λ (cs : List Call). log_line info_level "shutting down server..." none ∷ cs) is
  Progress-shut_down signalled t is =
      (ap (λ (cs : List Call). close_server ∷ cs) is, (t, ([], refl), is, refl))
  Progress-shut_down (closed none) t (is, answered) = (none, answered, is)
  Progress-shut_down (closed (some e)) t (is, (at, grown, before, answer)) = (
    some e,
    (at, Grows-call _ grown, before, answer),
    ap (λ (cs : List Call). log_line error_level "server shutdown error" (some e) ∷ cs) is,
  )
  Progress-shut_down over t p = p

  shut_down-grown :
      (g : Goroutine) (t : Trace)
      → (calls_of main_thread (shut_down h g t).1 ≡ calls_of main_thread t)
        × Grows t (shut_down h g t).1
  unfolding shut_down
  shut_down-grown launched t = (refl, (_ ∷ [], refl))
  shut_down-grown waiting t = (refl, (_ ∷ [], refl))
  shut_down-grown signalled t = (refl, (_ ∷ [], refl))
  shut_down-grown (closed none) t = (refl, ([], refl))
  shut_down-grown (closed (some e)) t = (refl, (_ ∷ [], refl))
  shut_down-grown over t = (refl, ([], refl))

  -- The goroutine's calls are in order, main has made these calls, and the trace continues t.
  pub record Reached (t : Trace) (mine : List Call) (s : Goroutine × Trace) : Type 0 where
    pub progress : Progress s.0 s.1
    pub by_main : calls_of main_thread s.1 ≡ mine
    pub grown : Grows t s.1

  take_turns-Reached :
      (t : Trace) (mine : List Call) (n : ℕ) (g : Goroutine) (t' : Trace)
      → Reached t mine (g, t')
      → Reached t mine (take_turns h n (g, t'))
  unfolding take_turns
  take_turns-Reached t mine zero g t' r = r
  take_turns-Reached t mine (suc n) g t' r = take_turns-Reached t mine n _ _ (record {
    progress = Progress-shut_down g t' r.progress;
    by_main = (shut_down-grown g t').0 ∙ r.by_main;
    grown = Grows-trans r.grown (shut_down-grown g t').1;
  })

  pub meanwhile-Reached :
      (t : Trace) (mine : List Call) (s : Goroutine × Trace)
      → Reached t mine s
      → Reached t mine (meanwhile h s)
  meanwhile-Reached t mine (g, t') r = take_turns-Reached t mine _ g t' r

  pub call-Reached :
      (t : Trace) (mine : List Call) (c : Call) (s : Goroutine × Trace)
      → Reached t mine s
      → Reached t (c ∷ mine) (call h c s)
  call-Reached t mine c (g, t') r = meanwhile-Reached t (c ∷ mine) _ (record {
    progress = Progress-call g t' c r.progress;
    by_main = ap (λ (cs : List Call). c ∷ cs) r.by_main;
    grown = Grows-call _ r.grown;
  })

  -- What has been reached continues itself from here on.
  pub Reached-again :
      (t : Trace) (mine : List Call) (s : Goroutine × Trace) → Reached t mine s → Reached s.1 mine s
  Reached-again t mine s r = record {
    progress = r.progress;
    by_main = r.by_main;
    grown = ([], refl);
  }
