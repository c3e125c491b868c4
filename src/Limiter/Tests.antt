-- ===== src/Limiter/Tests.antt =====
-- Runs of the limiter, on which its theorems are applied.
use nd3x.Prelude.{◌≤◌, refl, arith, List, [], ◌∷◌, length}
use nd3x.Limiter.{used_tokens, acquire_from}
use nd3x.Limiter.Window.{Request, serve, minute, serve-bounded}
use nd3x.Limiter.Wait.{IsGranted, acquire-ends}

abbrev requests : List Request
requests =
    record { now = 1000; estimated = 400 }
    ∷ record { now = 2000; estimated = 500 }
    ∷ record { now = 2500; estimated = 300 }
    ∷ record { now = 61500; estimated = 300 }
    ∷ []

serve-bounded_example :
    (length (minute 61500 (serve 2 1000 requests [] [])) ≤ 2)
    × (used_tokens (minute 61500 (serve 2 1000 requests [] [])) ≤ 1000)
serve-bounded_example = serve-bounded 2 1000 requests 61500 (omega arith)

acquire-ends_example :
    IsGranted (acquire_from 241 1 1000 300 (λ n. 7) 5000 (record { ts = 4000; tokens = 900 } ∷ []))
acquire-ends_example =
    acquire-ends 1 1000 300 (λ n. 7) (omega arith) (omega arith) 5000
      (record { ts = 4000; tokens = 900 } ∷ []) refl
