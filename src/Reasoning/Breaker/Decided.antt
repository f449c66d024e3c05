-- ===== src/Reasoning/Breaker/Decided.antt =====
-- The calls on a breaker of circuit_breaker.py that report a result, and calls one after another.
use tread_agent.Base.{◌≡◌, refl, ap, Bool, true, false, List, [], ◌∷◌, ◌++◌}
use tread_agent.Reasoning.Breaker.{CircuitBreaker, Call, polled, succeeded, failed, step, run}

-- Whether the reported results were successes, in order.
abbrev pub results : List Call → List Bool
results [] = []
results (polled _ ∷ cs) = results cs
results (succeeded ∷ cs) = true ∷ results cs
results (failed _ _ ∷ cs) = false ∷ results cs

pub results-append : (cs ds : List Call) → results (cs ++ ds) ≡ results cs ++ results ds
results-append [] ds = refl
results-append (polled _ ∷ cs) ds = results-append cs ds
results-append (succeeded ∷ cs) ds = ap (λ rs. true ∷ rs) (results-append cs ds)
results-append (failed _ _ ∷ cs) ds = ap (λ rs. false ∷ rs) (results-append cs ds)

pub run-append : (b : CircuitBreaker) (cs ds : List Call) → run b (cs ++ ds) ≡ run (run b cs) ds
unfolding run
run-append b [] ds = refl
run-append b (c ∷ cs) ds = run-append (step b c) cs ds
