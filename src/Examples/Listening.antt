-- ===== src/Examples/Listening.antt =====
-- A listener that fails twice for a while, and then for good.
use gotalk.Common.{◌≡◌, List, [], ◌∷◌, failed, eof}
use gotalk.Server.{Accepted, connection, temporary, final, accept}
use gotalk.Server.Backoff.{plan, first_final, accept-plan}

abbrev results : List Accepted
results = temporary failed ∷ connection 1 ∷ temporary failed ∷ final eof ∷ connection 2 ∷ []

accept-plan_example : accept 0 results ≡ (plan 0 results, first_final results)
accept-plan_example = accept-plan results
