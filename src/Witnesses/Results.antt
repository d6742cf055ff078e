-- ===== src/Witnesses/Results.antt =====
-- An answer between two callbacks.
use rpyc_async.Prelude.{◌≡◌, refl, false, true, [], ◌∷◌, ℕ_eq}
use rpyc_async.Protocol.Results.{fresh_result, add_all, call}

late_answer : call true false 8 (add_all (1 ∷ []) fresh_result) ≡ add_all (1 ∷ []) fresh_result
unfolding call add_all fresh_result
late_answer = refl
