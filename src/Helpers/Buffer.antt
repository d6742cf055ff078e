-- ===== src/Helpers/Buffer.antt =====
-- `buffiter` of rpyc_async/utils/helpers.py over the handler `_handle_buffiter` of
-- rpyc_async/core/protocol.py. The remote iterator is the list of what it still gives; the three
-- numbers are integers.
pub mod Complete
use rpyc_async.Prelude.{
  ℕ, zero, suc, ◌+◌, ◌-◌, ◌*◌, Bool, true, false, List, [], ◌∷◌, ◌++◌, length, take, drop, ltb,
  if◌then◌else◌, ℤ, pos, negsuc, ltb_ℤ,
}
use rpyc_async.Outcome.{Outcome, ok, raise, out_of_fuel, value_error, ◌>>=◌}

abbrev pub mul_ℤ : ℤ → ℤ → ℤ
mul_ℤ (pos m) (pos n) = pos (m * n)
mul_ℤ (negsuc m) (negsuc n) = pos (suc m * suc n)
mul_ℤ (pos zero) (negsuc n) = pos 0
mul_ℤ (pos (suc m)) (negsuc n) = negsuc (suc m * suc n - 1)
mul_ℤ (negsuc m) (pos zero) = pos 0
mul_ℤ (negsuc m) (pos (suc n)) = negsuc (suc m * suc n - 1)

abbrev pub min_ℤ : ℤ → ℤ → ℤ
min_ℤ a b = if ltb_ℤ b a then b else a

-- `tuple(itertools.islice(obj, count))`: the items, and what the iterator still gives.
unfoldable pub handle_buffiter {ℓ} : {A : Type ℓ} → ℤ → List A → Outcome (List A × List A)
handle_buffiter (pos n) items = ok (take n items, drop n items)
handle_buffiter (negsuc n) items = raise value_error

-- What a run of the generator yields, the counts that it asks for, and how it ends.
pub record Run {ℓ} (A : Type ℓ) : Type ℓ where
  pub yielded : List A
  pub asked : List ℤ
  pub end : Outcome (Unit {0})

-- The rest of a run behind one request.
abbrev pub and_then {ℓ} : {A : Type ℓ} → ℤ → List A → Run A → Run A
and_then count items run = record {
  yielded = items ++ run.yielded;
  asked = count ∷ run.asked;
  end = run.end;
}

-- The loop ends at an empty answer.
abbrev pub continue {ℓ} : {A : Type ℓ} → ℤ → Outcome (List A × List A) → (List A → Run A) → Run A
continue count (ok ([], rest)) next = record { yielded = []; asked = count ∷ []; end = ok tt }
continue count (ok (x ∷ xs, rest)) next = and_then count (x ∷ xs) (next rest)
continue count (raise e) next = record { yielded = []; asked = count ∷ []; end = raise e }
continue count out_of_fuel next = record { yielded = []; asked = count ∷ []; end = out_of_fuel }

unfoldable pub buffer_loop {ℓ} : {A : Type ℓ} → ℕ → ℤ → ℤ → ℤ → List A → Run A
unfolding handle_buffiter
buffer_loop zero count max_chunk factor items = record {
  yielded = [];
  asked = [];
  end = out_of_fuel;
}
buffer_loop (suc fuel) count max_chunk factor items =
    continue count (handle_buffiter count items)
      (λ rest. buffer_loop fuel (min_ℤ (mul_ℤ count factor) max_chunk) max_chunk factor rest)

-- An iterator of n items takes at most n answers that are not empty, and one that is.
unfoldable pub buffiter {ℓ} : {A : Type ℓ} → ℤ → ℤ → ℤ → List A → Run A
unfolding buffer_loop
buffiter chunk max_chunk factor items =
    if ltb_ℤ factor (pos 1)
    then record { yielded = []; asked = []; end = raise value_error }
    else buffer_loop (suc (length items)) chunk max_chunk factor items
