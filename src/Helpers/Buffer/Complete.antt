-- ===== src/Helpers/Buffer/Complete.antt =====
-- `buffiter` yields everything, in order.
use rpyc_async.Prelude.{
  ℕ, zero, suc, ◌+◌, ◌*◌, ◌≤◌, ◌<◌, List, [], ◌∷◌, ◌++◌, All, length, take, drop, ltb,
  if◌then◌else◌, ℤ, pos, negsuc, ltb_ℤ, ◌≡◌, refl, arith, ap, sym, ◌∙◌, take-append-drop,
  length-drop, max, ltb-false→le, le→ltb-false, Bool-cases, inl, inr, subst,
}
use rpyc_async.Outcome.{ok}
use rpyc_async.Helpers.Buffer.{min_ℤ, handle_buffiter, Run, buffer_loop, buffiter}

-- A count that is at least 1, and at most `limit`.
abbrev pub Between : ℕ → ℤ → Type 0
Between limit (pos n) = (1 ≤ n) × (n ≤ limit)
Between limit (negsuc n) = ⊥

mul_pos : (n f : ℕ) → 1 ≤ n → 1 ≤ f → 1 ≤ n * f
mul_pos n f a b = grind arith

min_count :
    (p m limit : ℕ)
    → 1 ≤ p
    → 1 ≤ m
    → m ≤ limit
    → (k : ℕ) × (min_ℤ (pos p) (pos m) ≡ pos k) × (1 ≤ k) × (k ≤ limit)
min_count p m limit a b c = elim (Bool-cases (ltb (m + 0) (p + 0))) [
  | inl more ↦ (m, rw more refl, b, c)
  | inr less ↦ (p, rw less refl, a, omega (arith, ltb-false→le (m + 0) (p + 0) less))
]

next_count :
    (limit n m f : ℕ)
    → 1 ≤ n
    → 1 ≤ m
    → m ≤ limit
    → 1 ≤ f
    → (k : ℕ) × (min_ℤ (pos (n * f)) (pos m) ≡ pos k) × (1 ≤ k) × (k ≤ limit)
next_count limit n m f a b c d = min_count (n * f) m limit (mul_pos n f a d) b c

module _ {ℓ} {A : Type ℓ} where
  abbrev pub Completes : ℕ → List A → Run A → Type ℓ
  Completes limit items run =
      (run.yielded ≡ items) × (run.end ≡ ok tt) × All (Between limit) run.asked

  no_error :
      (factor : ℕ) (x y : Run A) → 1 ≤ factor → (if ltb_ℤ (pos factor) (pos 1) then x else y) ≡ y
  no_error factor x y h = rw (le→ltb-false (factor + 0) (1 + 0) (omega arith)) refl

  pub buffer_loop_complete :
      (fuel limit n m f : ℕ) (items : List A)
      → length items < fuel
      → 1 ≤ n
      → n ≤ limit
      → 1 ≤ m
      → m ≤ limit
      → 1 ≤ f
      → Completes limit items (buffer_loop fuel (pos n) (pos m) (pos f) items)
  unfolding buffer_loop handle_buffiter
  buffer_loop_complete zero limit n m f items h a b c d e = absurd (omega arith)
  buffer_loop_complete (suc fuel) limit zero m f items h a b c d e = absurd (omega arith)
  buffer_loop_complete (suc fuel) limit (suc n) m f [] h a b c d e = (refl, refl, ((a, b), tt))
  buffer_loop_complete (suc fuel) limit (suc n) m f (x ∷ xs) h a b c d e =
      let (k, same, low, high) = next_count limit (suc n) m f a c d e in
      let (all, done, counts) : Completes limit (drop n xs)
          (buffer_loop fuel (min_ℤ (pos (suc n * f)) (pos m)) (pos m) (pos f) (drop n xs)) =
        subst
          (λ count.
            Completes limit (drop n xs) (buffer_loop fuel count (pos m) (pos f) (drop n xs)))
          (sym same)
          (buffer_loop_complete fuel limit k m f (drop n xs) (omega (arith, length-drop n xs)) low
            high c d e) in
      (
        ap (λ rest. x ∷ (take n xs ++ rest)) all ∙ ap (◌∷◌ x) (take-append-drop n xs),
        done,
        ((a, b), counts),
      )

  -- Where the chunk size, the maximal chunk size and the factor are at least 1, buffiter yields
  -- every item that the remote iterator gives, in order, and ends without an error; each of its
  -- requests asks for at least one item and for no more than the greater of the chunk size and the
  -- maximal chunk size.
  pub buffiter_complete :
      (chunk max_chunk factor : ℕ) (items : List A)
      → 1 ≤ chunk
      → 1 ≤ max_chunk
      → 1 ≤ factor
      → Completes
          (max chunk max_chunk)
          items
          (buffiter (pos chunk) (pos max_chunk) (pos factor) items)
  unfolding buffiter
  buffiter_complete chunk max_chunk factor items a b c =
      subst (λ run. Completes (max chunk max_chunk) items run) (sym (no_error factor _ _ c))
        (buffer_loop_complete (suc (length items)) (max chunk max_chunk) chunk max_chunk factor
          items (omega arith) a (omega arith) b (omega arith) c)
