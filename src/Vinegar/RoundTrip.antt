-- ===== src/Vinegar/RoundTrip.antt =====
-- An exception of a builtin class on the other side: its class, arguments and fields.
use rpyc_async.Prelude.{
  ◌&&◌, not, List, [], ◌∷◌, Option, some, ◌≡◌, if◌then◌else◌, ℕ_eq, list_eq, list_matches,
}
use rpyc_async.Outcome.{Outcome, ok, raise, out_of_fuel}
use rpyc_async.Brine.Syntax.{Value}
use rpyc_async.Protocol.Attributes.{Name}
use rpyc_async.Vinegar.{Texts, safe_value, is_skipped}

-- The last value that is listed for a name.
abbrev last_value : Name → List (Name × Value) → Option Value → Option Value
last_value name [] before = before
last_value name ((n, v) ∷ rest) before =
    last_value name rest (if list_matches n name then some v else before)

-- The class takes each of the listed attributes.
abbrev pub Accepts : (Name → Value → Outcome (Unit {0})) → List (Name × Value) → Type 0
Accepts accepts [] = Unit {0}
Accepts accepts ((n, v) ∷ l) = (accepts n v ≡ ok tt) × Accepts accepts l

module _ (x : Texts) where
  -- What the peer is shown under a name, one field after the other.
  abbrev pub shown_field : Name → Name → Outcome Value → Option Value → Option Value
  shown_field name n (ok v) before =
      if not (is_skipped x n) && list_matches n name then some (safe_value x v) else before
  shown_field name n (raise e) before = before
  shown_field name n out_of_fuel before = before

  abbrev pub shown : Name → List (Name × Outcome Value) → Option Value → Option Value
  shown name [] before = before
  shown name ((n, o) ∷ fields) before = shown name fields (shown_field name n o before)
