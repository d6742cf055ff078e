-- ===== src/Helpers/Proxies/Faithful.antt =====
-- The wrapper that `async_` gives is one of its argument.
use rpyc_async.Prelude.{
  ℕ, Bool, true, false, Option, none, some, ◌==◌, ==_iff, if◌then◌else◌, ◌≡◌, ◌≢◌, refl, arith, inl,
  inr, Bool-cases, ◌⊎◌, subst, sym, ◌∙◌, ap,
}
use rpyc_async.Outcome.{Outcome, ok, raise}
use rpyc_async.Helpers.Proxies.{
  Cell, free, object, wrapper, Memory, update, cache_wrapper, make_wrapper, after_lookup, async_,
  is_for, remove, Reachable, start, makes, calls, ends,
}

-- The object at an address: its number, for the proxies that a wrapper can have.
abbrev pub Is : ℕ → Cell → Type 0
Is n free = ⊥
Is n (object m is_netref is_callable) = (m ≡ n) × ((is_netref ≡ true) × (is_callable ≡ true))
Is n (wrapper q m) = ⊥

-- A wrapper's proxy is there, and it is the one of the wrapper.
abbrev pub Proxied : (ℕ → Cell) → Cell → Type 0
Proxied cells free = Unit {0}
Proxied cells (object n is_netref is_callable) = Unit {0}
Proxied cells (wrapper p n) = Is n (cells p)

-- What is at an address of the cache is a wrapper, of the key or at the key.
abbrev pub Wraps : ℕ → ℕ → Cell → Type 0
Wraps key c free = ⊥
Wraps key c (object n is_netref is_callable) = ⊥
Wraps key c (wrapper p n) = (key ≡ p) ⊎ (key ≡ c)

abbrev pub Cached : (ℕ → Cell) → ℕ → Option ℕ → Type 0
Cached cells key none = Unit {0}
Cached cells key (some c) = Wraps key c (cells c)

record IsMemory (s : Memory) : Type 0 where
  proxied : (k : ℕ) → Proxied s.cells (s.cells k)
  cached : (key : ℕ) → Cached s.cells key (s.cache key)

-- Where a cell is filled that was free, what holds of the others goes on.
Is-fill :
    (cells : ℕ → Cell) (k : ℕ) (cell : Cell) (n p : ℕ)
    → cells k ≡ free
    → Is n (cells p)
    → Is n (update cells k cell p)
Is-fill cells k cell n p e h = elim (Bool-cases (k == p)) [
  | inl same ↦ absurd (subst (Is n) (ap cells (sym ((==_iff k p).0 same)) ∙ e) h)
  | inr other ↦ rw other h
]

Proxied-fill :
    (cells : ℕ → Cell) (k : ℕ) (cell any : Cell)
    → cells k ≡ free
    → Proxied cells any
    → Proxied (update cells k cell) any
Proxied-fill cells k cell free e h = tt
Proxied-fill cells k cell (object n x y) e h = tt
Proxied-fill cells k cell (wrapper p n) e h = Is-fill cells k cell n p e h

Cached-fill :
    (cells : ℕ → Cell) (k key : ℕ) (cell : Cell) (found : Option ℕ)
    → cells k ≡ free
    → Cached cells key found
    → Cached (update cells k cell) key found
Cached-fill cells k key cell none e h = tt
Cached-fill cells k key cell (some c) e h = elim (Bool-cases (k == c)) [
  | inl same ↦ absurd (subst (Wraps key c) (ap cells (sym ((==_iff k c).0 same)) ∙ e) h)
  | inr other ↦ rw other h
]

update-Proxied :
    (s : Memory) (k : ℕ) (cell : Cell)
    → IsMemory s
    → s.cells k ≡ free
    → Proxied s.cells cell
    → (j : ℕ) → Proxied (update s.cells k cell) (update s.cells k cell j)
update-Proxied s k cell v e new j = elim (Bool-cases (k == j)) [
  | inl same ↦ rw same (Proxied-fill s.cells k cell cell e new)
  | inr other ↦ rw other (Proxied-fill s.cells k cell (s.cells j) e (v.proxied j))
]

makes-IsMemory :
    (s : Memory) (k n : ℕ) (is_netref is_callable : Bool)
    → IsMemory s
    → s.cells k ≡ free
    → IsMemory (record s { cells = update s.cells k (object n is_netref is_callable) })
makes-IsMemory s k n x y v e = record {
  proxied = update-Proxied s k (object n x y) v e tt;
  cached = λ key. Cached-fill s.cells k key (object n x y) (s.cache key) e (v.cached key);
}

same_number : (i : ℕ) → (i == i) ≡ true
same_number i = ground (arith, ==_iff i i)

wraps_new :
    (cells : ℕ → Cell) (p n caller key : ℕ)
    → ((key ≡ p) ⊎ (key ≡ caller))
    → Cached (update cells caller (wrapper p n)) key (some caller)
wraps_new cells p n caller key h = rw (same_number caller) h

cache_wrapper-IsMemory :
    (s : Memory) (p n caller : ℕ)
    → IsMemory s
    → s.cells caller ≡ free
    → Is n (s.cells p)
    → IsMemory (cache_wrapper p n caller s)
cache_wrapper-IsMemory s p n caller v e there = record {
  proxied = update-Proxied s caller (wrapper p n) v e there;
  cached = λ key. elim (Bool-cases (p == key)) [
    | inl same ↦ rw same (wraps_new s.cells p n caller key (inl (sym ((==_iff p key).0 same))))
    | inr other ↦ rw other (elim (Bool-cases (caller == key)) [
      | inl own ↦ rw own (wraps_new s.cells p n caller key (inr (sym ((==_iff caller key).0 own))))
      | inr old ↦
          rw old (Cached-fill s.cells caller key (wrapper p n) (s.cache key) e (v.cached key))
    ])
  ];
}

make_wrapper-IsMemory :
    (s : Memory) (p caller : ℕ) (cell : Cell)
    → IsMemory s
    → s.cells caller ≡ free
    → s.cells p ≡ cell
    → IsMemory (make_wrapper p caller cell s).1
unfolding make_wrapper
make_wrapper-IsMemory s p caller free v e c = v
make_wrapper-IsMemory s p caller (wrapper q m) v e c = v
make_wrapper-IsMemory s p caller (object n true true) v e c =
    cache_wrapper-IsMemory s p n caller v e (subst (Is n) (sym c) (refl, (refl, refl)))
make_wrapper-IsMemory s p caller (object n true false) v e c = v
make_wrapper-IsMemory s p caller (object n false y) v e c = v

after_lookup-IsMemory :
    (s : Memory) (p caller : ℕ) (found : Option ℕ)
    → IsMemory s
    → s.cells caller ≡ free
    → IsMemory (after_lookup p caller found s).1
unfolding make_wrapper
after_lookup-IsMemory s p caller (some c) v e = v
after_lookup-IsMemory s p caller none v e = make_wrapper-IsMemory s p caller (s.cells p) v e refl

Is-remove : (cells : ℕ → Cell) (k p n : ℕ) → (k ≢ p) → Is n (cells p) → Is n (update cells k free p)
Is-remove cells k p n h there = elim (Bool-cases (k == p)) [
  | inl same ↦ absurd (h ((==_iff k p).0 same))
  | inr other ↦ rw other there
]

Proxied-remove :
    (s : Memory) (k j : ℕ) (cell : Cell)
    → ((c n : ℕ) → s.cells c ≢ wrapper k n)
    → s.cells j ≡ cell
    → Proxied s.cells cell
    → Proxied (update s.cells k free) cell
Proxied-remove s k j free unheld e h = tt
Proxied-remove s k j (object n x y) unheld e h = tt
Proxied-remove s k j (wrapper p n) unheld e h =
    Is-remove s.cells k p n (λ same. unheld j n (e ∙ ap (λ q. wrapper q n) (sym same))) h

Cached-remove :
    (s : Memory) (k key : ℕ) (found : Option ℕ)
    → Cached s.cells key found
    → Cached (update s.cells k free) key (if is_for k found then none else found)
Cached-remove s k key none h = tt
Cached-remove s k key (some c) h = elim (Bool-cases (k == c)) [
  | inl same ↦ rw same tt
  | inr other ↦ rw other (rw other h)
]

remove-IsMemory :
    (s : Memory) (k : ℕ)
    → ((c n : ℕ) → s.cells c ≢ wrapper k n)
    → IsMemory s
    → IsMemory (remove k s)
remove-IsMemory s k unheld v = record {
  proxied = λ j. elim (Bool-cases (k == j)) [
    | inl same ↦ rw same tt
    | inr other ↦ rw other (Proxied-remove s k j (s.cells j) unheld refl (v.proxied j))
  ];
  cached = λ key. Cached-remove s k key (s.cache key) (v.cached key);
}

Reachable-IsMemory : (s : Memory) → Reachable s → IsMemory s
unfolding async_ make_wrapper
Reachable-IsMemory _ start = record { proxied = λ k. tt; cached = λ k. tt }
Reachable-IsMemory _ (makes s k n x y r e) = makes-IsMemory s k n x y (Reachable-IsMemory s r) e
Reachable-IsMemory _ (calls s p caller r e) =
    after_lookup-IsMemory s p caller (s.cache p) (Reachable-IsMemory s r) e
Reachable-IsMemory _ (ends s k r unheld) = remove-IsMemory s k unheld (Reachable-IsMemory s r)

-- A wrapper of what is at the address `p`.
abbrev pub Refers : (ℕ → Cell) → ℕ → Cell → Type 0
Refers cells p free = ⊥
Refers cells p (object n is_netref is_callable) = ⊥
Refers cells p (wrapper q n) = (p ≡ q) × Is n (cells p)

-- What `async_` must say for the address `p`.
abbrev pub Answers : (ℕ → Cell) → ℕ → Outcome ℕ → Type 0
Answers cells p (ok c) = (p ≡ c) ⊎ Refers cells p (cells c)
Answers cells p (raise e) = (n : ℕ) → Is n (cells p) → ⊥
Answers cells p Outcome.out_of_fuel = ⊥

Wraps-Refers :
    (cells : ℕ → Cell) (p c : ℕ) (cell : Cell)
    → Proxied cells cell
    → Wraps p c cell
    → (p ≡ c) ⊎ Refers cells p cell
Wraps-Refers cells p c (wrapper q n) there (inl same) =
    inr (same, subst (λ k. Is n (cells k)) (sym same) there)
Wraps-Refers cells p c (wrapper q n) there (inr own) = inl own
Wraps-Refers cells p c free there h = absurd h
Wraps-Refers cells p c (object n x y) there h = absurd h

make_wrapper-Answers :
    (s : Memory) (p caller : ℕ) (cell : Cell)
    → s.cells caller ≡ free
    → s.cells p ≡ cell
    → Answers (make_wrapper p caller cell s).1.cells p (make_wrapper p caller cell s).0
unfolding make_wrapper
make_wrapper-Answers s p caller (object n true true) e c = inr (
    rw (same_number caller) (
      refl,
      Is-fill s.cells caller (wrapper p n) n p e (subst (Is n) (sym c) (refl, (refl, refl))),
    ))
make_wrapper-Answers s p caller (object n true false) e c =
    λ m h. absurd (cc (subst (Is m) c h).1.1)
make_wrapper-Answers s p caller (object n false y) e c = λ m h. absurd (cc (subst (Is m) c h).1.0)
make_wrapper-Answers s p caller free e c = λ m h. subst (Is m) c h
make_wrapper-Answers s p caller (wrapper q n) e c = λ m h. subst (Is m) c h

after_lookup-Answers :
    (s : Memory) (p caller : ℕ) (found : Option ℕ)
    → IsMemory s
    → s.cells caller ≡ free
    → Cached s.cells p found
    → Answers (after_lookup p caller found s).1.cells p (after_lookup p caller found s).0
unfolding make_wrapper
after_lookup-Answers s p caller (some c) v e h =
    Wraps-Refers s.cells p c (s.cells c) (v.proxied c) h
after_lookup-Answers s p caller none v e h = make_wrapper-Answers s p caller (s.cells p) e refl

-- After any creations of objects, calls of `async_` and ends of objects that no wrapper refers to,
-- with addresses used again, `async_` gives its argument itself or a wrapper of the very object
-- that is now at the address of its argument, which is then a callable netref; it raises only
-- where that is not a callable netref.
pub async_-Answers :
    (s : Memory) (p caller : ℕ)
    → Reachable s
    → s.cells caller ≡ free
    → Answers (async_ p caller s).1.cells p (async_ p caller s).0
unfolding async_ make_wrapper
async_-Answers s p caller r e =
    let v = Reachable-IsMemory s r in after_lookup-Answers s p caller (s.cache p) v e (v.cached p)
