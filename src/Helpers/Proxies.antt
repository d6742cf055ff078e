-- ===== src/Helpers/Proxies.antt =====
-- `async_` of rpyc_async/utils/helpers.py with its cache, a `WeakValueDict` of rpyc_async/lib/colls.py
-- from the addresses of objects to wrappers. An address is used again when its object is gone.
pub mod Faithful
use rpyc_async.Prelude.{
  ℕ, suc, Bool, true, false, Option, none, some, ◌==◌, if◌then◌else◌, ◌≡◌, ◌≢◌, ◌&&◌, not, ◌||◌,
}
use rpyc_async.Outcome.{Outcome, ok, raise, type_error}

-- What is at an address: nothing; an object, which has a number of its own, by whether it is a netref
-- and callable; or an `_Async`, with the address and the number of its proxy.
pub data Cell : Type 0 where
  free : Cell
  object : ℕ → Bool → Bool → Cell
  wrapper : ℕ → ℕ → Cell

-- The objects, and `_async_proxies_cache`.
pub record Memory : Type 0 where
  pub cells : ℕ → Cell
  pub cache : ℕ → Option ℕ

abbrev pub update {ℓ} : {A : Type ℓ} → (ℕ → A) → ℕ → A → ℕ → A
update f i a j = if i == j then a else f j

-- `_async_proxies_cache[id(caller)] = _async_proxies_cache[pid] = caller`
abbrev pub cache_wrapper : ℕ → ℕ → ℕ → Memory → Memory
cache_wrapper p n caller s = record {
  cells = update s.cells caller (wrapper p n);
  cache = update (update s.cache caller (some caller)) p (some caller);
}

-- Behind the lookup in the cache: `p` is the address of the argument, `caller` a free one.
unfoldable pub make_wrapper : ℕ → ℕ → Cell → Memory → Outcome ℕ × Memory
make_wrapper p caller (object n is_netref is_callable) s =
    if is_netref && is_callable
    then (ok caller, cache_wrapper p n caller s)
    else (raise type_error, s)
make_wrapper p caller (wrapper q n) s = (raise type_error, s)
make_wrapper p caller free s = (raise type_error, s)

abbrev pub after_lookup : ℕ → ℕ → Option ℕ → Memory → Outcome ℕ × Memory
unfolding make_wrapper
after_lookup p caller (some cached) s = (ok cached, s)
after_lookup p caller none s = make_wrapper p caller (s.cells p) s

unfoldable pub async_ : ℕ → ℕ → Memory → Outcome ℕ × Memory
unfolding make_wrapper
async_ p caller s = after_lookup p caller (s.cache p) s

-- The `remover` of `WeakValueDict`: the entries of a wrapper go with it.
abbrev pub is_for : ℕ → Option ℕ → Bool
is_for k none = false
is_for k (some c) = k == c

abbrev pub remove : ℕ → Memory → Memory
remove k s = record {
  cells = update s.cells k free;
  cache = λ key. if is_for k (s.cache key) then none else s.cache key;
}

abbrev pub empty_memory : Memory
empty_memory = record { cells = λ k. free; cache = λ k. none }

-- An object is made at a free address, a call of `async_` for what is there, and the end of an object
-- that no wrapper refers to.
pub data Reachable : Memory → Type 0 where
  start : Reachable empty_memory
  makes :
      (s : Memory) (k n : ℕ) (is_netref is_callable : Bool)
      → Reachable s
      → s.cells k ≡ free
      → Reachable (record s { cells = update s.cells k (object n is_netref is_callable) })
  calls :
      (s : Memory) (p caller : ℕ)
      → Reachable s
      → s.cells caller ≡ free
      → Reachable (async_ p caller s).1
  ends :
      (s : Memory) (k : ℕ)
      → Reachable s
      → ((c n : ℕ) → s.cells c ≢ wrapper k n)
      → Reachable (remove k s)
