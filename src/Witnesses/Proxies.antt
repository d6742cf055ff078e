-- ===== src/Witnesses/Proxies.antt =====
-- The cache of `async_` where an address is used again.
use rpyc_async.Prelude.{ℕ, true, ==_iff, ◌≡◌, ◌≢◌, refl, arith}
use rpyc_async.Outcome.{ok}
use rpyc_async.Helpers.Proxies.{
  free, object, wrapper, Memory, async_, make_wrapper, remove, update, Reachable, start, makes,
  calls, ends, empty_memory,
}
use rpyc_async.Helpers.Proxies.Faithful
use rpyc_async.Helpers.Proxies.Faithful.{Answers}

-- A netref at 0, its wrapper at 1, then the wrapper and the netref go, and another netref is at 0.
abbrev made : Memory
made = record empty_memory { cells = update empty_memory.cells 0 (object 7 true true) }

abbrev wrapped : Memory
wrapped = (async_ 0 1 made).1

abbrev again : Memory
again = record (remove 0 (remove 1 wrapped)) {
  cells = update (remove 0 (remove 1 wrapped)).cells 0 (object 8 true true);
}

made-Reachable : Reachable made
made-Reachable = makes empty_memory 0 7 true true start refl

wrapper_unheld : (c n : ℕ) → wrapped.cells c ≢ wrapper 1 n
unfolding async_ make_wrapper
wrapper_unheld c n h = ground (arith, ==_iff 0 c, ==_iff 1 c, h)

netref_unheld : (c n : ℕ) → (remove 1 wrapped).cells c ≢ wrapper 0 n
unfolding async_ make_wrapper
netref_unheld c n h = ground (arith, ==_iff 0 c, ==_iff 1 c, h)

again-Reachable : Reachable again
unfolding async_ make_wrapper
again-Reachable =
    makes (remove 0 (remove 1 wrapped)) 0 8 true true
      (ends (remove 1 wrapped) 0
        (ends wrapped 1 (calls made 0 1 made-Reachable refl) wrapper_unheld) netref_unheld)
      refl

two_free : again.cells 2 ≡ free
unfolding async_ make_wrapper
two_free = refl

async_-Answers_example : Answers (async_ 0 2 again).1.cells 0 (async_ 0 2 again).0
async_-Answers_example = Faithful.async_-Answers again 0 2 again-Reachable two_free

-- The second netref has a wrapper of its own, which is its own wrapper.
new_wrapper : (async_ 0 2 again).0 ≡ ok 2
unfolding async_ make_wrapper
new_wrapper = refl

own_wrapper : (async_ 2 3 (async_ 0 2 again).1).0 ≡ ok 2
unfolding async_ make_wrapper
own_wrapper = refl
