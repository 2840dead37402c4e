-- ===== src/LruCache/Tests.antt =====
-- The cache at concrete inputs.
use sendingnetwork_ios.Common.{ℕ, ◌≡◌, refl, none, some, List, [], ◌∷◌, arith}
use sendingnetwork_ios.LruCache.{Cache, init, get, put}
use sendingnetwork_ios.LruCache.Items.{find}
use sendingnetwork_ios.LruCache.Invariant.{read, IsValid, Got, get-Got}
use sendingnetwork_ios.LruCache.Stores.{Stores, put-Stored}
use sendingnetwork_ios.LruCache.Runs.{Call, gets, puts, clears, run, run-IsValid}

abbrev two_items : Cache ℕ
two_items = record {
  cached_objects =
      record { ref_count = 2; object = some 10; key = "a" }
      ∷ record { ref_count = 1; object = some 20; key = "b" }
      ∷ [];
  cached_keys = "a" ∷ "b" ∷ [];
  capacity = 2;
}

two_items-IsValid : IsValid 2 two_items
unfolding find
two_items-IsValid = record {
  in_step = refl;
  distinct = (refl, (refl, tt));
  falling = omega arith;
  positive = omega arith;
  bounded = omega arith;
}

-- The item used least goes.
put_evicts :
    put two_items (some "c") (some 30)
    ≡ some (record {
      cached_objects =
          record { ref_count = 2; object = some 10; key = "a" }
          ∷ record { ref_count = 1; object = some 30; key = "c" }
          ∷ [];
      cached_keys = "a" ∷ "c" ∷ [];
      capacity = 2;
    })
unfolding put
put_evicts = refl

get-Got_example :
    (c : Cache ℕ) × (get two_items (some "b") ≡ some (c, read "b" two_items)) × Got 2 two_items c
get-Got_example = get-Got 2 two_items "b" (omega arith) two_items-IsValid

put-Stored_example : Stores 2 two_items "c" (some 30)
put-Stored_example =
    put-Stored 2 two_items "c" (some 30) (omega arith) (omega arith) two_items-IsValid

abbrev script : List (Call ℕ)
script =
    puts (some "a") (some 1)
    ∷ puts (some "b") (some 2)
    ∷ gets (some "a")
    ∷ puts (some "c") (some 3)
    ∷ gets none
    ∷ clears
    ∷ []

run-IsValid_example :
    (c : Cache ℕ) × (run (init 2) script ≡ some c) × IsValid 7 c × (c.capacity ≡ 2)
run-IsValid_example = run-IsValid 2 script (omega arith) (omega arith)
