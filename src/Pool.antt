-- ===== src/Pool.antt =====
-- src/db/pool.ts: the pool of the process, which is opened once until it is closed.
use kisauth.Base.{Bool, if◌then◌else◌, String, Option, none, some}

-- `open_pool` is the constructor of Pool. The state is the module's variable `pool`.
unfoldable pub get_pool :
    {P : Type 0} → (open_pool : (url : String) → P) → (url : String) → Option P → P × Option P
get_pool open_pool url (some pool) = (pool, some pool)
get_pool open_pool url none = let pool = open_pool url in (pool, some pool)

-- `end_pool` is `pool.end()`, true where it comes through; otherwise its exception leaves the pool.
unfoldable pub close_pool : {P : Type 0} → (end_pool : P → Bool) → Option P → Option P
close_pool end_pool none = none
close_pool end_pool (some pool) = if end_pool pool then none else some pool
