-- ===== src/ObjectCache/Bounds.antt =====
-- A cache of objects never holds more than its size, and finds what was added last.
use gameoftrees.Base.{ℕ, ◌≤◌, ◌≡◌, Bytes, Option, none, ◌⊎◌}
use gameoftrees.Error.{Error}
use gameoftrees.ObjectIdset.{idset_get}
use gameoftrees.ObjectIdset.Refinement.{IsValid}
use gameoftrees.ObjectIdset.Ordered.{update}
use gameoftrees.ObjectCache.{ObjectCache}

-- The set is valid and within the cache's size, which is one element or more.
abbrev pub IsBounded : ObjectCache → Type 0
IsBounded cache = IsValid cache.idset × (cache.idset.totelem ≤ cache.size) × (1 ≤ cache.size)

-- What the cache holds for an identifier.
abbrev pub held : ObjectCache → Bytes → Option ℕ
held cache = idset_get cache.idset

-- A cache that holds what another does, but for one identifier at most.
abbrev pub IsWithout : (Bytes → Option ℕ) → (Bytes → Option ℕ) → Type 0
IsWithout new old = (new ≡ old) ⊎ ((gone : Bytes) × (new ≡ update old gone none))
