-- ===== src/External/LruMap.antt =====
-- The kernel's BPF_MAP_TYPE_LRU_HASH. An insertion may evict any other entry, and may fail; the
-- program ignores the failure.
use wire_mesh.Common.{◌≡◌, ◌≢◌, ◌⊎◌, Bool, true, Option, none, some, if◌then◌else◌}

pub record LruMap (K V : Type 0) (eq : K → K → Bool) : Type 1 where
  pub Map : Type 0
  pub empty : Map
  pub get : Map → K → Option V
  pub insert : K → V → Map → Map
  pub remove : K → Map → Map
  -- a write through the pointer of a lookup
  pub poke : K → V → Map → Map
  pub get-empty : (k : K) → get empty k ≡ none
  pub get-remove : (m : Map) (k j : K) → get (remove k m) j ≡ (if eq k j then none else get m j)
  pub get-poke :
      (m : Map) (k j : K) (v : V)
      → get m k ≢ none
      → get (poke k v m) j ≡ (if eq k j then some v else get m j)
  pub get-insert_self :
      (m : Map) (k : K) (v : V) → (get (insert k v m) k ≡ some v) ⊎ (get (insert k v m) k ≡ get m k)
  pub get-insert_other :
      (m : Map) (k j : K) (v : V)
      → eq k j ≢ true
      → (get (insert k v m) j ≡ get m j) ⊎ (get (insert k v m) j ≡ none)
