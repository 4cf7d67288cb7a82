-- ===== src/DynamicMap/InsertLaws.antt =====
-- `insert` of a dynamic map finds room for every element.
use cu_collections.Common.{ℕ, ◌+◌, ◌<◌, ◌≡◌, List, some, All}
use cu_collections.DynamicMap.Defs.{Load, IsLoad, Submap, DynamicMap, StaticMap, insert_in}
use cu_collections.DynamicMap.Reserve.{IsStaticMap, total_size, Fits}

module _ {S A : Type 0} {l : Load} (load : IsLoad l) {ops : StaticMap S A} (bulk : IsStaticMap ops)
    (min_insert_size : ℕ) where
  -- What `insert` leaves of the submaps.
  pub record Filled (size : ℕ) (items : List A) (subs : List (Submap S)) : Type 0 where
    pub size' : ℕ
    pub subs' : List (Submap S)
    pub result : insert_in l ops min_insert_size size items subs ≡ some (size', subs')
    pub counted : size' + total_size subs ≡ size + total_size subs'
    pub fits : All (Fits l) subs'

-- The size is that of the submaps, and each is filled up to its load at most.
pub record IsDynamicMap {S : Type 0} (l : Load) (d : DynamicMap S) : Type 0 where
  pub positive : 0 < d.min_insert_size
  pub counted : d.size ≡ total_size d.submaps
  pub fits : All (Fits l) d.submaps
