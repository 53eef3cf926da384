-- ===== src/External/Databases.antt =====
-- github.com/dgraph-io/badger: an ordered map from keys to values with transactions. A faulty disk
-- is part of the interface: an access to a key, or the commit of a transaction, may fail.
use trusted_group.Base.{
  Bytes, Error, Option, none, some, List, [], ◌∷◌, ◌++◌, ◌≡◌, beq, if◌then◌else◌, All, Before, ◌⊎◌,
}

-- A pair of a list, with the place where it stands.
abbrev pub Holds : {A : Type 0} → A → List A → Type 0
Holds a [] = ⊥
Holds a (x ∷ xs) = (a ≡ x) ⊎ Holds a xs

-- The keys ascend strictly.
abbrev pub Ascends : List (Bytes × Bytes) → Type 0
Ascends [] = Unit
Ascends (x ∷ xs) = All (λ (y : Bytes × Bytes). Before x.0 y.0) xs × Ascends xs

-- `scan d p` is what an iterator with the prefix `p` runs through.
pub record Database : Type 1 where
  pub Db : Type 0
  pub get : Db → Bytes → Option Bytes
  pub set : Db → Bytes → Bytes → Db
  pub delete : Db → Bytes → Db
  pub scan : Db → Bytes → List (Bytes × Bytes)
  pub read_fault : Db → Bytes → Option Error
  pub write_fault : Db → Bytes → Option Error
  pub commit_fault : Db → Option Error
  pub get-set : (d : Db) (k v j : Bytes) → get (set d k v) j ≡ (if beq k j then some v else get d j)
  pub get-delete : (d : Db) (k j : Bytes) → get (delete d k) j ≡ (if beq k j then none else get d j)
  pub scan_sound :
      (d : Db) (p : Bytes)
      → All
          (λ (kv : Bytes × Bytes). ((r : Bytes) × (kv.0 ≡ p ++ r)) × (get d kv.0 ≡ some kv.1))
          (scan d p)
  pub scan_complete :
      (d : Db) (p r v : Bytes) → get d (p ++ r) ≡ some v → Holds (p ++ r, v) (scan d p)
  pub scan_ascends : (d : Db) (p : Bytes) → Ascends (scan d p)
