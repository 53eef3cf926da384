-- ===== src/External/Jsons.antt =====
-- The text that `encoding/json` makes of a value, and reads back.
use trusted_group.Base.{Bytes, Option, some, ◌≡◌}

pub record Json (A : Type 0) : Type 0 where
  pub marshal : A → Bytes
  pub unmarshal : Bytes → Option A
  pub unmarshal-marshal : (a : A) → unmarshal (marshal a) ≡ some a
