-- ===== src/Tests/Packed.antt =====
-- A text for records that keeps what they hold: numbers as one cell, lists with their length in
-- front, fields one after the other.
use trusted_group.Base.{
  ℕ, zero, suc, ◌≡◌, refl, Bytes, Bool, true, false, List, [], ◌∷◌, ◌++◌, Option, none, some,
  append_assoc, append-nil, length,
}
use trusted_group.External.{Json}
use mathlib.Core.Option

-- A writer with a reader that takes the value off again.
pub record Packing (A : Type 0) : Type 0 where
  pub pack : A → Bytes
  pub unpack : Bytes → Option (A × Bytes)
  pub unpack-pack : (a : A) (rest : Bytes) → unpack (pack a ++ rest) ≡ some (a, rest)

abbrev pub take_number : Bytes → Option (ℕ × Bytes)
take_number [] = none
take_number (n ∷ r) = some (n, r)

abbrev pub number : Packing ℕ
number = record { pack = λ n. n ∷ []; unpack = take_number; unpack-pack = λ n rest. refl }

abbrev pub flag_of : ℕ → Bool
flag_of zero = false
flag_of (suc n) = true

abbrev pub flag_number : Bool → ℕ
flag_number false = 0
flag_number true = 1

pub flag_back : (b : Bool) → flag_of (flag_number b) ≡ b
flag_back false = refl
flag_back true = refl

module _ {A B : Type 0} where
  abbrev pub then : Option (A × Bytes) → (A → Bytes → Option (B × Bytes)) → Option (B × Bytes)
  then none f = none
  then (some (a, r)) f = f a r

-- A type that another one represents.
module _ {A B : Type 0} (p : Packing A) (to : B → A) (from : A → B)
    (back : (b : B) → from (to b) ≡ b) where
  pub through_law :
      (b : B) (rest : Bytes)
      → then (p.unpack (p.pack (to b) ++ rest)) (λ a r. some (from a, r)) ≡ some (b, rest)
  through_law b rest = rw (p.unpack-pack (to b) rest, back b)

  abbrev pub through : Packing B
  through = record {
    pack = λ b. p.pack (to b);
    unpack = λ x. then (p.unpack x) (λ a r. some (from a, r));
    unpack-pack = through_law;
  }

module _ {A B : Type 0} (p : Packing A) (q : Packing B) where
  pub pair_law :
      (x : A × B) (rest : Bytes)
      → then
          (p.unpack ((p.pack x.0 ++ q.pack x.1) ++ rest))
          (λ a r. then (q.unpack r) (λ b r. some ((a, b), r)))
        ≡ some (x, rest)
  pair_law (a, b) rest = rw (append_assoc, p.unpack-pack a (q.pack b ++ rest), q.unpack-pack b rest)

  abbrev pub pair : Packing (A × B)
  pair = record {
    pack = λ x. p.pack x.0 ++ q.pack x.1;
    unpack = λ x. then (p.unpack x) (λ a r. then (q.unpack r) (λ b r. some ((a, b), r)));
    unpack-pack = pair_law;
  }

module _ {A : Type 0} (p : Packing A) where
  abbrev pub pack_all : List A → Bytes
  pack_all [] = []
  pack_all (a ∷ as') = p.pack a ++ pack_all as'

  abbrev pub unpack_all : ℕ → Bytes → Option (List A × Bytes)
  unpack_all zero x = some ([], x)
  unpack_all (suc n) x =
      then (p.unpack x) (λ a r. then (unpack_all n r) (λ as' r. some (a ∷ as', r)))

  pub unpack_all_lem :
      (as' : List A) (rest : Bytes)
      → unpack_all (length as') (pack_all as' ++ rest) ≡ some (as', rest)
  unpack_all_lem [] rest = refl
  unpack_all_lem (a ∷ as') rest =
      rw (append_assoc, p.unpack-pack a (pack_all as' ++ rest), unpack_all_lem as' rest)

  abbrev pub list : Packing (List A)
  list = record {
    pack = λ as'. length as' ∷ pack_all as';
    unpack = λ x. then (take_number x) unpack_all;
    unpack-pack = unpack_all_lem;
  }

  pub json_law : (a : A) → Option.map (λ (x : A × Bytes). x.0) (p.unpack (p.pack a)) ≡ some a
  json_law a = rw whole
    where
      whole : p.unpack (p.pack a) ≡ some (a, [])
      whole = rw append-nil at (p.unpack-pack a [])

  abbrev pub json : Json A
  json = record {
    marshal = p.pack;
    unmarshal = λ x. Option.map (λ (x : A × Bytes). x.0) (p.unpack x);
    unmarshal-marshal = json_law;
  }

abbrev pub flag : Packing Bool
flag = through number flag_number flag_of flag_back

abbrev pub bytes : Packing Bytes
bytes = list number
