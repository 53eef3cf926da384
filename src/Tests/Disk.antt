-- ===== src/Tests/Disk.antt =====
-- A database in memory: entries in the order of their keys, on a disk without faults.
use trusted_group.Base.{
  ◌≡◌, refl, Bytes, Bool, true, false, beq, beq_refl, beq→eq, List, [], ◌∷◌, ◌++◌, Option, none,
  some, Ordering, compare, All, Before, ◌⊎◌, inl, inr, arith, if◌then◌else◌, Bool-cases, ◌==◌, ◌&&◌,
  sym, ◌∙◌, subst,
}
use trusted_group.External.{Database, Ascends, Holds}

abbrev pub Entry : Type 0
Entry = Bytes × Bytes

abbrev pub order : Bytes → Bytes → Ordering
order [] [] = Ordering.eq
order [] (b ∷ bs) = Ordering.lt
order (a ∷ as') [] = Ordering.gt
order (a ∷ as') (b ∷ bs) =
    let rest = order as' bs in
    elim (compare a b) [
      | Ordering.lt ↦ Ordering.lt
      | Ordering.eq ↦ rest
      | Ordering.gt ↦ Ordering.gt
    ]

order_sound :
    (a b : Bytes)
    → ((order a b ≡ Ordering.lt) × Before a b)
      ⊎ (((order a b ≡ Ordering.eq) × (a ≡ b)) ⊎ ((order a b ≡ Ordering.gt) × Before b a))
order_sound [] [] = inr (inl (refl, refl))
order_sound [] (b ∷ bs) = inl (refl, tt)
order_sound (a ∷ as') [] = inr (inr (refl, tt))
order_sound (a ∷ as') (b ∷ bs) = ground (arith, order_sound as' bs)

Before-irrefl : (a : Bytes) → ¬ Before a a
Before-irrefl [] h = h
Before-irrefl (x ∷ a) (inl h) = omega arith
Before-irrefl (x ∷ a) (inr (e, h)) = Before-irrefl a h

Before-trans : (a b c : Bytes) → Before a b → Before b c → Before a c
Before-trans [] [] c h k = absurd h
Before-trans [] (b ∷ bs) [] h k = absurd k
Before-trans [] (b ∷ bs) (c ∷ cs) h k = tt
Before-trans (a ∷ as') [] c h k = absurd h
Before-trans (a ∷ as') (b ∷ bs) [] h k = absurd k
Before-trans (a ∷ as') (b ∷ bs) (c ∷ cs) (inl h) (inl k) = inl (omega arith)
Before-trans (a ∷ as') (b ∷ bs) (c ∷ cs) (inl h) (inr (e, k)) = inl (omega arith)
Before-trans (a ∷ as') (b ∷ bs) (c ∷ cs) (inr (e, h)) (inl k) = inl (omega arith)
Before-trans (a ∷ as') (b ∷ bs) (c ∷ cs) (inr (e, h)) (inr (f, k)) =
    inr (e ∙ f, Before-trans as' bs cs h k)

abbrev pub fetch : List Entry → Bytes → Option Bytes
fetch [] k = none
fetch ((j, w) ∷ r) k = if beq j k then some w else fetch r k

abbrev pub put : Bytes → Bytes → List Entry → List Entry
put k v [] = (k, v) ∷ []
put k v ((j, w) ∷ r) =
    let rest = put k v r in
    elim (order k j) [
      | Ordering.lt ↦ (k, v) ∷ (j, w) ∷ r
      | Ordering.eq ↦ (k, v) ∷ r
      | Ordering.gt ↦ (j, w) ∷ rest
    ]

abbrev pub without : Bytes → List Entry → List Entry
without k [] = []
without k ((j, w) ∷ r) = let rest = without k r in if beq j k then rest else (j, w) ∷ rest

pub fetch-put :
    (k v : Bytes) (l : List Entry) (j : Bytes)
    → fetch (put k v l) j ≡ (if beq k j then some v else fetch l j)
fetch-put k v [] j = refl
fetch-put k v ((i, w) ∷ r) j = elim (order_sound k i) [
  | inl (e, b) ↦ rw (e, put)
  | inr (inl (e, b)) ↦ rw (e, put) (rw b (ground arith))
  | inr (inr (e, b)) ↦
      rw (e, put)
        (let apart = λ (same : i ≡ k). Before-irrefl k (subst (λ x. Before x k) same b) in
          ground (arith, fetch-put k v r j, beq→eq i j, beq→eq k j, apart))
]

pub fetch-without :
    (k : Bytes) (l : List Entry) (j : Bytes)
    → fetch (without k l) j ≡ (if beq k j then none else fetch l j)
fetch-without k [] j = ground arith
fetch-without k ((i, w) ∷ r) j =
    ground (arith, fetch-without k r j, beq→eq i j, beq→eq k j, beq→eq i k, beq_refl j)

abbrev pub After : Bytes → List Entry → Type 0
After k = All (λ (y : Entry). Before k y.0)

After-trans : (j k : Bytes) (l : List Entry) → Before j k → After k l → After j l
After-trans j k [] h a = tt
After-trans j k (x ∷ l) h (a, as') = (Before-trans j k x.0 h a, After-trans j k l h as')

After-put : (j k v : Bytes) (l : List Entry) → Before j k → After j l → After j (put k v l)
After-put j k v [] h a = (h, tt)
After-put j k v ((i, w) ∷ r) h (a, as') = elim (order_sound k i) [
  | inl (e, b) ↦ rw (e, put) (h, (a, as'))
  | inr (inl (e, b)) ↦ rw (e, put) (h, as')
  | inr (inr (e, b)) ↦ rw (e, put) (a, After-put j k v r h as')
]

pub Ascends-put : (k v : Bytes) (l : List Entry) → Ascends l → Ascends (put k v l)
Ascends-put k v [] h = (tt, tt)
Ascends-put k v ((i, w) ∷ r) (a, s) = elim (order_sound k i) [
  | inl (e, b) ↦ rw (e, put) ((b, After-trans k i r b a), (a, s))
  | inr (inl (e, b)) ↦ rw (e, put) (rw b a, s)
  | inr (inr (e, b)) ↦ rw (e, put) (After-put i k v r b a, Ascends-put k v r s)
]

After-without : (j k : Bytes) (l : List Entry) → After j l → After j (without k l)
After-without j k [] h = tt
After-without j k ((i, w) ∷ r) (a, as') = elim (Bool-cases (beq i k)) [
  | inl e ↦ rw e (After-without j k r as')
  | inr e ↦ rw e (a, After-without j k r as')
]

pub Ascends-without : (k : Bytes) (l : List Entry) → Ascends l → Ascends (without k l)
Ascends-without k [] h = tt
Ascends-without k ((i, w) ∷ r) (a, s) = elim (Bool-cases (beq i k)) [
  | inl e ↦ rw e (Ascends-without k r s)
  | inr e ↦ rw e (After-without i k r a, Ascends-without k r s)
]

-- Whether a key has a prefix, and the entries whose key has it.
abbrev pub has_prefix : Bytes → Bytes → Bool
has_prefix [] k = true
has_prefix (a ∷ p) [] = false
has_prefix (a ∷ p) (b ∷ k) = (a == b) && has_prefix p k

has_prefix→append : (p k : Bytes) → has_prefix p k ≡ true → (r : Bytes) × (k ≡ p ++ r)
has_prefix→append [] k h = (k, refl)
has_prefix→append (a ∷ p) [] h = cc
has_prefix→append (a ∷ p) (b ∷ k) h =
    let (r, e) = has_prefix→append p k (ground arith) in (r, ground arith)

has_prefix-append : (p r : Bytes) → has_prefix p (p ++ r) ≡ true
has_prefix-append [] r = refl
has_prefix-append (a ∷ p) r = ground (arith, has_prefix-append p r)

abbrev pub under : Bytes → List Entry → List Entry
under p [] = []
under p ((k, v) ∷ r) = let rest = under p r in if has_prefix p k then (k, v) ∷ rest else rest

After-under : (j p : Bytes) (l : List Entry) → After j l → After j (under p l)
After-under j p [] h = tt
After-under j p ((k, v) ∷ r) (a, as') = elim (Bool-cases (has_prefix p k)) [
  | inl e ↦ rw e (a, After-under j p r as')
  | inr e ↦ rw e (After-under j p r as')
]

pub Ascends-under : (p : Bytes) (l : List Entry) → Ascends l → Ascends (under p l)
Ascends-under p [] h = tt
Ascends-under p ((k, v) ∷ r) (a, s) = elim (Bool-cases (has_prefix p k)) [
  | inl e ↦ rw e (After-under k p r a, Ascends-under p r s)
  | inr e ↦ rw e (Ascends-under p r s)
]

-- A key that stands behind a smaller key is not that key.
fetch-behind :
    (k : Bytes) (v : Bytes) (l : List Entry) (j : Bytes)
    → Before k j
    → fetch ((k, v) ∷ l) j ≡ fetch l j
fetch-behind k v l j b = elim (Bool-cases (beq k j)) [
  | inl e ↦ absurd (Before-irrefl j (subst (λ x. Before x j) (beq→eq k j e) b))
  | inr e ↦ rw e
]

abbrev pub Found : List Entry → Bytes → Entry → Type 0
Found l p kv = ((r : Bytes) × (kv.0 ≡ p ++ r)) × (fetch l kv.0 ≡ some kv.1)

Found-behind :
    (k v p : Bytes) (l xs : List Entry)
    → After k xs
    → All (Found l p) xs
    → All (Found ((k, v) ∷ l) p) xs
Found-behind k v p l [] a h = tt
Found-behind k v p l (x ∷ xs) (a, as') ((pre, found), hs) =
    ((pre, fetch-behind k v l x.0 a ∙ found), Found-behind k v p l xs as' hs)

pub Found-under : (p : Bytes) (l : List Entry) → Ascends l → All (Found l p) (under p l)
Found-under p [] h = tt
Found-under p ((k, v) ∷ r) (a, s) =
    let behind : All (Found ((k, v) ∷ r) p) (under p r) =
      Found-behind k v p r (under p r) (After-under k p r a) (Found-under p r s) in
    elim (Bool-cases (has_prefix p k)) [
      | inl e ↦ rw e ((has_prefix→append p k e, rw (beq_refl k)), behind)
      | inr e ↦ rw e behind
    ]

pub Holds-under :
    (p r v : Bytes) (l : List Entry) → fetch l (p ++ r) ≡ some v → Holds (p ++ r, v) (under p l)
Holds-under p r v [] h = cc
Holds-under p r v ((k, w) ∷ l) h = elim (Bool-cases (beq k (p ++ r))) [
  | inl e ↦
      let same : k ≡ p ++ r = beq→eq k (p ++ r) e in
      let value : w ≡ v = ground arith in
      rw (same, has_prefix-append p r) (inl (λ i. (p ++ r, sym value i)))
  | inr e ↦ later (Holds-under p r v l (ground arith))
]
  where
    later : Holds (p ++ r, v) (under p l) → Holds (p ++ r, v) (under p ((k, w) ∷ l))
    later h = elim (Bool-cases (has_prefix p k)) [ inl e ↦ rw e (inr h) | inr e ↦ rw e h ]

pub record Disk : Type 0 where
  pub entries : List Entry
  pub sorted : Ascends entries

abbrev pub blank : Disk
blank = record { entries = []; sorted = tt }

instance abbrev pub memory : Database
memory = record {
  Db = Disk;
  get = λ d k. fetch d.entries k;
  set =
      λ d k v. record { entries = put k v d.entries; sorted = Ascends-put k v d.entries d.sorted };
  delete = λ d k. record {
    entries = without k d.entries;
    sorted = Ascends-without k d.entries d.sorted;
  };
  scan = λ d p. under p d.entries;
  read_fault = λ d k. none;
  write_fault = λ d k. none;
  commit_fault = λ d. none;
  get-set = λ d k v j. fetch-put k v d.entries j;
  get-delete = λ d k j. fetch-without k d.entries j;
  scan_sound = λ d p. Found-under p d.entries d.sorted;
  scan_complete = λ d p r v h. Holds-under p r v d.entries h;
  scan_ascends = λ d p. Ascends-under p d.entries d.sorted;
}
