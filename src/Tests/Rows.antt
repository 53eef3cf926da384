-- ===== src/Tests/Rows.antt =====
-- Tables in memory: the rows are a list, and the row that was put last counts.
use trusted_group.Base.{
  ℕ, ◌≡◌, refl, subst, ap, false, ◌==◌, ◌&&◌, List, [], ◌∷◌, Option, none, some, inl, inr, arith,
  if◌then◌else◌, Outcome, ok, panic, All, Bool-cases, ==_iff,
}
use trusted_group.External.{Tables, Holds, without}

abbrev pub Row : Type 0 → Type 0
Row V = ℕ × ℕ × V

module _ {V : Type 0} where
  abbrev pub find_row : List (Row V) → ℕ → ℕ → Option V
  find_row [] s k = none
  find_row ((t, j, v) ∷ r) s k =
      let rest = find_row r s k in if (t == s) && (j == k) then some v else rest

  abbrev pub remove_row : List (Row V) → ℕ → ℕ → List (Row V)
  remove_row [] s k = []
  remove_row ((t, j, v) ∷ r) s k =
      let rest = remove_row r s k in if (t == s) && (j == k) then rest else (t, j, v) ∷ rest

  abbrev pub rows_in : List (Row V) → ℕ → List (ℕ × V)
  rows_in [] s = []
  rows_in ((t, j, v) ∷ r) s =
      let rest = rows_in r s in if t == s then (j, v) ∷ without j rest else rest

  abbrev pub store_row : Option V → List (Row V) → ℕ → ℕ → V → Outcome (List (Row V))
  store_row none r s k v = ok ((s, k, v) ∷ r)
  store_row (some w) r s k v = panic

  abbrev pub search_row : (V → ℕ) → List (ℕ × V) → ℕ → Option ℕ
  search_row f [] x = none
  search_row f ((k, v) ∷ r) x = let rest = search_row f r x in if f v == x then some k else rest

  pub find-remove_row :
      (r : List (Row V)) (s k t j : ℕ)
      → find_row (remove_row r s k) t j ≡ (if (s == t) && (k == j) then none else find_row r t j)
  find-remove_row [] s k t j = ground arith
  find-remove_row ((u, i, v) ∷ r) s k t j = ground (arith, find-remove_row r s k t j)

  without_twice : (k : ℕ) (l : List (ℕ × V)) → without k (without k l) ≡ without k l
  without_twice k [] = refl
  without_twice k ((j, v) ∷ l) = ground (arith, without_twice k l)

  without_swap : (k j : ℕ) (l : List (ℕ × V)) → without k (without j l) ≡ without j (without k l)
  without_swap k j [] = refl
  without_swap k j ((i, v) ∷ l) = ground (arith, without_swap k j l)

  pub rows-remove_row :
      (r : List (Row V)) (s k : ℕ) → rows_in (remove_row r s k) s ≡ without k (rows_in r s)
  rows-remove_row [] s k = refl
  rows-remove_row ((t, j, v) ∷ r) s k =
      ground (
        arith,
        rows-remove_row r s k,
        without_twice k (rows_in r s),
        without_swap k j (rows_in r s),
      )

  Holds-without :
      (j k : ℕ) (v : V) (l : List (ℕ × V))
      → (j == k) ≡ false
      → Holds (k, v) l
      → Holds (k, v) (without j l)
  Holds-without j k v [] n h = absurd h
  Holds-without j k v ((i, w) ∷ l) n h = elim (Bool-cases (i == j)) [
    | inl e ↦ rw e (ground (arith, Holds-without j k v l n))
    | inr e ↦ rw e (ground (arith, Holds-without j k v l n))
  ]

  pub rows_complete_row :
      (r : List (Row V)) (s k : ℕ) (v : V) → find_row r s k ≡ some v → Holds (k, v) (rows_in r s)
  rows_complete_row [] s k v h = cc
  rows_complete_row ((t, j, w) ∷ r) s k v h = elim (Bool-cases (t == s)) [
    | inl e ↦ elim (Bool-cases (j == k)) [
      | inl f ↦ rw e (inl (ground arith))
      | inr f ↦
          rw e
            (inr (Holds-without j k v (rows_in r s) f (rows_complete_row r s k v (ground arith))))
    ]
    | inr e ↦ rw e (rows_complete_row r s k v (ground arith))
  ]

  All-without :
      (P : ℕ × V → Type 0) (j : ℕ) (l : List (ℕ × V))
      → All P l
      → All (λ (kv : ℕ × V). P kv × ((j == kv.0) ≡ false)) (without j l)
  All-without P j [] h = tt
  All-without P j ((i, v) ∷ l) (p, h) = elim (Bool-cases (i == j)) [
    | inl e ↦ rw e (All-without P j l h)
    | inr e ↦ rw e ((p, ground arith), All-without P j l h)
  ]

  All-map :
      {P Q : ℕ × V → Type 0} (l : List (ℕ × V)) → ((kv : ℕ × V) → P kv → Q kv) → All P l → All Q l
  All-map [] f h = tt
  All-map (x ∷ l) f (p, h) = (f x p, All-map l f h)

  pub rows_sound_row :
      (r : List (Row V)) (s : ℕ) → All (λ (kv : ℕ × V). find_row r s kv.0 ≡ some kv.1) (rows_in r s)
  rows_sound_row [] s = tt
  rows_sound_row ((t, j, v) ∷ r) s = elim (Bool-cases (t == s)) [
    | inl e ↦ rw e (
      ground arith,
      All-map (without j (rows_in r s)) (λ kv (p, apart). ground arith)
          (All-without _ j (rows_in r s) (rows_sound_row r s)),
    )
    | inr e ↦ rw e (All-map (rows_in r s) (λ kv p. ground arith) (rows_sound_row r s))
  ]

  pub search_row_found :
      (f : V → ℕ) (l : List (ℕ × V)) (x k : ℕ) (P : ℕ × V → Type 0)
      → All P l
      → search_row f l x ≡ some k
      → (v : V) × P (k, v) × (f v ≡ x)
  search_row_found f [] x k P h e = cc
  search_row_found f ((j, v) ∷ l) x k P (p, h) e = elim (Bool-cases (f v == x)) [
    | inl m ↦ (v, subst (λ i. P (i, v)) (ground arith) p, (==_iff (f v) x).0 m)
    | inr m ↦ search_row_found f l x k P h (ground arith)
  ]

  pub search_row_complete :
      (f : V → ℕ) (l : List (ℕ × V)) (k : ℕ) (v : V)
      → Holds (k, v) l
      → (j : ℕ) × (search_row f l (f v) ≡ some j)
  search_row_complete f [] k v h = absurd h
  search_row_complete f ((j, w) ∷ l) k v (inl e) = (j, rw (ap (λ kv. f kv.1) e) (ground arith))
  search_row_complete f ((j, w) ∷ l) k v (inr h) = elim (Bool-cases (f w == f v)) [
    | inl m ↦ (j, rw m refl)
    | inr m ↦ rw m (search_row_complete f l k v h)
  ]

-- The tables of the tests.
instance abbrev pub tables_in_memory : Tables
tables_in_memory = record {
  Rows = λ V. List (Row V);
  find = find_row;
  put = λ r s k v. (s, k, v) ∷ r;
  store = λ r s k v. store_row (find_row r s k) r s k v;
  remove = remove_row;
  rows = rows_in;
  search = λ f r s x. search_row f (rows_in r s) x;
  find-put = λ r s k v t j. refl;
  find-remove = find-remove_row;
  store_new = λ r s k v e. rw e refl;
  store_known = λ r s k v w e. rw e refl;
  rows_sound = rows_sound_row;
  rows_complete = rows_complete_row;
  rows-remove = rows-remove_row;
  search_sound = λ f r s x k e.
      search_row_found f (rows_in r s) x k (λ kv. find_row r s kv.0 ≡ some kv.1)
        (rows_sound_row r s) e;
  search_complete =
      λ f r s k v e. search_row_complete f (rows_in r s) k v (rows_complete_row r s k v e);
}
