-- ===== src/Contracts/Token/Sums.antt =====
-- Sums of the balances of finitely many owners, for the conservation of the tokens of
-- mvm/eos/contracts/mixinproxy/token/token.go.
use trusted_group.Base.{
  ℕ, ◌+◌, ◌≤◌, ◌≡◌, ◌≢◌, refl, sym, ◌∙◌, subst, List, [], ◌∷◌, ◌⊎◌, inl, inr, arith,
}
use trusted_group.External.{Holds}

abbrev pub Distinct : List ℕ → Type 0
Distinct [] = Unit
Distinct (x ∷ xs) = (¬ Holds x xs) × Distinct xs

abbrev pub sum_of : (ℕ → ℕ) → List ℕ → ℕ
sum_of f [] = 0
sum_of f (x ∷ xs) = f x + sum_of f xs

-- `f` is zero but for finitely many owners, and its values sum to `n`.
pub record Spread (f : ℕ → ℕ) (n : ℕ) : Type 0 where
  pub owners : List ℕ
  pub distinct : Distinct owners
  pub others : (x : ℕ) → ¬ Holds x owners → f x ≡ 0
  pub total : sum_of f owners ≡ n

sum_of-same :
    (f g : ℕ → ℕ) (xs : List ℕ) → ((x : ℕ) → Holds x xs → g x ≡ f x) → sum_of g xs ≡ sum_of f xs
sum_of-same f g [] h = refl
sum_of-same f g (x ∷ xs) h = omega (arith, h x (inl refl), sum_of-same f g xs (λ y i. h y (inr i)))

sum_of-change :
    (f g : ℕ → ℕ) (o : ℕ) (xs : List ℕ)
    → Distinct xs
    → Holds o xs
    → ((x : ℕ) → x ≢ o → g x ≡ f x)
    → sum_of g xs + f o ≡ sum_of f xs + g o
sum_of-change f g o [] d i h = absurd i
sum_of-change f g o (x ∷ xs) (apart, d) (inl e) h =
    let same =
      sum_of-same f g xs (λ y j. h y (λ (k : y ≡ o). apart (subst (λ z. Holds z xs) (k ∙ e) j))) in
    rw e (omega (arith, same))
sum_of-change f g o (x ∷ xs) (apart, d) (inr i) h =
    let same = h x (λ (k : x ≡ o). apart (subst (λ z. Holds z xs) (sym k) i)) in
    omega (arith, same, sum_of-change f g o xs d i h)

sum_of-le : (f : ℕ → ℕ) (o : ℕ) (xs : List ℕ) → Holds o xs → f o ≤ sum_of f xs
sum_of-le f o [] i = absurd i
sum_of-le f o (x ∷ xs) (inl e) = rw e (omega arith)
sum_of-le f o (x ∷ xs) (inr i) = omega (arith, sum_of-le f o xs i)

sum_of-le_two :
    (f : ℕ → ℕ) (a b : ℕ) (xs : List ℕ) → a ≢ b → Holds a xs → Holds b xs → f a + f b ≤ sum_of f xs
sum_of-le_two f a b [] n i j = absurd i
sum_of-le_two f a b (x ∷ xs) n (inl e) (inl k) = absurd (n (e ∙ sym k))
sum_of-le_two f a b (x ∷ xs) n (inl e) (inr j) = rw e (omega (arith, sum_of-le f b xs j))
sum_of-le_two f a b (x ∷ xs) n (inr i) (inl k) = rw k (omega (arith, sum_of-le f a xs i))
sum_of-le_two f a b (x ∷ xs) n (inr i) (inr j) = omega (arith, sum_of-le_two f a b xs n i j)

holds? : (o : ℕ) (xs : List ℕ) → Holds o xs ⊎ (¬ Holds o xs)
holds? o [] = inr (λ i. i)
holds? o (x ∷ xs) = elim (holds? o xs) [ inl i ↦ inl (inr i) | inr n ↦ ground arith ]

module _ {f : ℕ → ℕ} {n : ℕ} where
  -- The same sum over a list that has one more owner.
  include :
      (o : ℕ) (s : Spread f n)
      → (s' : Spread f n) × Holds o s'.owners × ((x : ℕ) → Holds x s.owners → Holds x s'.owners)
  include o s = elim (holds? o s.owners) [
    | inl i ↦ (s, i, λ x j. j)
    | inr out ↦ (
      record {
        owners = o ∷ s.owners;
        distinct = (out, s.distinct);
        others = λ x h. s.others x (λ i. h (inr i));
        total = omega (arith, s.others o out, s.total);
      },
      inl refl,
      λ x j. inr j,
    )
  ]

  pub Spread-same : (g : ℕ → ℕ) → Spread f n → ((x : ℕ) → g x ≡ f x) → Spread g n
  Spread-same g s h = record {
    owners = s.owners;
    distinct = s.distinct;
    others = λ x out. h x ∙ s.others x out;
    total = sum_of-same f g s.owners (λ x _. h x) ∙ s.total;
  }

  -- One value changes, and the sum with it.
  pub Spread-change :
      (g : ℕ → ℕ) (o m : ℕ)
      → Spread f n
      → ((x : ℕ) → x ≢ o → g x ≡ f x)
      → m + f o ≡ n + g o
      → Spread g m
  Spread-change g o m s h e =
      let (t, i, _) = include o s in
      record {
        owners = t.owners;
        distinct = t.distinct;
        others = λ x out.
            h x (λ (k : x ≡ o). out (subst (λ z. Holds z t.owners) (sym k) i)) ∙ t.others x out;
        total = omega (arith, sum_of-change f g o t.owners t.distinct i h, t.total, e);
      }

  pub Spread-le : (o : ℕ) → Spread f n → f o ≤ n
  Spread-le o s = let (t, i, _) = include o s in omega (arith, sum_of-le f o t.owners i, t.total)

  pub Spread-le_two : (a b : ℕ) → a ≢ b → Spread f n → f a + f b ≤ n
  Spread-le_two a b apart s =
      let (t, i, _) = include a s in
      let (u, j, keeps) = include b t in
      omega (arith, sum_of-le_two f a b u.owners apart (keeps a i) j, u.total)
