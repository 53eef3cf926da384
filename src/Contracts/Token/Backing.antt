-- ===== src/Contracts/Token/Backing.antt =====
-- The balances of a token of mvm/eos/contracts/mixinproxy/token/token.go against its supply, and what
-- single movements do to them.
use trusted_group.Base.{
  ℕ, ◌+◌, ◌-◌, ◌^◌, ◌<◌, ◌≤◌, ◌≡◌, ◌≢◌, refl, sym, ◌∙◌, subst, false, ◌==◌, ==_iff, Bool-cases,
  Option, none, some, inl, inr, arith, ok,
}
use trusted_group.External.{ChainAsset, Tables, Chaining}
use trusted_group.Contracts.Token.{Ledger, CurrencyStats, code, sub_balance, add_balance}
use trusted_group.Contracts.Token.Sums.{Spread, Spread-same, Spread-change, Spread-le}
use trusted_group.Contracts.Token.Effects.{
  balance_in, Posted, sub_balance-Posted, add_balance-Posted,
}

-- The balances sum to the supply less what is pending, which is at most the greatest supply.
pub record Backed (f : ℕ → ℕ) (stats : CurrencyStats) (pending : ℕ) : Type 0 where
  pub circulating : ℕ
  pub spread : Spread f circulating
  pub supplied : circulating + pending ≡ stats.supply.amount
  pub capped : stats.supply.amount ≤ stats.max_supply.amount
  pub limited : stats.max_supply.amount < 2 ^ 62

-- A symbol without a token has no balances.
abbrev pub Covers : (ℕ → ℕ) → Option CurrencyStats → ℕ → Type 0
Covers f none pending = ((x : ℕ) → f x ≡ 0) × (pending ≡ 0)
Covers f (some stats) pending = Backed f stats pending

pub Covers-same :
    (f g : ℕ → ℕ) (o : Option CurrencyStats) (pending : ℕ)
    → ((x : ℕ) → g x ≡ f x)
    → Covers f o pending
    → Covers g o pending
Covers-same f g none pending h (zeros, p) = (λ x. h x ∙ zeros x, p)
Covers-same f g (some stats) pending h b = record {
  circulating = b.circulating;
  spread = Spread-same g b.spread h;
  supplied = b.supplied;
  capped = b.capped;
  limited = b.limited;
}

module _ ⦃tables : Tables⦄ where
  open tables use {find}

  abbrev pub IsBacked : Ledger → ℕ → ℕ → Type 0
  IsBacked t c pending = Covers (balance_in t c) (find t.stats c c) pending

  -- Nothing changes for the other symbols.
  abbrev pub Elsewhere : Ledger → Ledger → ℕ → Type 0
  Elsewhere t t' c =
      (d : ℕ)
      → (c == d) ≡ false
      → ((x : ℕ) → balance_in t' d x ≡ balance_in t d x) × (find t'.stats d d ≡ find t.stats d d)

  pub Elsewhere-trans :
      (t t' t'' : Ledger) (c : ℕ) → Elsewhere t t' c → Elsewhere t' t'' c → Elsewhere t t'' c
  Elsewhere-trans t t' t'' c h k d n =
      let (a, b) = h d n in let (a', b') = k d n in (λ x. a' x ∙ a x, b' ∙ b)

  -- An action on one symbol keeps its balances backed.
  abbrev pub Conserves : Ledger → Ledger → ℕ → Type 0
  Conserves t t' c = IsBacked t c 0 → Elsewhere t t' c × IsBacked t' c 0

  -- What an action keeps of its own symbol, and leaves of the others, is kept of every symbol.
  pub kept :
      (t t' : Ledger) (c d : ℕ)
      → Elsewhere t t' c
      → Conserves t t' c
      → IsBacked t d 0
      → IsBacked t' d 0
  kept t t' c d other here backed = elim (Bool-cases (c == d)) [
    | inl e ↦
        let same = (==_iff c d).0 e in
        subst (λ k. IsBacked t' k 0) same (here (subst (λ k. IsBacked t k 0) (sym same) backed)).1
    | inr n ↦
        let (same, stats) = other d n in
        subst (λ o. Covers (balance_in t' d) o 0) (sym stats)
          (Covers-same (balance_in t d) (balance_in t' d) (find t.stats d d) 0 same backed)
  ]

  pub Posted-Elsewhere : (t t' : Ledger) (owner c n : ℕ) → Posted t t' owner c n → Elsewhere t t' c
  Posted-Elsewhere t t' owner c n p d apart =
      (λ x. p.elsewhere x d (ground arith), rw p.same_stats refl)

  Posted-apart :
      (t t' : Ledger) (owner c n : ℕ)
      → Posted t t' owner c n
      → (x : ℕ) → x ≢ owner
      → balance_in t' c x ≡ balance_in t c x
  Posted-apart t t' owner c n p x apart = p.elsewhere x c (ground arith)

  module _ ⦃chaining : Chaining⦄ (owner : ℕ) (value : ChainAsset) (stats : CurrencyStats)
      (pending pending' : ℕ) (t t' : Ledger) where
    -- What is taken from a balance is pending.
    pub sub_balance-Backed :
        value.amount < 2 ^ 63
        → pending' ≡ pending + value.amount
        → (b : Backed (balance_in t (code value)) stats pending) → sub_balance owner value t ≡ ok t'
        → (value.amount ≤ b.circulating)
          × Posted t t' owner (code value) (balance_in t (code value) owner - value.amount)
          × Backed (balance_in t' (code value)) stats pending'
    sub_balance-Backed small e b h =
        let c = code value in
        let bound = Spread-le owner b.spread in
        let (le, p) =
          sub_balance-Posted owner value t t' small
            (omega (arith, bound, b.supplied, b.capped, b.limited)) h in
        (
          omega arith,
          p,
          record {
            circulating = b.circulating - value.amount;
            spread =
                Spread-change (balance_in t' c) owner (b.circulating - value.amount) b.spread
                  (Posted-apart t t' owner c _ p) (omega (arith, p.there, le, bound));
            supplied = omega (arith, e, le, bound, b.supplied);
            capped = b.capped;
            limited = b.limited;
          },
        )

    -- What is pending may be given to a balance.
    pub add_balance-Backed :
        pending' + value.amount ≡ pending
        → Backed (balance_in t (code value)) stats pending
        → add_balance owner value t ≡ ok t'
        → Posted t t' owner (code value) (balance_in t (code value) owner + value.amount)
          × Backed (balance_in t' (code value)) stats pending'
    add_balance-Backed e b h =
        let c = code value in
        let bound = Spread-le owner b.spread in
        let p =
          add_balance-Posted owner value t t'
            (omega (arith, bound, e, b.supplied, b.capped, b.limited)) h in
        (
          p,
          record {
            circulating = b.circulating + value.amount;
            spread =
                Spread-change (balance_in t' c) owner (b.circulating + value.amount) b.spread
                  (Posted-apart t t' owner c _ p) (omega (arith, p.there));
            supplied = omega (arith, e, b.supplied);
            capped = b.capped;
            limited = b.limited;
          },
        )
