-- ===== src/Contracts/Token/Effects.antt =====
-- What `subBalance` and `addBalance` of mvm/eos/contracts/mixinproxy/token/token.go do to the
-- balances.
use trusted_group.Base.{
  ℕ, ◌+◌, ◌-◌, ◌^◌, ◌<◌, ◌≤◌, ◌≡◌, refl, sym, ◌∙◌, false, ◌==◌, ◌&&◌, Option, none, some, arith, ap,
  subst, ok_injective, ok, >>=-eq-ok,
}
use trusted_group.External.{ChainAsset, Tables, Chaining, check}
use trusted_group.Contracts.{signed_le, signed_le→le, must_find, must_find-eq-ok, check-eq-ok}
use trusted_group.Contracts.Token.{Ledger, code, sub_balance, add_balance, add_to_row}

abbrev pub amount_of : Option ChainAsset → ℕ
amount_of none = 0
amount_of (some a) = a.amount

module _ ⦃tables : Tables⦄ where
  open tables use {find, put, store, find-put, store_new}

  abbrev pub balance_in : Ledger → ℕ → ℕ → ℕ
  balance_in t c owner = amount_of (find t.accounts owner c)

  -- One balance is another, and nothing else is.
  pub record Posted (t t' : Ledger) (owner c amount : ℕ) : Type 0 where
    pub there : balance_in t' c owner ≡ amount
    pub elsewhere :
        (x d : ℕ) → ((owner == x) && (c == d)) ≡ false → balance_in t' d x ≡ balance_in t d x
    pub same_stats : t'.stats ≡ t.stats
    pub same_sent : t'.sent ≡ t.sent
    pub same_bindaccounts : t'.bindaccounts ≡ t.bindaccounts

  Posted-put :
      (t : Ledger) (owner c : ℕ) (b : ChainAsset)
      → Posted t (record t { accounts = put t.accounts owner c b }) owner c b.amount
  Posted-put t owner c b = record {
    there = rw (find-put) (ground arith);
    elsewhere = λ x d h. rw (find-put t.accounts owner c b x d, h) refl;
    same_stats = refl;
    same_sent = refl;
    same_bindaccounts = refl;
  }

  pub put-Posted :
      (t t' : Ledger) (owner c n : ℕ) (b : ChainAsset)
      → b.amount ≡ n
      → ok (record t { accounts = put t.accounts owner c b }) ≡ ok t'
      → Posted t t' owner c n
  put-Posted t t' owner c n b e h =
      subst (λ m. Posted t t' owner c m) e
        (subst (λ s. Posted t s owner c b.amount) (ok_injective h) (Posted-put t owner c b))

  module _ ⦃chaining : Chaining⦄ where
    open chaining use {asset_add, asset_sub, asset_add_ok, asset_sub_ok}

    pub sub_balance-Posted :
        (owner : ℕ) (value : ChainAsset) (t t' : Ledger)
        → value.amount < 2 ^ 63
        → balance_in t (code value) owner < 2 ^ 63
        → sub_balance owner value t ≡ ok t'
        → (value.amount ≤ balance_in t (code value) owner)
          × Posted t t' owner (code value) (balance_in t (code value) owner - value.amount)
    unfolding sub_balance
    sub_balance-Posted owner value t t' small low h =
        let (b, h₁, h₂) = >>=-eq-ok (must_find t.accounts owner (code value)) _ h in
        let (u, h₃, h₄) = >>=-eq-ok (check (signed_le value.amount b.amount)) _ h₂ in
        let (b', h₅, h₆) = >>=-eq-ok (asset_sub b value) _ h₄ in
        let found = must_find-eq-ok t.accounts owner (code value) h₁ in
        let (_, _, amount) = asset_sub_ok b value b' h₅ in
        let same : balance_in t (code value) owner ≡ b.amount = ap amount_of found in
        let le = signed_le→le value.amount b.amount small (omega arith) (check-eq-ok _ h₃) in
        (omega arith, put-Posted t t' owner (code value) _ b' (omega arith) h₆)

    add_to_row-Posted :
        (owner : ℕ) (value : ChainAsset) (t t' : Ledger) (o : Option ChainAsset)
        → find t.accounts owner (code value) ≡ o
        → balance_in t (code value) owner + value.amount < 2 ^ 63
        → add_to_row o owner value t ≡ ok t'
        → Posted t t' owner (code value) (balance_in t (code value) owner + value.amount)
    unfolding add_to_row
    add_to_row-Posted owner value t t' none e small h =
        let (r, h₁, h₂) = >>=-eq-ok (store t.accounts owner (code value) value) _ h in
        let stored : put t.accounts owner (code value) value ≡ r =
          ok_injective (sym (store_new t.accounts owner (code value) value e) ∙ h₁) in
        let h₃ : ok (record t { accounts = put t.accounts owner (code value) value }) ≡ ok t' =
          subst (λ s. ok (record t { accounts = s }) ≡ ok t') (sym stored) h₂ in
        put-Posted t t' owner (code value) _ value (omega (arith, ap amount_of e)) h₃
    add_to_row-Posted owner value t t' (some b) e small h =
        let (b', h₁, h₂) = >>=-eq-ok (asset_add b value) _ h in
        let (_, _, amount) = asset_add_ok b value b' h₁ in
        put-Posted t t' owner (code value) _ b' (omega (arith, ap amount_of e)) h₂

    pub add_balance-Posted :
        (owner : ℕ) (value : ChainAsset) (t t' : Ledger)
        → balance_in t (code value) owner + value.amount < 2 ^ 63
        → add_balance owner value t ≡ ok t'
        → Posted t t' owner (code value) (balance_in t (code value) owner + value.amount)
    unfolding add_balance
    add_balance-Posted owner value t t' small h = row (find t.accounts owner (code value)) refl h
      where
        row :
            (o : Option ChainAsset)
            → find t.accounts owner (code value) ≡ o
            → add_to_row o owner value t ≡ ok t'
            → Posted t t' owner (code value) (balance_in t (code value) owner + value.amount)
        row o e h = add_to_row-Posted owner value t t' o e small h
