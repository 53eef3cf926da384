-- ===== src/Machine/Metadata/Accounts.antt =====
-- What the metadata and the offsets write to the store leaves every account as it was.
use trusted_group.Base.{
  ℕ, ◌≡◌, refl, sym, subst, ◌∙◌, Bytes, Bool, true, false, not, beq, [], ◌++◌, Option, none, some,
  inl, inr, arith, if◌then◌else◌, uint64_bytes,
}
use trusted_group.Base.{Outcome, ok, err, panic, ◌>>=◌, >>=-eq-ok}
use trusted_group.External.{Integers, Wire, Database, Json, Network}
use trusted_group.Machine.Types.{Asset, CollectibleToken}
use trusted_group.Machine.Metadata.{
  fetch_asset_meta, fetch_collectible_token, forgive, categorize, check_asset_or_collectible,
  asset_category, collectible_category,
}
use trusted_group.Machine.Metadata.Effects.{
  Refreshed, fetch_asset_meta-ok, TokenRefreshed, fetch_collectible_token-ok,
}
use trusted_group.Store.Keys.{
  account_balance_key, snapshot_prefix, collectible_or_asset_key, engine_offset_key,
}
use trusted_group.Store.Keys.Kinds.{account_apart}
use trusted_group.Store.Accounts.Book.{Book, Shows}
use trusted_group.Store.Metadata.{read_asset_or_collectible, write_asset_or_collectible}
use trusted_group.Store.Processes.{write_engine_group_events_offset}

module _ ⦃ints : Integers⦄ ⦃database : Database⦄ where
  open database use {Db, get, set, get-set}

  -- The balances and the movements are where they were.
  pub record SameAccounts (d d' : Db) : Type 0 where
    pub balances :
        (p q : Bytes) → get d' (account_balance_key p q) ≡ get d (account_balance_key p q)
    pub movements :
        (c : Bool) (k : Bytes) → get d' (snapshot_prefix c ++ k) ≡ get d (snapshot_prefix c ++ k)

  SameAccounts-refl : (d : Db) → SameAccounts d d
  SameAccounts-refl d = record { balances = λ p q. refl; movements = λ c k. refl }

  SameAccounts-trans : (d d₁ d₂ : Db) → SameAccounts d d₁ → SameAccounts d₁ d₂ → SameAccounts d d₂
  SameAccounts-trans d d₁ d₂ s t = record {
    balances = λ p q. t.balances p q ∙ s.balances p q;
    movements = λ c k. t.movements c k ∙ s.movements c k;
  }

  pub Shows-SameAccounts : (d d' : Db) (b : Book) → SameAccounts d d' → Shows d b → Shows d' b
  Shows-SameAccounts d d' b s h = record {
    balances = λ p q long. ground (arith, s.balances p q, h.balances p q long);
    movements = λ p n c long range.
        ground (arith, s.movements c (p ++ uint64_bytes n), h.movements p n c long range);
  }

  pub SameAccounts-offset :
      (d d' : Db) (pid : Bytes) (n : ℕ)
      → write_engine_group_events_offset d pid n ≡ ok d'
      → SameAccounts d d'
  unfolding write_engine_group_events_offset
  SameAccounts-offset d d' pid n h =
      let e : d' ≡ set d (engine_offset_key pid) (uint64_bytes n) = ground arith in
      record {
        balances = λ p q. rw e (simp (get-set, account_apart));
        movements = λ c k. rw e (simp (get-set, account_apart));
      }

  SameAccounts-category :
      (d d' : Db) (id cat : Bytes) → write_asset_or_collectible d id cat ≡ ok d' → SameAccounts d d'
  unfolding write_asset_or_collectible
  SameAccounts-category d d' id cat h =
      let e : d' ≡ set d (collectible_or_asset_key id) cat = ground arith in
      record {
        balances = λ p q. rw e (simp (get-set, account_apart));
        movements = λ c k. rw e (simp (get-set, account_apart));
      }

module _ ⦃ints : Integers⦄ ⦃wire : Wire⦄ ⦃database : Database⦄ ⦃network : Network⦄
    ⦃asset_json : Json Asset⦄ ⦃token_json : Json CollectibleToken⦄ where
  open database use {Db, get, set, get-set}

  SameAccounts-Refreshed : (d d' : Db) (id : Bytes) → Refreshed id d d' → SameAccounts d d'
  SameAccounts-Refreshed d d' id (inl e) = subst (SameAccounts d) (sym e) (SameAccounts-refl d)
  SameAccounts-Refreshed d d' id (inr (v, e)) = record {
    balances = λ p q. rw e (simp (get-set, account_apart));
    movements = λ c k. rw e (simp (get-set, account_apart));
  }

  SameAccounts-TokenRefreshed :
      (d d' : Db) (id : Bytes) → TokenRefreshed id d d' → SameAccounts d d'
  SameAccounts-TokenRefreshed d d' id (inl e) = subst (SameAccounts d) (sym e) (SameAccounts-refl d)
  SameAccounts-TokenRefreshed d d' id (inr (v, e)) = record {
    balances = λ p q. rw e (simp (get-set, account_apart));
    movements = λ c k. rw e (simp (get-set, account_apart));
  }

  SameAccounts-forgiven :
      (d d' : Db) (id : Bytes) (found : Option Bytes)
      → forgive d (fetch_asset_meta d id) ≡ ok (found, d')
      → SameAccounts d d'
  SameAccounts-forgiven d d' id found = go (fetch_asset_meta d id) refl
    where
      go :
          (result : Outcome (Option Bytes × Db))
          → fetch_asset_meta d id ≡ result
          → forgive d result ≡ ok (found, d')
          → SameAccounts d d'
      go (ok (meta, d₁)) e h =
          let same : d₁ ≡ d' = unfold forgive in ground arith in
          subst (SameAccounts d) same
            (SameAccounts-Refreshed d d₁ id (fetch_asset_meta-ok d d₁ id meta e))
      go (err x) e h =
          let same : d ≡ d' = unfold forgive in ground arith in
          subst (SameAccounts d) same (SameAccounts-refl d)
      go panic e h = unfold forgive in cc

  SameAccounts-categorize :
      (d d' : Db) (id cat : Bytes) (found : Option Bytes)
      → categorize id (found, d) ≡ ok (cat, d')
      → SameAccounts d d'
  unfolding categorize
  SameAccounts-categorize d d' id cat (some meta) h =
      let (d₁, wrote, h₁) = >>=-eq-ok (write_asset_or_collectible d id asset_category) _ h in
      let same : d₁ ≡ d' = ground arith in
      subst (SameAccounts d) same (SameAccounts-category d d₁ id asset_category wrote)
  SameAccounts-categorize d d' id cat none h =
      let ((meta, d₁), fetched, h₁) = >>=-eq-ok (fetch_collectible_token d id) _ h in
      let (d₂, wrote, h₂) =
        >>=-eq-ok (write_asset_or_collectible d₁ id collectible_category) _ h₁ in
      let same : d₂ ≡ d' = ground arith in
      subst (SameAccounts d) same (
        SameAccounts-trans d d₁ d₂
          (SameAccounts-TokenRefreshed d d₁ id (fetch_collectible_token-ok d d₁ id meta fetched))
          (SameAccounts-category d₁ d₂ id collectible_category wrote))

  -- The category of an asset, found or fetched.
  pub SameAccounts-check_asset_or_collectible :
      (d d' : Db) (id cat : Bytes)
      → check_asset_or_collectible d id ≡ ok (cat, d')
      → SameAccounts d d'
  unfolding check_asset_or_collectible
  SameAccounts-check_asset_or_collectible d d' id cat h =
      let (old, read, h₁) = >>=-eq-ok (read_asset_or_collectible d id) _ h in
      go old (not (beq old [])) h₁
    where
      go :
          (old : Bytes) (b : Bool)
          → (if b
              then ok (old, d)
              else (do found ← forgive d (fetch_asset_meta d id); categorize id found))
            ≡ ok (cat, d')
          → SameAccounts d d'
      go old true h =
          let same : d ≡ d' = ground arith in subst (SameAccounts d) same (SameAccounts-refl d)
      go old false h =
          let ((found, d₁), forgiven, h₁) = >>=-eq-ok (forgive d (fetch_asset_meta d id)) _ h in
          SameAccounts-trans d d₁ d' (SameAccounts-forgiven d d₁ id found forgiven)
            (SameAccounts-categorize d₁ d' id cat found h₁)
