-- ===== src/Contracts/Proxy/Accounts.antt =====
-- The accounts of the users: `GetAccount`, `CreateNewAccount` and `GetNextAvailableAccount` of
-- mvm/eos/contracts/mixinproxy/mixinproxy.go, and the names of mvm/eos/contracts/mixinproxy/utils.go,
-- as they are without the debug build.
pub mod Letters
use trusted_group.Base.{
  ℕ, zero, suc, ◌+◌, ◌*◌, ◌/◌, ◌%◌, ◌^◌, Bytes, not, ◌==◌, [], ◌∷◌, ◌++◌, Option, none, some, text,
  if◌then◌else◌, Outcome, ok, panic, ◌>>=◌, ◌>>◌,
}
use trusted_group.External.{Tables, Chaining, Call, check}
use trusted_group.Contracts.{is_found}
use trusted_group.Contracts.Token.{MixinAccount}
use trusted_group.Contracts.Proxy.{
  Proxy, AccountCache, system_newaccount, system_buyram, send, account_owner,
}

abbrev pub ram_bytes : ℕ
ram_bytes = 3 * 1024

abbrev pub letters_a : ℕ → Bytes
letters_a zero = []
letters_a (suc n) = b'a' ∷ letters_a n

-- The letters of an account: the digits of the number to the base 26, the lowest first, and `a` for
-- the rest.
unfoldable pub account_letters : ℕ → ℕ → Bytes
account_letters zero id = []
account_letters (suc n) id =
    let rest = account_letters n (id / 26) in
    (b'a' + id % 26) ∷ (if id / 26 == 0 then letters_a n else rest)

module _ ⦃chaining : Chaining⦄ where
  open chaining use {new_name}

  unfoldable pub get_account_name_from_id : Call → ℕ → Outcome ℕ
  unfolding account_letters
  get_account_name_from_id call account_id = do
    let name = new_name (account_letters 9 account_id ++ text "mvm")
    check (not (call.is_account name))
    ok name

  module _ ⦃tables : Tables⦄ where
    open tables use {find, store, search}

    unfoldable pub create_new_account : ℕ → ℕ → ℕ → Proxy → Proxy
    create_new_account creator owner_account new_account p =
        send (system_buyram creator new_account ram_bytes)
          (send (system_newaccount creator owner_account new_account) p)

    -- The account of a user, by the second index and then by the first.
    unfoldable pub account_at : Option MixinAccount → Option ℕ
    account_at none = none
    account_at (some record_of) = some record_of.eos_account

    unfoldable pub account_by : Option ℕ → Call → Proxy → Option ℕ
    unfolding account_at
    account_by none call p = none
    account_by (some primary) call p = account_at (find p.bindaccounts call.receiver primary)

    abbrev pub by_client_id : MixinAccount → ℕ
    by_client_id account = account.client_id

    unfoldable pub get_account : Call → ℕ → Proxy → Option ℕ
    unfolding account_by
    get_account call user_id p =
        account_by (search by_client_id p.bindaccounts call.receiver user_id) call p

    unfoldable pub next_account : Option AccountCache → Call → Proxy → Outcome (ℕ × Proxy)
    unfolding get_account_name_from_id create_new_account
    next_account none call p = panic
    next_account (some item) call p = do
      let id = (item.id + 1) % 2 ^ 64
      account ← get_account_name_from_id call id
      ok (
        item.account,
        record (create_new_account call.receiver account_owner account p) {
          accountcache = some (record { id = id; account = account });
        },
      )

    unfoldable pub get_next_available_account : Call → Proxy → Outcome (ℕ × Proxy)
    unfolding next_account
    get_next_available_account call p = next_account p.accountcache call p

    -- The test is the one of the source: the user must have an account already.
    unfoldable pub create_user_account : Call → ℕ → Proxy → Outcome (ℕ × Proxy)
    unfolding is_found get_next_available_account
    create_user_account call from p = do
      check (is_found (search by_client_id p.bindaccounts call.receiver from))
      (account, p) ← get_next_available_account call p
      r ←
          store p.bindaccounts call.receiver account
            (record { eos_account = account; client_id = from })
      ok (account, record p { bindaccounts = r })

    -- The action `initialize`
    unfoldable pub initialize : Call → Proxy → Outcome Proxy
    unfolding is_found get_account_name_from_id create_new_account
    initialize call p = do
      check (call.has_auth call.receiver)
      check (not (is_found p.accountcache))
      account ← get_account_name_from_id call 0
      ok (record (create_new_account call.receiver account_owner account p) {
        accountcache = some (record { id = 0; account = account });
      })
