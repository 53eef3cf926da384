-- ===== src/Tests/Services.antt =====
-- A group, its messenger and an engine that answer without failing.
use trusted_group.Base.{ℕ, false, [], ◌∷◌, none, some, compare, length, ◌==◌, ◌+◌}
use trusted_group.Base.{ok}
use trusted_group.External.{Network}
use trusted_group.Machine.State.{Engine}
use trusted_group.Tests.Toy.{amounts, zeros}

-- A partial signature of this group is the member's number and the message's first byte; a full one
-- is made of any two of them.
instance abbrev pub services : Network
services = record {
  Decimal = ℕ;
  decimal_cmp = compare;
  decimal_string = λ a. a ∷ [];
  api_read_asset = λ id. ok (some (id, id));
  api_read_collectibles_token = λ id. ok (record { token_id = id; token = id; group = id });
  is_error_codes = λ e. false;
  unique_conversation_id = λ a b. a;
  genesis_id = zeros 36;
  group_members = (1 ∷ zeros 35) ∷ (2 ∷ zeros 35) ∷ (3 ∷ zeros 35) ∷ [];
  group_threshold = 2;
  transaction_fault = λ t. none;
  queue_fault = λ a b. none;
  broadcast_fault = λ b. none;
  sign_partial = λ msg. ok (1 ∷ zeros 65);
  verify_partial = λ msg sig. length sig == 66;
  recover = λ msg sigs t n. ok (zeros 64);
  verify_full = λ msg sig. length sig == 64;
}

-- An engine that counts the events it is sent.
instance abbrev pub counter : Engine
counter = record {
  State = ℕ;
  verify_address = λ s a x. ok tt;
  setup_notifier = λ s a. ok s;
  estimate_cost = λ s es. ok 1;
  ensure_send_group_events = λ s a es. ok (s + length es);
  receive_group_events = λ s a n limit. ok [];
}
