-- ===== src/Contracts/Proxy/Nonces/Advance.antt =====
-- The loops of `CheckNonce` of mvm/eos/contracts/mixinproxy/mixinproxy.go: they end, and keep which
-- nonces were used.
use trusted_group.Base.{
  ℕ, zero, suc, ◌+◌, ◌-◌, ◌%◌, ◌^◌, ◌<◌, ◌≤◌, ◌≡◌, refl, sym, ◌∙◌, subst, ap, Bool, true, ◌==◌,
  ◌||◌, ltb, leb, length, List, [], ◌∷◌, Option, none, some, Option-cases, inl, inr, All, arith,
  Bool-cases, Outcome, ok,
}
use trusted_group.External.{Tables, Call, without}
use trusted_group.Contracts.{is_found, length-without_lt, no_rows}
use trusted_group.Contracts.Proxy.{Proxy, key_nonce}
use trusted_group.Contracts.Proxy.Nonces.{inc_counter, inc_nonce, advance, remove_stale}

no_length : {A : Type 0} (l : List A) → length l ≤ 0 → l ≡ []
no_length [] h = refl
no_length (x ∷ l) h = absurd (omega arith)

abbrev pub count_or_first : Option ℕ → ℕ
count_or_first none = 1
count_or_first (some n) = n

module _ ⦃tables : Tables⦄ where
  open tables use {
    Rows, find, put, remove, rows, find-put, find-remove, store_new, rows_sound, rows_complete,
    rows-remove,
  }

  abbrev pub nonce_of : ℕ → Proxy → ℕ
  nonce_of self p = count_or_first (find p.counters self key_nonce)

  -- The nonce was taken: it is behind the counter, or noted ahead of it.
  abbrev pub is_used : ℕ → Proxy → ℕ → Bool
  is_used self p n = ltb n (nonce_of self p) || is_found (find p.submittedevs self n)

  -- The rows hold their keys, and no nonce is the greatest number of 64 bits, after which the counter
  -- would start again.
  abbrev pub Notes : ℕ → Rows ℕ → Type 0
  Notes self r = (k v : ℕ) → find r self k ≡ some v → (v ≡ k) × (k < 2 ^ 64 - 1)

  pub Notes-remove : (self n : ℕ) (r : Rows ℕ) → Notes self r → Notes self (remove r self n)
  Notes-remove self n r h k v e = h k v (ground (arith, find-remove r self n self k))

  -- Counting up: the same notes, and the next number.
  record Counted (call : Call) (p p' : Proxy) : Type 0 where
    done : inc_nonce call p ≡ ok p'
    next : nonce_of call.receiver p' ≡ nonce_of call.receiver p + 1
    same : p'.submittedevs ≡ p.submittedevs

  inc_nonce-Counted :
      (call : Call) (p : Proxy)
      → nonce_of call.receiver p + 1 < 2 ^ 64
      → (p' : Proxy) × Counted call p p'
  unfolding inc_nonce inc_counter
  inc_nonce-Counted call p small = go (find p.counters call.receiver key_nonce) refl
    where
      go :
          (o : Option ℕ)
          → find p.counters call.receiver key_nonce ≡ o
          → (p' : Proxy) × Counted call p p'
      go (some n) e =
          let r = put p.counters call.receiver key_nonce ((n + 1) % 2 ^ 64) in
          (
            record p { counters = r },
            record {
              done = rw e refl;
              next = rw (find-put, e) (ground (arith, small, e));
              same = refl;
            },
          )
      go none e =
          let r = put p.counters call.receiver key_nonce 2 in
          (
            record p { counters = r },
            record {
              done = rw (e, store_new p.counters call.receiver key_nonce 2 e) refl;
              next = rw (find-put, e) (ground arith);
              same = refl;
            },
          )

  -- What `CheckNonce` keeps while it moves the nonce.
  pub record Moved (self : ℕ) (p p' : Proxy) : Type 0 where
    pub same_used : (m : ℕ) → is_used self p' m ≡ is_used self p m
    pub notes : Notes self p'.submittedevs
    pub range : nonce_of self p' < 2 ^ 64

  pub record Advanced (call : Call) (p : Proxy) (result : Outcome (ℕ × Proxy)) : Type 0 where
    pub nonce : ℕ
    pub after : Proxy
    pub done : result ≡ ok (nonce, after)
    pub current : nonce ≡ nonce_of call.receiver after
    pub free : find after.submittedevs call.receiver nonce ≡ none
    pub moved : Moved call.receiver p after

  -- The nonce that was noted is counted, and its note removed: the same nonces are used.
  counted_used :
      (call : Call) (p p' : Proxy) (v : ℕ)
      → find p.submittedevs call.receiver (nonce_of call.receiver p) ≡ some v
      → nonce_of call.receiver p' ≡ nonce_of call.receiver p + 1
      → p'.submittedevs ≡ remove p.submittedevs call.receiver (nonce_of call.receiver p)
      → (m : ℕ) → is_used call.receiver p' m ≡ is_used call.receiver p m
  unfolding is_found
  counted_used call p p' v e next same m =
      let self = call.receiver in
      let n = nonce_of self p in
      rw (same, find-remove p.submittedevs self n self m, next)
        (elim (Bool-cases (n == m)) [ inl b ↦ ground (arith, e) | inr b ↦ ground (arith, e) ])

  pub advance-Advanced :
      (call : Call) (fuel nonce : ℕ) (p : Proxy)
      → nonce ≡ nonce_of call.receiver p
      → Notes call.receiver p.submittedevs
      → nonce < 2 ^ 64
      → length (rows p.submittedevs call.receiver) ≤ fuel
      → Advanced call p (advance call fuel nonce p)
  unfolding advance is_found
  advance-Advanced call zero nonce p e notes small enough =
      let none_left = no_length (rows p.submittedevs call.receiver) enough in
      record {
        nonce = nonce;
        after = p;
        done = refl;
        current = e;
        free = no_rows p.submittedevs call.receiver nonce none_left;
        moved = record { same_used = λ m. refl; notes = notes; range = rw (sym e) small };
      }
  advance-Advanced call (suc fuel) nonce p e notes small enough =
      let self = call.receiver in
      elim (Option-cases (find p.submittedevs self nonce)) [
        | inl n ↦ record {
          nonce = nonce;
          after = p;
          done = rw n refl;
          current = e;
          free = n;
          moved = record { same_used = λ m. refl; notes = notes; range = rw (sym e) small };
        }
        | inr (v, f) ↦
            let p₁ = record p { submittedevs = remove p.submittedevs self nonce } in
            let (_, low) = notes nonce v f in
            let (p₂, c) = inc_nonce-Counted call p₁ (omega (arith, e, low)) in
            let fewer =
              length-without_lt nonce v (rows p.submittedevs self)
                (rows_complete p.submittedevs self nonce v f) in
            let left = rows-remove p.submittedevs self nonce in
            let wrapped : (nonce + 1) % 2 ^ 64 ≡ nonce_of self p₂ = omega (arith, e, low, c.next) in
            let rest =
              advance-Advanced call fuel ((nonce + 1) % 2 ^ 64) p₂ wrapped
                (subst (Notes self) (sym c.same) (Notes-remove self nonce p.submittedevs notes))
                (omega arith) (rw (c.same, left) (omega (arith, fewer, enough))) in
            record {
              nonce = rest.nonce;
              after = rest.after;
              done = rw (f, c.done) rest.done;
              current = rest.current;
              free = rest.free;
              moved = record {
                same_used = λ m.
                    rest.moved.same_used m
                    ∙ counted_used call p p₂ v
                        (subst (λ n. find p.submittedevs self n ≡ some v) e f) c.next
                        (c.same ∙ ap (remove p.submittedevs self) e) m;
                notes = rest.moved.notes;
                range = rest.moved.range;
              };
            }
      ]

  -- Old notes may go: their nonces are behind the counter.
  pub remove_stale_used :
      (fuel : ℕ) (l : List (ℕ × ℕ)) (self nonce : ℕ) (r : Rows ℕ)
      → All (λ (kv : ℕ × ℕ). find r self kv.0 ≡ some kv.1) l
      → Notes self r
      → Notes self (remove_stale fuel l self nonce r)
        × ((m : ℕ)
            → (ltb m nonce || is_found (find (remove_stale fuel l self nonce r) self m))
              ≡ (ltb m nonce || is_found (find r self m)))
  unfolding remove_stale is_found
  remove_stale_used fuel [] self nonce r h notes = (notes, λ m. refl)
  remove_stale_used zero (x ∷ l) self nonce r h notes = (notes, λ m. refl)
  remove_stale_used (suc fuel) ((k, v) ∷ l) self nonce r (f, h) notes =
      elim (Bool-cases (leb nonce v)) [
        | inl keep ↦ rw keep (notes, λ m. refl)
        | inr old ↦
            let r' = remove r self k in
            let (same_key, _) = notes k v f in
            let (notes', same) =
              remove_stale_used fuel (rows r' self) self nonce r' (rows_sound r' self)
                (Notes-remove self k r notes) in
            rw old (
              notes',
              λ m.
                  same m
                  ∙ rw (find-remove r self k self m) (elim (Bool-cases (k == m)) [
                    | inl b ↦ ground (arith, old, same_key)
                    | inr b ↦ ground arith
                  ]),
            )
      ]

  -- The first row that is left is not behind the counter.
  abbrev pub IsCurrent : ℕ → List (ℕ × ℕ) → Type 0
  IsCurrent nonce [] = Unit {0}
  IsCurrent nonce ((k, v) ∷ l) = leb nonce v ≡ true

  -- The loop runs to its end: an iteration removes a row.
  pub remove_stale-IsCurrent :
      (fuel : ℕ) (l : List (ℕ × ℕ)) (self nonce : ℕ) (r : Rows ℕ)
      → rows r self ≡ l
      → length l ≤ fuel
      → IsCurrent nonce (rows (remove_stale fuel l self nonce r) self)
  unfolding remove_stale
  remove_stale-IsCurrent fuel [] self nonce r e h = rw e tt
  remove_stale-IsCurrent zero ((k, v) ∷ l) self nonce r e h = absurd (omega arith)
  remove_stale-IsCurrent (suc fuel) ((k, v) ∷ l) self nonce r e h =
      elim (Bool-cases (leb nonce v)) [
        | inl keep ↦ rw (keep, e) keep
        | inr old ↦
            let fewer = length-without_lt k v ((k, v) ∷ l) (inl refl) in
            let left : rows (remove r self k) self ≡ without k ((k, v) ∷ l) =
              rw (rows-remove r self k, e) refl in
            rw old (
              remove_stale-IsCurrent fuel (rows (remove r self k) self) self nonce (remove r self k)
                refl (rw left (omega (arith, fewer, h))))
      ]
