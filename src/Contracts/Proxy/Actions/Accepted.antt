-- ===== src/Contracts/Proxy/Actions/Accepted.antt =====
-- The events of the group that mvm/eos/contracts/mixinproxy accepts, over any sequence of its actions.
use trusted_group.Base.{
  ℕ, ◌-◌, ◌^◌, ◌<◌, ◌≡◌, refl, sym, ◌∙◌, subst, Bytes, true, false, not, ◌==◌, leb, length, List,
  [], ◌∷◌, inl, inr, arith, Bool-cases, ok, >>=-eq-ok, ok_injective, drop,
}
use trusted_group.External.{Tables, Chaining, Call, Holds}
use trusted_group.Contracts.{is_found, check->>}
use trusted_group.Contracts.Token.Sums.{Distinct}
use trusted_group.Contracts.Signatures.{verify_signatures}
use trusted_group.Contracts.Proxy.{Proxy, TxEvent, mtg_xin}
use trusted_group.Contracts.Proxy.Nonces.{get_nonce, store_nonce, check_nonce}
use trusted_group.Contracts.Proxy.Nonces.Advance.{is_used}
use trusted_group.Contracts.Proxy.Nonces.Once.{Taken, IsRanged, check_nonce-Taken, noted-Taken}
use trusted_group.Contracts.Proxy.Events.Untouched.{SameRecords}
use trusted_group.Contracts.Proxy.Events.Frame.{handle_event-SameRecords}
use trusted_group.Contracts.Proxy.Actions.{Unpacking, signed_part, on_event, on_error_event}
use trusted_group.Contracts.Proxy.Actions.Others.{Other, Other-SameRecords}

module _ ⦃tables : Tables⦄ where
  open tables use {find, store}

  -- The same nonces are used and ranged alike.
  after_same :
      (self n : ℕ) (p p' p'' : Proxy)
      → SameRecords self p' p''
      → Taken self n p p'
      → Taken self n p p''
  after_same self n p p' p'' s t = record {
    fresh = t.fresh;
    used = λ m. rw (s.notes, s.counter) (t.used m);
  }

  IsRanged-same :
      (self : ℕ) (p p' : Proxy) → SameRecords self p p' → IsRanged self p → IsRanged self p'
  IsRanged-same self p p' s r = record {
    notes = rw s.notes r.notes;
    counter = rw s.counter r.counter;
  }

  module _ ⦃chaining : Chaining⦄ ⦃unpacking : Unpacking⦄ where
    open unpacking use {unpack_event, unpack_string}

    on_event-Taken :
        (call : Call) (process : ℕ) (message : Bytes) (event : TxEvent) (size : ℕ) (p p' : Proxy)
        → unpack_event message ≡ ok (event, size)
        → event.nonce < 2 ^ 64 - 1
        → on_event call process message p ≡ ok p'
        → IsRanged call.receiver p
        → Taken call.receiver event.nonce p p' × IsRanged call.receiver p'
    unfolding on_event
    on_event-Taken call process message event size p p' e small h range =
        let self = call.receiver in
        let h₁ = rw e at h in
        let (part, _, h₂) =
          >>=-eq-ok (signed_part (length message) event.signatures message) _ h₁ in
        let (_, _, h₃) =
          >>=-eq-ok (verify_signatures p.signers mtg_xin part event.signatures) _ h₂ in
        let (_, h₄) = check->> (event.process == process) _ h₃ in
        let (p₁, taken, h₅) = >>=-eq-ok (check_nonce call event.nonce p) _ h₄ in
        let (t, r) = check_nonce-Taken call event.nonce p p₁ small range taken in
        let s = handle_event-SameRecords call process event p₁ p' h₅ in
        (after_same self event.nonce p p₁ p' s t, IsRanged-same self p₁ p' s r)

    on_error_event-Taken :
        (call : Call) (process : ℕ) (message : Bytes) (event : TxEvent) (size : ℕ) (p p' : Proxy)
        → unpack_event message ≡ ok (event, size)
        → event.nonce < 2 ^ 64 - 1
        → on_error_event call process message p ≡ ok p'
        → IsRanged call.receiver p
        → Taken call.receiver event.nonce p p' × IsRanged call.receiver p'
    unfolding on_error_event
    on_error_event-Taken call process message event size p p' e small h range =
        let self = call.receiver in
        let h₁ = rw e at h in
        let (part, _, h₂) = >>=-eq-ok (signed_part size event.signatures message) _ h₁ in
        let (_, _, h₃) =
          >>=-eq-ok (verify_signatures p.signers mtg_xin part event.signatures) _ h₂ in
        let (_, h₄) = check->> (event.process == process) _ h₃ in
        let (reason, _, h₅) = >>=-eq-ok (unpack_string (drop size message)) _ h₄ in
        let ((nonce, p₁), got, h₆) = >>=-eq-ok (get_nonce call p) _ h₅ in
        let (low, h₇) = check->> (leb nonce event.nonce) _ h₆ in
        let (p₂, noted, h₈) = >>=-eq-ok (store_nonce call event.nonce p₁) _ h₇ in
        let (_, h₉) = check->> (not (is_found (find p₂.errorevents self event.nonce))) _ h₈ in
        let (r, _, h') = >>=-eq-ok (store p₂.errorevents self event.nonce _) _ h₉ in
        let (t, ranged) = noted-Taken call event.nonce nonce p p₁ p₂ small range got low noted in
        subst (λ s. Taken self event.nonce p s × IsRanged self s) (ok_injective h')
          (
            record { fresh = t.fresh; used = t.used },
            record { notes = ranged.notes; counter = ranged.counter },
          )

    -- The actions of the proxy, with the nonces of the events that were accepted, the last first.
    pub data Run (self : ℕ) (p : Proxy) : Proxy → List ℕ → Type 0 where
      start : Run self p p []
      event_taken :
          (call : Call) (process : ℕ) (message : Bytes) (event : TxEvent) (size : ℕ)
          {p' p'' : Proxy} {ns : List ℕ}
          → Run self p p' ns
          → call.receiver ≡ self
          → unpack_event message ≡ ok (event, size)
          → event.nonce < 2 ^ 64 - 1
          → on_event call process message p' ≡ ok p''
          → Run self p p'' (event.nonce ∷ ns)
      error_taken :
          (call : Call) (process : ℕ) (message : Bytes) (event : TxEvent) (size : ℕ)
          {p' p'' : Proxy} {ns : List ℕ}
          → Run self p p' ns
          → call.receiver ≡ self
          → unpack_event message ≡ ok (event, size)
          → event.nonce < 2 ^ 64 - 1
          → on_error_event call process message p' ≡ ok p''
          → Run self p p'' (event.nonce ∷ ns)
      other_done :
          {p' p'' : Proxy} {ns : List ℕ} → Run self p p' ns → Other self p' p'' → Run self p p'' ns

    -- What a run comes to.
    pub record Accepts (self : ℕ) (p p' : Proxy) (ns : List ℕ) : Type 0 where
      pub once : Distinct ns
      pub noted : (n : ℕ) → Holds n ns → is_used self p' n ≡ true
      pub new : (n : ℕ) → Holds n ns → is_used self p n ≡ false
      pub kept : (n : ℕ) → is_used self p n ≡ true → is_used self p' n ≡ true
      pub ranged : IsRanged self p'

    accept_one :
        (self n : ℕ) (p p' p'' : Proxy) (ns : List ℕ)
        → Accepts self p p' ns
        → Taken self n p' p''
        → IsRanged self p''
        → Accepts self p p'' (n ∷ ns)
    accept_one self n p p' p'' ns a t r = record {
      once = (λ (i : Holds n ns). absurd (let c = sym (a.noted n i) ∙ t.fresh in cc c), a.once);
      noted = λ m i. elim i [
        | inl e ↦ rw t.used (ground arith)
        | inr j ↦ rw (t.used m, a.noted m j) refl
      ];
      new = λ m i. elim i [
        | inl e ↦ elim (Bool-cases (is_used self p m)) [
          | inl old ↦ absurd (
              let c = sym (a.kept m old) ∙ subst (λ x. is_used self p' x ≡ false) (sym e) t.fresh in
              cc c)
          | inr free ↦ free
        ]
        | inr j ↦ a.new m j
      ];
      kept = λ m u. rw (t.used m, a.kept m u) refl;
      ranged = r;
    }

    -- Over any sequence of actions that succeed, no nonce is accepted twice, whether by `onevent` or by
    -- `onerrorevent`, and none that was used before; a nonce that is used stays so. The events carry
    -- nonces below 2 ^ 64 - 1, as those that were noted at the start.
    pub run-Accepts :
        (self : ℕ) (p p' : Proxy) (ns : List ℕ)
        → IsRanged self p
        → Run self p p' ns
        → Accepts self p p' ns
    run-Accepts self p _ _ range start = record {
      once = tt;
      noted = λ n i. absurd i;
      new = λ n i. absurd i;
      kept = λ n u. u;
      ranged = range;
    }
    run-Accepts self p p'' _ range
          (event_taken call process message event size {p' = p'} {ns = ns} before e unpacked small
            h) =
        let a = run-Accepts self p p' ns range before in
        let (t, r) =
          on_event-Taken call process message event size p' p'' unpacked small h
            (subst (λ s. IsRanged s p') (sym e) a.ranged) in
        accept_one self event.nonce p p' p'' ns a (subst (λ s. Taken s event.nonce p' p'') e t)
          (subst (λ s. IsRanged s p'') e r)
    run-Accepts self p p'' _ range
          (error_taken call process message event size {p' = p'} {ns = ns} before e unpacked small
            h) =
        let a = run-Accepts self p p' ns range before in
        let (t, r) =
          on_error_event-Taken call process message event size p' p'' unpacked small h
            (subst (λ s. IsRanged s p') (sym e) a.ranged) in
        accept_one self event.nonce p p' p'' ns a (subst (λ s. Taken s event.nonce p' p'') e t)
          (subst (λ s. IsRanged s p'') e r)
    run-Accepts self p p'' ns range (other_done {p' = p'} before step) =
        let a = run-Accepts self p p' ns range before in
        let s = Other-SameRecords self p' p'' step in
        record {
          once = a.once;
          noted = λ n i. rw (s.notes, s.counter) (a.noted n i);
          new = a.new;
          kept = λ n u. rw (s.notes, s.counter) (a.kept n u);
          ranged = IsRanged-same self p' p'' s a.ranged;
        }
