-- ===== src/Protocol/History.antt =====
-- src/isr.rs: what a register at one time says of the same register later.
use rust_quepaxa.Prelude.{
  ◌+◌, ◌≤◌, ◌<◌, ◌≡◌, refl, ◌⊎◌, inl, inr, Bool, true, false, ◌&&◌, ◌||◌, eqb, ltb, List, [], ◌∷◌,
  Option, none, some, arith, All, Option-cases,
}
use rust_quepaxa.Types.{Proposal}
use rust_quepaxa.Types.Clock.{Step, u64_mod, is_next_after}
use rust_quepaxa.Types.Keys.{ProposalKey, key_leb, key_leb_refl, key_leb_trans, key_leb_total}
use rust_quepaxa.Types.Selection.{best_proposal, best_proposal_bounds}
use rust_quepaxa.Isr.{IntervalSummaryRegister, new, recorded}
use rust_quepaxa.Isr.History.{Call, after}

-- An earlier state of a history: the newest entry stands first.
pub data Suffix {ℓ} {A : Type ℓ} (h : List A) : List A → Type ℓ where
  whole : Suffix h h
  older : {x : A} {xs : List A} → Suffix h xs → Suffix h (x ∷ xs)

pub Suffix-trans {ℓ} : {A : Type ℓ} {g h i : List A} → Suffix g h → Suffix h i → Suffix g i
Suffix-trans s whole = s
Suffix-trans s (older t) = older (Suffix-trans s t)

pub Suffix-split {ℓ} :
    {A : Type ℓ} {g xs : List A} {x : A} → Suffix g (x ∷ xs) → (g ≡ x ∷ xs) ⊎ Suffix g xs
Suffix-split whole = inl refl
Suffix-split (older s) = inr s

-- Of two earlier states of one history, one is earlier than the other.
pub Suffix-total {ℓ} :
    {A : Type ℓ} {g h i : List A} → Suffix g i → Suffix h i → Suffix g h ⊎ Suffix h g
Suffix-total whole t = inr t
Suffix-total (older s) whole = inl (older s)
Suffix-total (older s) (older t) = Suffix-total s t

module _ {V : Type 0} where
  abbrev pub call : Step → Proposal V → Call V
  call s p = record { at = s; proposal = p }

  -- The history holds a call for `p` at step `s`.
  abbrev pub Entry : List (Call V) → Step → Proposal V → Type 0
  Entry h s p = (h0 : List (Call V)) × Suffix (call s p ∷ h0) h

  pub Entry-older :
      (c : Call V) (h : List (Call V)) (s : Step) (p : Proposal V) → Entry h s p → Entry (c ∷ h) s p
  Entry-older c h s p e = (e.0, older e.1)

  pub after-step : {g h : List (Call V)} → Suffix g h → (after g).step ≤ (after h).step
  unfolding after recorded
  after-step whole = omega arith
  after-step {h = c ∷ h} (older s) = ground (arith, after-step s)

  -- The first proposal at a step stays the first.
  pub first_stays :
      {g h : List (Call V)} (f : Proposal V)
      → Suffix g h
      → (after g).step ≡ (after h).step
      → (after g).first ≡ some f
      → (after h).first ≡ some f
  unfolding after recorded
  first_stays f whole e k = k
  first_stays {h = c ∷ h} f (older s) e k = ground (arith, after-step s, first_stays f s)

  -- A register past the initial step has a first proposal.
  pub first_present : (h : List (Call V)) → (after h).first ≡ none → (after h).step ≡ 0
  unfolding after recorded new
  first_present [] e = refl
  first_present (c ∷ h) e = ground (arith, first_present h, e)

  abbrev at_least : Option (Proposal V) → ProposalKey → Bool
  at_least none k = false
  at_least (some a) k = key_leb k a.key

  -- The register has taken in a key that came at step `s`, unless it is past the step after `s`.
  abbrev covers : Step → ProposalKey → IntervalSummaryRegister V → Bool
  covers s k r =
      (eqb r.step s && at_least r.current_aggregate k)
      || (eqb r.step (s + 1) && at_least r.prior_aggregate k)
      || ltb (s + 1) r.step

  at_least-best_proposal :
      (o : Option (Proposal V)) (p : Proposal V) (k : ProposalKey)
      → at_least o k ≡ true
      → at_least (some (best_proposal o p)) k ≡ true
  at_least-best_proposal none p k h = absurd cc
  at_least-best_proposal (some a) p k h =
      key_leb_trans k a.key (best_proposal (some a) p).key h (best_proposal_bounds a p).0

  at_least-best_proposal_new :
      (o : Option (Proposal V)) (p : Proposal V) → at_least (some (best_proposal o p)) p.key ≡ true
  unfolding best_proposal
  at_least-best_proposal_new none p = key_leb_refl p.key
  at_least-best_proposal_new (some a) p =
      ground (arith, key_leb_refl p.key, key_leb_total p.key a.key)

  recorded-covers :
      (s : Step) (k : ProposalKey) (r : IntervalSummaryRegister V) (c : Call V)
      → c.at < u64_mod
      → covers s k r ≡ true
      → covers s k (recorded r c.at c.proposal) ≡ true
  unfolding recorded is_next_after
  recorded-covers s k r c b h =
      ground (arith, at_least-best_proposal r.current_aggregate c.proposal k)

  after-covers :
      (c : Call V) (h0 : List (Call V)) {h : List (Call V)}
      → All (λ x. x.at < u64_mod) h
      → (after (c ∷ h0)).step ≡ c.at
      → Suffix (c ∷ h0) h
      → covers c.at c.proposal.key (after h) ≡ true
  unfolding after recorded
  after-covers c h0 b e whole = ground (
    arith,
    at_least-best_proposal_new (after h0).current_aggregate c.proposal,
    key_leb_refl c.proposal.key,
  )
  after-covers c h0 {h = d ∷ h} b e (older s) =
      recorded-covers c.at c.proposal.key (after h) d b.0 (after-covers c h0 b.1 e s)

  -- What was recorded at step `s` is in the prior aggregate of a register at the step after `s`.
  pub prior_covers :
      {h : List (Call V)} (s : Step) (q : Proposal V) (h0 : List (Call V))
      → All (λ x. x.at < u64_mod) h
      → Suffix (call s q ∷ h0) h
      → (after (call s q ∷ h0)).step ≡ s
      → (after h).step ≡ s + 1
      → (a : Proposal V) × ((after h).prior_aggregate ≡ some a) × (key_leb q.key a.key ≡ true)
  prior_covers {h} s q h0 b t e m =
      let c = after-covers (call s q) h0 b e t in
      elim (Option-cases (after h).prior_aggregate) [
        | inl k ↦ absurd (ground (arith, c, m, k))
        | inr (a, k) ↦ (a, k, ground (arith, c, m, k))
      ]
