-- ===== src/Protocol/Replies.antt =====
-- src/proposer.rs: what the replies of a quorum show of the recorders' histories.
use rust_quepaxa.Prelude.{
  ◌+◌, ◌≡◌, refl, sym, ap, ◌∙◌, subst, inl, inr, true, List, [], ◌∷◌, Option, none, some, arith, Eq,
  nat_eq, All, In, here, there, Option-cases,
}
use rust_quepaxa.Types.{Proposal}
use rust_quepaxa.Types.Clock.{Step}
use rust_quepaxa.Types.Keys.{ReplicaId}
use rust_quepaxa.Types.Selection.{
  max_proposal_by_key, max_proposal_by_key-Selects, Selects, Dominates,
}
use rust_quepaxa.Messages.{RecordReply}
use rust_quepaxa.Isr.{summary}
use rust_quepaxa.Proposer.{firsts, priors}
use rust_quepaxa.Proposer.Advance.{all_at}
use rust_quepaxa.Proposer.Collect.{recorders_of}
use rust_quepaxa.Proposer.Quorum.{quorum_reached}
use rust_quepaxa.Protocol.{Setting, Ticket, World, Answers, Collected}
use rust_quepaxa.Protocol.History.{Suffix, Suffix-trans, call}
use rust_quepaxa.Protocol.Trace.{first-Entry, prior-Entry}
use rust_quepaxa.Protocol.Evidence.{QuorumOf, below, Somewhere}

module _ {V : Type 0} where
  All-recorders_of :
      (P : ReplicaId → Type 0) (rs : List (RecordReply V))
      → All (λ r. P r.recorder) rs
      → All P (recorders_of rs)
  All-recorders_of P [] a = tt
  All-recorders_of P (r ∷ rs) a = (a.0, All-recorders_of P rs a.1)

  All-zip :
      (P Q R : RecordReply V → Type 0) (rs : List (RecordReply V))
      → ((r : RecordReply V) → P r → Q r → R r)
      → All P rs
      → All Q rs
      → All R rs
  All-zip P Q R [] f a b = tt
  All-zip P Q R (r ∷ rs) f a b = (f r a.0 b.0, All-zip P Q R rs f a.1 b.1)

  pub All-both :
      (P Q : RecordReply V → Type 0) (rs : List (RecordReply V))
      → All P rs
      → All Q rs
      → All (λ r. P r × Q r) rs
  All-both P Q rs = All-zip P Q (λ r. P r × Q r) rs (λ r a b. (a, b))

  pub all_at-All :
      (s : Step) (rs : List (RecordReply V)) → all_at s rs ≡ true → All (λ r. r.summary.step ≡ s) rs
  all_at-All s [] h = tt
  all_at-All s (r ∷ rs) h = (ground (arith, h), all_at-All s rs (ground (arith, h)))

  -- The proposals that one field of the replies holds.
  abbrev held : (RecordReply V → Option (Proposal V)) → List (RecordReply V) → List (Proposal V)
  held g [] = []
  held g (r ∷ rs) = elim (g r) [ none ↦ held g rs | some p ↦ p ∷ held g rs ]

  pub firsts-held : (rs : List (RecordReply V)) → firsts rs ≡ held (λ r. r.summary.first) rs
  firsts-held [] = refl
  firsts-held (r ∷ rs) = ground (arith, firsts-held rs)

  pub priors-held :
      (rs : List (RecordReply V)) → priors rs ≡ held (λ r. r.summary.prior_aggregate) rs
  priors-held [] = refl
  priors-held (r ∷ rs) = ground (arith, priors-held rs)

  module _ (g : RecordReply V → Option (Proposal V)) where
    held_skipped :
        (r : RecordReply V) (rs : List (RecordReply V)) → g r ≡ none → held g (r ∷ rs) ≡ held g rs
    held_skipped r rs n = ground (arith, n)

    held_taken :
        (r : RecordReply V) (rs : List (RecordReply V)) (q : Proposal V)
        → g r ≡ some q
        → held g (r ∷ rs) ≡ q ∷ held g rs
    held_taken r rs q n = ground (arith, n)

    pub held-below :
        (p : Proposal V) (rs : List (RecordReply V))
        → Dominates p (held g rs)
        → All (λ r. below (g r) p.key ≡ true) rs
    held-below p [] d = tt
    held-below p (r ∷ rs) d = elim (Option-cases (g r)) [
      | inl n ↦ (rw n refl, held-below p rs (subst (Dominates p) (held_skipped r rs n) d))
      | inr (q, n) ↦
          let d' = subst (Dominates p) (held_taken r rs q n) d in (rw n d'.0, held-below p rs d'.1)
    ]

    pub held-source :
        (p : Proposal V) (rs : List (RecordReply V))
        → In p (held g rs)
        → (r : RecordReply V) × In r rs × (g r ≡ some p)
    held-source p [] i = elim i [ ]
    held-source p (r ∷ rs) i = elim (Option-cases (g r)) [
      | inl n ↦ later (held-source p rs (subst (In p) (held_skipped r rs n) i))
      | inr (q, n) ↦ elim (subst (In p) (held_taken r rs q n) i) [
        | here e ↦ (r, here refl, n ∙ ap some (sym e))
        | there j ↦ later (held-source p rs j)
      ]
    ]
      where
        later :
            ((x : RecordReply V) × In x rs × (g x ≡ some p))
            → (x : RecordReply V) × In x (r ∷ rs) × (g x ≡ some p)
        later (x, i, e) = (x, there i, e)

    pub held_empty : (rs : List (RecordReply V)) → held g rs ≡ [] → All (λ r. g r ≡ none) rs
    held_empty [] e = tt
    held_empty (r ∷ rs) e = elim (Option-cases (g r)) [
      | inl n ↦ (n, held_empty rs (sym (held_skipped r rs n) ∙ e))
      | inr (q, n) ↦ absurd (cc (held_taken r rs q n, e))
    ]

  pub max_selected :
      (ps : List (Proposal V)) (p : Proposal V)
      → max_proposal_by_key ps ≡ some p
      → In p ps × Dominates p ps
  max_selected ps p e = subst (Selects ps) e (max_proposal_by_key-Selects ps)

  pub max_of_none : (ps : List (Proposal V)) → max_proposal_by_key ps ≡ none → ps ≡ []
  max_of_none ps e = subst (Selects ps) e (max_proposal_by_key-Selects ps)

module _ {V : Type 0} ⦃e : Eq V⦄ (σ : Setting V) (w : World V) (t : Ticket V) where
  -- The recorders of the replies are a quorum.
  pub replies-QuorumOf :
      (P : ReplicaId → Type 0) (Q : RecordReply V → Type 0) (rs : List (RecordReply V))
      → Collected σ w t rs
      → ((r : RecordReply V) → Answers σ w t r → Q r → P r.recorder)
      → All Q rs
      → QuorumOf σ P
  unfolding quorum_reached
  replies-QuorumOf P Q rs c f a = (
    recorders_of rs,
    c.0.0,
    All-recorders_of P rs (All-zip (Answers σ w t) Q (λ r. P r.recorder) rs f c.1 a),
  )

  pub reply-first :
      (p : Proposal V) (r : RecordReply V)
      → Answers σ w t r
      → r.summary.first ≡ some p
      → Somewhere w.history r.summary.step p
  unfolding summary
  reply-first p r (q, h0, n, x, m, d) k =
      let h = call t.at q ∷ h0 in
      let found = first-Entry h p (sym (ap (λ z. z.first) m) ∙ k) in
      (
        r.recorder,
        (
          found.0,
          subst (λ s. Suffix (call s p ∷ found.0) (w.history r.recorder)) (sym (ap (λ z. z.step) m))
              (Suffix-trans found.1 x),
        ),
      )

  pub reply-prior :
      (s : Step) (p : Proposal V) (r : RecordReply V)
      → Answers σ w t r
      → r.summary.prior_aggregate ≡ some p
      → r.summary.step ≡ s + 1
      → Somewhere w.history s p
  unfolding summary
  reply-prior s p r (q, h0, n, x, m, d) k e =
      let h = call t.at q ∷ h0 in
      let found = prior-Entry h p (sym (ap (λ z. z.prior_aggregate) m) ∙ k) in
      let same : found.0 ≡ s = omega (arith, found.1, ap (λ z. z.step) m, e) in
      (
        r.recorder,
        (
          found.2.0,
          subst (λ s. Suffix (call s p ∷ found.2.0) (w.history r.recorder)) same
              (Suffix-trans found.2.1 x),
        ),
      )
