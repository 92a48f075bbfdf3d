-- ===== src/Types/Selection.antt =====
-- src/types.rs: `best_proposal` and `max_proposal_by_key`.
use rust_quepaxa.Prelude.{
  ◌≡◌, refl, ◌∙◌, ◌⊎◌, true, List, [], ◌∷◌, Option, none, some, arith, if◌then◌else◌, inl, inr, All,
  In, here, there,
}
use rust_quepaxa.Types.{Proposal}
use rust_quepaxa.Types.Keys.{key_leb, key_leb_refl, key_leb_trans, key_leb_total}

module _ {V : Type 0} where
  unfoldable pub best_proposal : Option (Proposal V) → Proposal V → Proposal V
  best_proposal none right = right
  best_proposal (some current) right = if key_leb right.key current.key then current else right

  -- The `fold` of `max_proposal_by_key`, from any accumulator.
  unfoldable pub fold_best : Option (Proposal V) → List (Proposal V) → Option (Proposal V)
  fold_best best [] = best
  fold_best best (p ∷ ps) = fold_best (some (best_proposal best p)) ps

  unfoldable pub max_proposal_by_key : List (Proposal V) → Option (Proposal V)
  unfolding fold_best best_proposal
  max_proposal_by_key ps = fold_best none ps

  -- No listed key is above that of `p`.
  abbrev pub Dominates : Proposal V → List (Proposal V) → Type 0
  Dominates p ps = All (λ q. key_leb q.key p.key ≡ true) ps

  -- What a selection from `ps` promises: nothing only from nothing, else a listed maximum.
  abbrev pub Selects : List (Proposal V) → Option (Proposal V) → Type 0
  Selects ps none = ps ≡ []
  Selects ps (some p) = In p ps × Dominates p ps

  pub best_proposal_bounds :
      (p q : Proposal V)
      → (key_leb p.key (best_proposal (some p) q).key ≡ true)
        × (key_leb q.key (best_proposal (some p) q).key ≡ true)
  unfolding best_proposal
  best_proposal_bounds p q =
      ground (arith, key_leb_refl p.key, key_leb_refl q.key, key_leb_total q.key p.key)

  best_proposal-cases :
      (p q : Proposal V) → (best_proposal (some p) q ≡ p) ⊎ (best_proposal (some p) q ≡ q)
  unfolding best_proposal
  best_proposal-cases p q = ground arith

  In-best_proposal :
      (m p q : Proposal V) (ps : List (Proposal V))
      → In m (best_proposal (some p) q ∷ ps)
      → In m (p ∷ q ∷ ps)
  In-best_proposal m p q ps (here e) = elim (best_proposal-cases p q) [
    | inl f ↦ here (e ∙ f)
    | inr f ↦ there (here (e ∙ f))
  ]
  In-best_proposal m p q ps (there i) = there (there i)

  Dominates-best_proposal :
      (m p q : Proposal V) (ps : List (Proposal V))
      → Dominates m (best_proposal (some p) q ∷ ps)
      → Dominates m (p ∷ q ∷ ps)
  Dominates-best_proposal m p q ps d =
      let b = best_proposal_bounds p q in
      let k = (best_proposal (some p) q).key in
      (key_leb_trans p.key k m.key b.0 d.0, (key_leb_trans q.key k m.key b.1 d.0, d.1))

  -- The fold from an accumulator selects from the accumulator and the list.
  fold_best-Selects :
      (b : Proposal V) (ps : List (Proposal V)) → Selects (b ∷ ps) (fold_best (some b) ps)
  unfolding fold_best
  fold_best-Selects b [] = (here refl, (key_leb_refl b.key, tt))
  fold_best-Selects b (p ∷ ps) =
      widen (fold_best (some (best_proposal (some b) p)) ps)
        (fold_best-Selects (best_proposal (some b) p) ps)
    where
      widen :
          (o : Option (Proposal V))
          → Selects (best_proposal (some b) p ∷ ps) o
          → Selects (b ∷ p ∷ ps) o
      widen none h = absurd (cc)
      widen (some m) h = (In-best_proposal m b p ps h.0, Dominates-best_proposal m b p ps h.1)

  -- `max_proposal_by_key` returns one of the listed proposals, with no key above its key, and
  -- none only of an empty list.
  pub max_proposal_by_key-Selects : (ps : List (Proposal V)) → Selects ps (max_proposal_by_key ps)
  unfolding max_proposal_by_key
  max_proposal_by_key-Selects [] = refl
  max_proposal_by_key-Selects (p ∷ ps) = fold_best-Selects p ps
