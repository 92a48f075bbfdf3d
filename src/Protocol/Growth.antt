-- ===== src/Protocol/Growth.antt =====
-- src/proposer.rs: evidence for tickets and decisions is never lost.
use rust_quepaxa.Prelude.{◌+◌, inl, inr, List, In}
use rust_quepaxa.Types.{Proposal, Decision}
use rust_quepaxa.Types.Clock.{Step, round_one_phase_zero}
use rust_quepaxa.Types.Keys.{ReplicaId}
use rust_quepaxa.Protocol.{Setting, Ticket}
use rust_quepaxa.Protocol.History.{Suffix, Suffix-trans}
use rust_quepaxa.Protocol.Evidence.{
  Histories, QuorumOf-imp, Took, TookBest, FirstBelow, FirstIs, PriorBelow, NoPrior, Somewhere,
  HasTicket, Backed, chosen_first, spread, kept, chosen_prior, unchosen, IsValid, Decreed, settles,
  takes_first,
}

module _ {V : Type 0} where
  -- Evidence is never lost: histories and tickets only grow.
  abbrev pub Grows : Histories V → Histories V → Type 0
  Grows H H' = (i : ReplicaId) → Suffix (H i) (H' i)

  abbrev pub Gains : List (Ticket V) → List (Ticket V) → Type 0
  Gains T T' = (t : Ticket V) → In t T → In t T'

  module _ (σ : Setting V) (H H' : Histories V) (T T' : List (Ticket V)) (g : Grows H H')
      (n : Gains T T') where
    HasTicket-grows : (s : Step) (p : Proposal V) → HasTicket T s p → HasTicket T' s p
    HasTicket-grows s p h = (h.0, n _ h.1)

    Somewhere-grows : (s : Step) (p : Proposal V) → Somewhere H s p → Somewhere H' s p
    Somewhere-grows s p h = (h.0, (h.1.0, Suffix-trans h.1.1 (g h.0)))

    pub Backed-grows : (s : Step) (p : Proposal V) → Backed σ H T s p → Backed σ H' T' s p
    Backed-grows s p (chosen_first s0 e f q w) =
        chosen_first s0 e f
          (QuorumOf-imp σ (FirstBelow H s0 p.key) (FirstBelow H' s0 p.key)
            (λ i x. (x.0, Suffix-trans x.1 (g i), x.2, x.3)) q)
          (Somewhere-grows s0 p w)
    Backed-grows s p (spread s0 e f q) =
        spread s0 e f (
          QuorumOf-imp σ (Took H s0 p) (Took H' s0 p) (λ i x. (x.0, Suffix-trans x.1 (g i), x.2)) q)
    Backed-grows s p (kept s0 e f w) = kept s0 e f (HasTicket-grows s0 p w)
    Backed-grows s p (chosen_prior s0 p0 e f v q w) =
        chosen_prior s0 p0 e f v
          (QuorumOf-imp σ (PriorBelow H (s0 + 1) p0.key) (PriorBelow H' (s0 + 1) p0.key)
            (λ i x. (x.0, Suffix-trans x.1 (g i), x.2, x.3)) q)
          (Somewhere-grows s0 p0 w)
    Backed-grows s p (unchosen s0 p0 e f v q w) =
        unchosen s0 p0 e f v
          (QuorumOf-imp σ (NoPrior H (s0 + 1)) (NoPrior H' (s0 + 1))
            (λ i x. (x.0, Suffix-trans x.1 (g i), x.2, x.3)) q)
          (HasTicket-grows (s0 + 1) p0 w)

    pub IsValid-grows : (t : Ticket V) → IsValid σ H T t → IsValid σ H' T' t
    IsValid-grows t (o, b, inl k) = (o, b, inl k)
    IsValid-grows t (o, b, inr (l, k)) = (o, b, inr (l, Backed-grows t.at t.proposal k))

    pub Decreed-grows : (d : Decision V) → Decreed σ H T d → Decreed σ H' T' d
    Decreed-grows d (settles s p f l v h q) = settles s p f l v (HasTicket-grows s p h) (
        QuorumOf-imp σ (TookBest H s p) (TookBest H' s p)
          (λ i x. (x.0, Suffix-trans x.1 (g i), x.2, x.3)) q)
    Decreed-grows d (takes_first w v o m l q) = takes_first w v o m l (
        QuorumOf-imp σ (FirstIs H round_one_phase_zero w.key)
          (FirstIs H' round_one_phase_zero w.key) (λ i x. (x.0, Suffix-trans x.1 (g i), x.2, x.3))
          q)
