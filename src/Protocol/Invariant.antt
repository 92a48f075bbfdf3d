-- ===== src/Protocol/Invariant.antt =====
-- src/proposer.rs, src/isr.rs: every move keeps the invariant.
use rust_quepaxa.Prelude.{
  ◌<◌, ◌≡◌, refl, sym, ap, subst, ◌⊎◌, inl, inr, true, List, ◌∷◌, some, arith, Eq, All, In, here,
  there, eqb, Bool-cases,
}
use rust_quepaxa.Types.{Proposal, Decision}
use rust_quepaxa.Types.Clock.{Step, u64_mod}
use rust_quepaxa.Types.Keys.{ReplicaId, LaneId}
use rust_quepaxa.Isr.History.{Call}
use rust_quepaxa.Proposer.Continue.{advance-Continues}
use rust_quepaxa.Protocol.{
  Setting, Ticket, World, Requests, Move, join, deliver, proceed, decide, Reach, start, later,
  opening, deliver_to,
}
use rust_quepaxa.Protocol.History.{Suffix, Suffix-split, whole, older, call}
use rust_quepaxa.Protocol.Evidence.{Somewhere, IsValid, Decreed}
use rust_quepaxa.Protocol.Growth.{Grows, IsValid-grows, Decreed-grows}
use rust_quepaxa.Protocol.Provenance.{Inv, Origin}
use rust_quepaxa.Protocol.Proceed.{continue-IsValid}
use rust_quepaxa.Protocol.Decide.{decide-Decreed}

module _ {V : Type 0} (σ : Setting V) where
  no_growth : (H : ReplicaId → List (Call V)) → Grows H H
  no_growth H i = whole

  -- A new ticket.
  more_tickets :
      (w : World V) (t : Ticket V)
      → Inv σ w
      → IsValid σ w.history w.tickets t
      → Inv σ (record w { tickets = t ∷ w.tickets })
  more_tickets w t inv v = record {
    valid = λ u i. grown u (new_or_old u i);
    origin = λ s p n. (let o = inv.origin s p n in (o.0, there o.1, o.2, o.3));
    bounded = inv.bounded;
    decreed = λ d i.
        Decreed-grows σ w.history w.history w.tickets (t ∷ w.tickets) (no_growth w.history)
          (λ u i. there i) d (inv.decreed d i);
  }
    where
      grown :
          (u : Ticket V) → IsValid σ w.history w.tickets u → IsValid σ w.history (t ∷ w.tickets) u
      grown u =
          IsValid-grows σ w.history w.history w.tickets (t ∷ w.tickets) (no_growth w.history)
            (λ u i. there i) u

      new_or_old : (u : Ticket V) → In u (t ∷ w.tickets) → IsValid σ w.history w.tickets u
      new_or_old u (here e) = subst (IsValid σ w.history w.tickets) (sym e) v
      new_or_old u (there i) = inv.valid u i

  opening-IsValid :
      (w : World V) (j : ReplicaId) (lane : LaneId)
      → (σ.leader ≡ some j → lane ≡ σ.leader_lane)
      → IsValid σ w.history w.tickets (opening σ j lane)
  opening-IsValid w j lane l = ((refl, l), omega arith, inl (refl, refl, refl))

  deliver_to-Grows : (w : World V) (i : ReplicaId) (c : Call V) → Grows w.history (deliver_to w i c)
  deliver_to-Grows w i c k = elim (Bool-cases (eqb k i)) [
    | inl e ↦ rw e (older whole)
    | inr e ↦ rw e whole
  ]

  deliver_to_same :
      (w : World V) (i : ReplicaId) (c : Call V) (k : ReplicaId)
      → eqb k i ≡ true
      → deliver_to w i c k ≡ c ∷ w.history k
  deliver_to_same w i c k e = ground (arith, e)

  deliver_to-entry :
      (w : World V) (i : ReplicaId) (c : Call V) (s : Step) (p : Proposal V)
      → Somewhere (deliver_to w i c) s p
      → Somewhere w.history s p ⊎ (call s p ≡ c)
  deliver_to-entry w i c s p (k, (h0, x)) = elim (Bool-cases (eqb k i)) [
    | inr e ↦ inl (k, (h0, subst (Suffix (call s p ∷ h0)) (rw e refl) x))
    | inl e ↦ elim (Suffix-split (subst (Suffix (call s p ∷ h0)) (deliver_to_same w i c k e) x)) [
      | inl z ↦ inr (cc z)
      | inr y ↦ inl (k, (h0, y))
    ]
  ]

  deliver_to-bounded :
      (w : World V) (i : ReplicaId) (c : Call V)
      → c.at < u64_mod
      → ((k : ReplicaId) → All (λ x. x.at < u64_mod) (w.history k))
      → (k : ReplicaId) → All (λ x. x.at < u64_mod) (deliver_to w i c k)
  deliver_to-bounded w i c l b k = elim (Bool-cases (eqb k i)) [
    | inl e ↦ rw e (l, b k)
    | inr e ↦ rw e (b k)
  ]

  -- A request of a ticket is recorded.
  more_history :
      (w : World V) (t : Ticket V) (i : ReplicaId) (q : Proposal V)
      → Inv σ w
      → In t w.tickets
      → Requests σ t q
      → Inv σ (record w { history = deliver_to w i (call t.at q) })
  more_history w t i q inv n r = record {
    valid = λ u k. IsValid-grows σ w.history H w.tickets w.tickets g (λ u k. k) u (inv.valid u k);
    origin = λ s p x. known s p (deliver_to-entry w i (call t.at q) s p x);
    bounded = deliver_to-bounded w i (call t.at q) (inv.valid t n).1 inv.bounded;
    decreed =
        λ d k. Decreed-grows σ w.history H w.tickets w.tickets g (λ u k. k) d (inv.decreed d k);
  }
    where
      H : ReplicaId → List (Call V)
      H = deliver_to w i (call t.at q)

      g : Grows w.history H
      g = deliver_to-Grows w i (call t.at q)

      known :
          (s : Step) (p : Proposal V)
          → Somewhere w.history s p ⊎ (call s p ≡ call t.at q)
          → Origin σ w.tickets s p
      known s p (inl x) = inv.origin s p x
      known s p (inr e) =
          (t, n, ap (λ z. z.at) (sym e), subst (Requests σ t) (ap (λ z. z.proposal) (sym e)) r)

  more_decisions :
      (w : World V) (d : Decision V)
      → Inv σ w
      → Decreed σ w.history w.tickets d
      → Inv σ (record w { decisions = d ∷ w.decisions })
  more_decisions w d inv x = record {
    valid = inv.valid;
    origin = inv.origin;
    bounded = inv.bounded;
    decreed = new_or_old;
  }
    where
      new_or_old : (e : Decision V) → In e (d ∷ w.decisions) → Decreed σ w.history w.tickets e
      new_or_old e (here k) = subst (Decreed σ w.history w.tickets) (sym k) x
      new_or_old e (there i) = inv.decreed e i

module _ {V : Type 0} ⦃e : Eq V⦄ (σ : Setting V) where
  pub Move-Inv : {w u : World V} → Inv σ w → Move σ w u → Inv σ u
  Move-Inv {w} inv (join j lane l) =
      more_tickets σ w (opening σ j lane) inv (opening-IsValid σ w j lane l)
  Move-Inv {w} inv (deliver t i q n r) = more_history σ w t i q inv n r
  Move-Inv {w} inv (proceed t replies s p n c h) =
      more_tickets σ w (record { sender = t.sender; at = s; proposal = p }) inv
        (continue-IsValid σ w inv t replies n c s p
          (advance-Continues σ.slot σ.leader t.at s t.proposal p replies h))
  Move-Inv {w} inv (decide t replies d n c h) =
      more_decisions σ w d inv
        (elim (decide-Decreed σ w inv t replies n c d h) [ inl x ↦ x | inr i ↦ inv.decreed d i ])

  pub Reach-Inv : {w : World V} → Reach σ w → Inv σ w
  Reach-Inv start = record {
    valid = λ t i. elim i [ ];
    origin = λ s p x. elim x.1.1 [ ];
    bounded = λ i. tt;
    decreed = λ d i. elim i [ ];
  }
  Reach-Inv (later r m) = Move-Inv (Reach-Inv r) m
