-- ===== src/Replica/Tracking.antt =====
-- src/replica.rs: the tracked value IDs, which suppress repeated submissions.
use rust_quepaxa.Prelude.{
  take, drop, ℕ, zero, suc, ◌≡◌, refl, ap, ◌∙◌, subst, true, ◌||◌, List, [], ◌∷◌, Eq, arith, inl,
  inr, Bool-cases, All, leb, contains, is_empty,
}
use mathlib.Core.List.{append-nil}
use rust_quepaxa.Error.{ok, err, QuePaxaError, Result-cases}
use rust_quepaxa.Types.{SlotIndex}
use rust_quepaxa.Replica.{
  ReplicaCore, enqueue, next_proposal, next_open_slot, note_proposed, inflight_count,
}
use rust_quepaxa.Replica.Values.{fresh_values}
use rust_quepaxa.Replica.Queue.{batch_count, Noted, note_proposed-Noted}

module _ {V : Type 0} ⦃e : Eq V⦄ where
  abbrev pub AllTracked : List V → List V → Type 0
  AllTracked seen xs = All (λ v. contains seen v ≡ true) xs

  -- Values that are tracked are not fresh.
  fresh_values_tracked :
      (seen unique : List V) (n : ℕ) (xs : List V)
      → AllTracked seen xs
      → fresh_values seen unique (take n xs) ≡ []
  unfolding fresh_values
  fresh_values_tracked seen unique zero xs a = refl
  fresh_values_tracked seen unique (suc n) [] a = refl
  fresh_values_tracked seen unique (suc n) (x ∷ xs) a =
      ground (arith, a.0, fresh_values_tracked seen unique n xs a.1)

  enqueue_tracked :
      (self : ReplicaCore V) (ids : List V)
      → fresh_values self.seen_value_ids [] ids ≡ []
      → (enqueue self ids).0.pending ≡ self.pending
  unfolding enqueue
  enqueue_tracked self ids h = ground (arith, h, append-nil self.pending)

  -- Where `next_proposal` fails after it has found a slot, over a queue of tracked values, the
  -- batch is gone from the queue and is not in the log, and submitting its values again does
  -- not bring them back.
  pub next_proposal_loses_batch :
      (self : ReplicaCore V) (slot : SlotIndex) (error : QuePaxaError)
      → AllTracked self.seen_value_ids self.pending
      → next_open_slot self ≡ ok slot
      → (next_proposal self).1 ≡ err error
      → ((next_proposal self).0.pending ≡ drop (batch_count self) self.pending)
        × ((next_proposal self).0.log ≡ self.log)
        × ((enqueue (next_proposal self).0 (take (batch_count self) self.pending)).0.pending
            ≡ drop (batch_count self) self.pending)
  unfolding next_proposal
  next_proposal_loses_batch self slot error t b h =
      elim (Bool-cases
        (leb self.config.pipeline_len (inflight_count self) || is_empty self.pending)) [
          | inl a ↦ absurd (ground (arith, a, h))
          | inr a ↦
              let batch = take (batch_count self) self.pending in
              let drained = record self { pending = drop (batch_count self) self.pending } in
              let noted = note_proposed-Noted drained slot batch in
              elim (Result-cases (note_proposed drained slot batch).1) [
                | inl (done, c) ↦ absurd (ground (arith, a, b, c, h))
                | inr (why, c) ↦
                    let q : next_proposal self ≡ ((note_proposed drained slot batch).0, err why) =
                      ground (arith, a, b, c) in
                    let stays : (next_proposal self).0 ≡ drained =
                      ap (λ x. x.0) q
                      ∙ subst (Noted drained slot batch (note_proposed drained slot batch).0) c
                          noted in
                    let again = enqueue_tracked drained batch (
                      fresh_values_tracked self.seen_value_ids [] (batch_count self) self.pending
                        t) in
                    (
                      ap (λ x. x.pending) stays,
                      ap (λ x. x.log) stays,
                      ap (λ x. (enqueue x batch).0.pending) stays ∙ again,
                    )
              ]
        ]
