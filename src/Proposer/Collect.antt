-- ===== src/Proposer/Collect.antt =====
-- src/proposer.rs: `collect_quorum`, over the replies in the order in which the channel gives them.
use rust_quepaxa.Prelude.{
  ℕ, ◌+◌, ◌-◌, ◌≡◌, refl, Bool, true, false, ◌||◌, List, [], ◌∷◌, ◌++◌, Option, none, some, arith,
  ◌!=◌, nat_eq, eqb, ltb, if◌then◌else◌, length, contains, has_duplicates, All, ap, sym, subst, inl,
  inr, Bool-cases,
}
use rust_quepaxa.Error.{
  QuePaxaError, Result, ok, err, quorum_not_reached, transport_error, workers_exited,
  invalid_recorder_reply, configuration_mismatch, duplicate_recorder_reply, conflicting_decision,
  slot_pruned, schedule_mismatch,
}
use rust_quepaxa.Types.Keys.{ReplicaId}
use rust_quepaxa.Cluster.{ClusterIdentity, cluster_eq}
use rust_quepaxa.Messages.{RecordReply}
use rust_quepaxa.Proposer.Quorum.{quorum_reached}

-- What the channel gives next: a worker's result with the recorder that was asked, or the deadline.
pub data Arrival (V : Type 0) : Type 0 where
  timed_out : Arrival V
  arrived : ReplicaId → Result (RecordReply V) → Arrival V

-- The workers that were launched, and what the channel gives until every worker has gone.
pub record Arrivals (V : Type 0) : Type 0 where
  pub launched : ℕ
  pub events : List (Arrival V)

-- The errors after which the proposer must not go on.
unfoldable pub is_fatal : QuePaxaError → Bool
is_fatal (conflicting_decision slot) = true
is_fatal (slot_pruned slot) = true
is_fatal (schedule_mismatch slot) = true
is_fatal configuration_mismatch = true
is_fatal _ = false

contains-snoc :
    (xs : List ReplicaId) (x y : ReplicaId) → contains (xs ++ x ∷ []) y ≡ (contains xs y || eqb y x)
contains-snoc [] x y = ground (arith)
contains-snoc (z ∷ xs) x y = ground (arith, contains-snoc xs x y)

has_duplicates-snoc :
    (xs : List ReplicaId) (x : ReplicaId)
    → has_duplicates xs ≡ false
    → contains xs x ≡ false
    → has_duplicates (xs ++ x ∷ []) ≡ false
has_duplicates-snoc [] x d c = refl
has_duplicates-snoc (y ∷ ys) x d c =
    ground (arith, d, c, contains-snoc ys x y, has_duplicates-snoc ys x)

module _ {V : Type 0} where
  abbrev pub recorders_of : List (RecordReply V) → List ReplicaId
  recorders_of [] = []
  recorders_of (r ∷ rs) = r.recorder ∷ recorders_of rs

  -- `expected_cluster.is_some_and(|cluster| reply.cluster != *cluster)`
  abbrev pub is_foreign : Option ClusterIdentity → RecordReply V → Bool
  is_foreign none reply = false
  is_foreign (some cluster) reply = reply.cluster != cluster

  -- The checks of one reply; `seen` holds the recorders of the replies so far.
  unfoldable pub check_reply :
      Option ClusterIdentity → ReplicaId → List (RecordReply V) → RecordReply V → Result (Unit {0})
  check_reply cluster expected replies reply =
      if reply.recorder != expected
      then err (invalid_recorder_reply expected reply.recorder)
      else if is_foreign cluster reply
      then err configuration_mismatch
      else if contains (recorders_of replies) reply.recorder
      then err (duplicate_recorder_reply reply.recorder)
      else ok tt

  -- The loop of `collect_quorum`: `pending` workers have not reported.
  unfoldable pub collect_replies :
      ℕ
      → Option ClusterIdentity
      → ℕ
      → List (RecordReply V)
      → List (Arrival V)
      → Result (List (RecordReply V))
  collect_replies quorum cluster pending replies [] =
      if quorum_reached (recorders_of replies) quorum cluster
      then ok replies
      else err (transport_error workers_exited)
  collect_replies quorum cluster pending replies (timed_out ∷ events) =
      if quorum_reached (recorders_of replies) quorum cluster
      then ok replies
      else err (quorum_not_reached quorum (length replies))
  collect_replies quorum cluster pending replies (arrived expected (ok reply) ∷ events) =
      let rest = collect_replies quorum cluster (pending - 1) (replies ++ reply ∷ []) events in
      if quorum_reached (recorders_of replies) quorum cluster
      then ok replies
      else elim (check_reply cluster expected replies reply) [ err error ↦ err error | ok _ ↦ rest ]
  collect_replies quorum cluster pending replies (arrived expected (err error) ∷ events) =
      let rest = collect_replies quorum cluster (pending - 1) replies events in
      if quorum_reached (recorders_of replies) quorum cluster
      then ok replies
      else if is_fatal error
      then err error
      else if ltb (length replies + (pending - 1)) quorum
      then err (quorum_not_reached quorum (length replies))
      else rest

  unfoldable pub collect_quorum :
      ℕ → Option ClusterIdentity → Arrivals V → Result (List (RecordReply V))
  collect_quorum quorum cluster arrivals =
      if ltb arrivals.launched quorum
      then err (quorum_not_reached quorum arrivals.launched)
      else collect_replies quorum cluster arrivals.launched [] arrivals.events

  -- The replies of a reached quorum: each came from the recorder that was asked, belongs to the
  -- expected membership, and no two come from one recorder.
  abbrev pub IsQuorum : ℕ → Option ClusterIdentity → List (RecordReply V) → Type 0
  IsQuorum quorum cluster replies =
      (quorum_reached (recorders_of replies) quorum cluster ≡ true)
      × (has_duplicates (recorders_of replies) ≡ false)
      × All (λ r. is_foreign cluster r ≡ false) replies

  recorders_of-append :
      (rs ss : List (RecordReply V)) → recorders_of (rs ++ ss) ≡ recorders_of rs ++ recorders_of ss
  recorders_of-append [] ss = refl
  recorders_of-append (r ∷ rs) ss = ap (λ ids. r.recorder ∷ ids) (recorders_of-append rs ss)

  All-snoc :
      (cluster : Option ClusterIdentity) (rs : List (RecordReply V)) (r : RecordReply V)
      → All (λ q. is_foreign cluster q ≡ false) rs
      → is_foreign cluster r ≡ false
      → All (λ q. is_foreign cluster q ≡ false) (rs ++ r ∷ [])
  All-snoc cluster [] r a h = (h, tt)
  All-snoc cluster (q ∷ rs) r a h = (a.0, All-snoc cluster rs r a.1 h)

  collect_replies-IsQuorum :
      (quorum : ℕ) (cluster : Option ClusterIdentity) (pending : ℕ) (replies : List (RecordReply V))
      (events : List (Arrival V)) (collected : List (RecordReply V))
      → has_duplicates (recorders_of replies) ≡ false
      → All (λ r. is_foreign cluster r ≡ false) replies
      → collect_replies quorum cluster pending replies events ≡ ok collected
      → IsQuorum quorum cluster collected
  unfolding collect_replies check_reply
  collect_replies-IsQuorum quorum cluster pending replies [] collected d a h =
      elim (Bool-cases (quorum_reached (recorders_of replies) quorum cluster)) [
        | inl e ↦
            let p : collected ≡ replies = ground (arith, e, h) in
            subst (IsQuorum quorum cluster) (sym p) (e, d, a)
        | inr e ↦ absurd (ground (arith, e, h))
      ]
  collect_replies-IsQuorum quorum cluster pending replies (timed_out ∷ events) collected d a h =
      elim (Bool-cases (quorum_reached (recorders_of replies) quorum cluster)) [
        | inl e ↦
            let p : collected ≡ replies = ground (arith, e, h) in
            subst (IsQuorum quorum cluster) (sym p) (e, d, a)
        | inr e ↦ absurd (ground (arith, e, h))
      ]
  collect_replies-IsQuorum quorum cluster pending replies (arrived expected (ok reply) ∷ events)
        collected d a h =
      elim (Bool-cases (quorum_reached (recorders_of replies) quorum cluster)) [
        | inl e ↦
            let p : collected ≡ replies = ground (arith, e, h) in
            subst (IsQuorum quorum cluster) (sym p) (e, d, a)
        | inr e ↦
            let facts : (is_foreign cluster reply ≡ false)
                × (contains (recorders_of replies) reply.recorder ≡ false)
                × (collect_replies quorum cluster (pending - 1) (replies ++ reply ∷ []) events
                    ≡ ok collected) =
              ground (arith, e, h) in
            collect_replies-IsQuorum quorum cluster (pending - 1) (replies ++ reply ∷ []) events
              collected
              (subst (λ ids. has_duplicates ids ≡ false)
                (sym (recorders_of-append replies (reply ∷ [])))
                (has_duplicates-snoc (recorders_of replies) reply.recorder d facts.1))
              (All-snoc cluster replies reply a facts.0) facts.2
      ]
  collect_replies-IsQuorum quorum cluster pending replies (arrived expected (err error) ∷ events)
        collected d a h =
      elim (Bool-cases (quorum_reached (recorders_of replies) quorum cluster)) [
        | inl e ↦
            let p : collected ≡ replies = ground (arith, e, h) in
            subst (IsQuorum quorum cluster) (sym p) (e, d, a)
        | inr e ↦
            collect_replies-IsQuorum quorum cluster (pending - 1) replies events collected d a
              (ground (arith, e, h))
      ]

  -- The replies that `collect_quorum` returns reach the quorum, no two of them come from one
  -- recorder, and all belong to the expected membership.
  pub collect_quorum-IsQuorum :
      (quorum : ℕ) (cluster : Option ClusterIdentity) (arrivals : Arrivals V)
      (collected : List (RecordReply V))
      → collect_quorum quorum cluster arrivals ≡ ok collected
      → IsQuorum quorum cluster collected
  unfolding collect_quorum
  collect_quorum-IsQuorum quorum cluster arrivals collected h =
      collect_replies-IsQuorum quorum cluster arrivals.launched [] arrivals.events collected refl tt
        (ground (arith, h))
