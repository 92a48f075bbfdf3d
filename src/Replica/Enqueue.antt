-- ===== src/Replica/Enqueue.antt =====
-- src/replica.rs: `enqueue`.
use rust_quepaxa.Prelude.{
  ◌+◌, ◌≤◌, ◌≡◌, refl, sym, ap, subst, true, false, ◌||◌, List, [], ◌∷◌, ◌++◌, Eq, beq_refl, arith,
  inl, inr, Bool-cases, All, ltb, length, length-append, contains, has_duplicates,
}
use rust_quepaxa.Error.{Result, ok, err, resource_limit, pending_value_ids, tracked_value_ids}
use rust_quepaxa.Replica.{ReplicaCore, enqueue}
use rust_quepaxa.Replica.Values.{fresh_values}
use rust_quepaxa.Replica.Tracking.{AllTracked}

module _ {V : Type 0} ⦃e : Eq V⦄ where
  contains-append :
      (xs ys : List V) (v : V) → contains (xs ++ ys) v ≡ (contains xs v || contains ys v)
  contains-append [] ys v = refl
  contains-append (x ∷ xs) ys v = ground (arith, contains-append xs ys v)

  -- Neither in one list nor in the other.
  abbrev Outside : List V → List V → V → Type 0
  Outside seen unique v = (contains seen v ≡ false) × (contains unique v ≡ false)

  narrow :
      (seen unique : List V) (x : V) (vs : List V)
      → All (Outside seen (x ∷ unique)) vs
      → All (Outside seen unique) vs
  narrow seen unique x [] a = tt
  narrow seen unique x (v ∷ vs) a = ((a.0.0, ground (arith, a.0.1)), narrow seen unique x vs a.1)

  fresh_values-Outside :
      (seen unique xs : List V) → All (Outside seen unique) (fresh_values seen unique xs)
  unfolding fresh_values
  fresh_values-Outside seen unique [] = tt
  fresh_values-Outside seen unique (x ∷ xs) =
      elim (Bool-cases (contains seen x || contains unique x)) [
        | inl k ↦
            let q : fresh_values seen unique (x ∷ xs) ≡ fresh_values seen unique xs =
              ground (arith, k) in
            subst (All (Outside seen unique)) (sym q) (fresh_values-Outside seen unique xs)
        | inr k ↦
            let q : fresh_values seen unique (x ∷ xs) ≡ x ∷ fresh_values seen (x ∷ unique) xs =
              ground (arith, k) in
            subst (All (Outside seen unique)) (sym q) (
              (ground (arith, k), ground (arith, k)),
              narrow seen unique x (fresh_values seen (x ∷ unique) xs)
                  (fresh_values-Outside seen (x ∷ unique) xs),
            )
      ]

  Outside-absent :
      (seen unique : List V) (x : V) (vs : List V)
      → All (Outside seen (x ∷ unique)) vs
      → contains vs x ≡ false
  Outside-absent seen unique x [] a = refl
  Outside-absent seen unique x (v ∷ vs) a =
      ground (arith, a.0.1, Outside-absent seen unique x vs a.1, e.beq_iff x v, e.beq_iff v x)

  fresh_values_distinct :
      (seen unique xs : List V) → has_duplicates (fresh_values seen unique xs) ≡ false
  unfolding fresh_values
  fresh_values_distinct seen unique [] = refl
  fresh_values_distinct seen unique (x ∷ xs) = ground (
    arith,
    fresh_values_distinct seen unique xs,
    fresh_values_distinct seen (x ∷ unique) xs,
    Outside-absent seen unique x (fresh_values seen (x ∷ unique) xs)
        (fresh_values-Outside seen (x ∷ unique) xs),
  )

  -- A value that is not fresh was tracked before.
  fresh_values_covers :
      (seen unique xs : List V) (v : V)
      → contains xs v ≡ true
      → (contains seen v || contains unique v || contains (fresh_values seen unique xs) v) ≡ true
  unfolding fresh_values
  fresh_values_covers seen unique [] v h = absurd cc
  fresh_values_covers seen unique (x ∷ xs) v h = elim (Bool-cases (e.beq v x)) [
    | inl m ↦
        let same = (e.beq_iff v x).0 m in
        ground (arith, m, ap (contains seen) same, ap (contains unique) same)
    | inr m ↦ ground (
      arith,
      m,
      h,
      fresh_values_covers seen unique xs v,
      fresh_values_covers seen (x ∷ unique) xs v,
    )
  ]

  abbrev Absent : List V → List V → Type 0
  Absent xs ys = All (λ v. contains xs v ≡ false) ys

  Absent-tail : (x : V) (xs ys : List V) → Absent (x ∷ xs) ys → Absent xs ys
  Absent-tail x xs [] a = tt
  Absent-tail x xs (y ∷ ys) a = (ground (arith, a.0), Absent-tail x xs ys a.1)

  Absent-head : (x : V) (xs ys : List V) → Absent (x ∷ xs) ys → contains ys x ≡ false
  Absent-head x xs [] a = refl
  Absent-head x xs (y ∷ ys) a =
      ground (arith, a.0, Absent-head x xs ys a.1, e.beq_iff x y, e.beq_iff y x)

  has_duplicates-append :
      (xs ys : List V)
      → has_duplicates xs ≡ false
      → has_duplicates ys ≡ false
      → Absent xs ys
      → has_duplicates (xs ++ ys) ≡ false
  has_duplicates-append [] ys a b o = b
  has_duplicates-append (x ∷ xs) ys a b o = ground (
    arith,
    a,
    contains-append xs ys x,
    Absent-head x xs ys o,
    has_duplicates-append xs ys (ground (arith, a)) b (Absent-tail x xs ys o),
  )

  -- What is not tracked is not in the queue.
  untracked_absent :
      (seen xs : List V) (v : V)
      → AllTracked seen xs
      → contains seen v ≡ false
      → contains xs v ≡ false
  untracked_absent seen [] v t u = refl
  untracked_absent seen (x ∷ xs) v t u = elim (Bool-cases (e.beq v x)) [
    | inl m ↦ absurd (ground (arith, u, t.0, ap (contains seen) ((e.beq_iff v x).0 m)))
    | inr m ↦ ground (arith, m, untracked_absent seen xs v t.1 u)
  ]

  Outside-Absent :
      (seen xs vs : List V) → AllTracked seen xs → All (Outside seen []) vs → Absent xs vs
  Outside-Absent seen xs [] t o = tt
  Outside-Absent seen xs (v ∷ vs) t o =
      (untracked_absent seen xs v t o.0.0, Outside-Absent seen xs vs t o.1)

  AllTracked-append :
      (seen xs ys : List V) → AllTracked seen xs → AllTracked seen ys → AllTracked seen (xs ++ ys)
  AllTracked-append seen [] ys a b = b
  AllTracked-append seen (x ∷ xs) ys a b = (a.0, AllTracked-append seen xs ys a.1 b)

  AllTracked-widen : (more seen xs : List V) → AllTracked seen xs → AllTracked (more ++ seen) xs
  AllTracked-widen more seen [] a = tt
  AllTracked-widen more seen (x ∷ xs) a =
      (ground (arith, a.0, contains-append more seen x), AllTracked-widen more seen xs a.1)

  AllTracked-self : (xs more : List V) → AllTracked (xs ++ more) xs
  AllTracked-self [] more = tt
  AllTracked-self (x ∷ xs) more = (
    ground (arith, beq_refl x),
    AllTracked-widen (x ∷ []) (xs ++ more) xs (AllTracked-self xs more),
  )

  AllTracked-intro :
      (seen xs : List V)
      → ((v : V) → contains xs v ≡ true → contains seen v ≡ true)
      → AllTracked seen xs
  AllTracked-intro seen [] f = tt
  AllTracked-intro seen (x ∷ xs) f =
      (f x (ground (arith, beq_refl x)), AllTracked-intro seen xs (λ v h. f v (ground (arith, h))))

  -- The queue holds tracked values only, each of them once.
  abbrev pub IsTracked : ReplicaCore V → Type 0
  IsTracked self =
      AllTracked self.seen_value_ids self.pending × (has_duplicates self.pending ≡ false)

  -- What `enqueue` does, by its result.
  abbrev pub Enqueues : ReplicaCore V → List V → ReplicaCore V → Result (Unit {0}) → Type 0
  Enqueues self ids self' (ok _) =
      AllTracked self'.seen_value_ids ids
      × (self'.pending ≡ self.pending ++ fresh_values self.seen_value_ids [] ids)
      × IsTracked self'
      × (length self'.pending ≤ self'.config.max_pending_values)
      × (length self'.seen_value_ids ≤ self'.config.max_tracked_value_ids)
  Enqueues self ids self' (err error) = self' ≡ self

  -- Over a queue of tracked values, each of them once: a submission that `enqueue` accepts is
  -- tracked as a whole, its new values have been appended to the queue, which still holds every
  -- value once, and both limits are kept. One that is refused changes nothing.
  pub enqueue-Enqueues :
      (self : ReplicaCore V) (ids : List V)
      → IsTracked self
      → Enqueues self ids (enqueue self ids).0 (enqueue self ids).1
  unfolding enqueue
  enqueue-Enqueues self ids t =
      let fresh = fresh_values self.seen_value_ids [] ids in
      elim (Bool-cases (ltb self.config.max_pending_values (length self.pending + length fresh))) [
        | inl a ↦
            let q : enqueue self ids
                ≡ (self, err (resource_limit pending_value_ids self.config.max_pending_values)) =
              ground (arith, a) in
            subst (λ x. Enqueues self ids x.0 x.1) (sym q) refl
        | inr a ↦
            elim (Bool-cases
              (ltb self.config.max_tracked_value_ids (length self.seen_value_ids + length fresh))) [
                | inl b ↦
                    let q : enqueue self ids ≡ (
                      self,
                      err (resource_limit tracked_value_ids self.config.max_tracked_value_ids),
                    ) =
                      ground (arith, a, b) in
                    subst (λ x. Enqueues self ids x.0 x.1) (sym q) refl
                | inr b ↦
                    let q : enqueue self ids ≡ (
                      record self {
                        seen_value_ids = fresh ++ self.seen_value_ids;
                        pending = self.pending ++ fresh;
                      },
                      ok tt,
                    ) =
                      ground (arith, a, b) in
                    subst (λ x. Enqueues self ids x.0 x.1) (sym q)
                      (
                        AllTracked-intro (fresh ++ self.seen_value_ids) ids (λ v h. ground (
                          arith,
                          fresh_values_covers self.seen_value_ids [] ids v h,
                          contains-append fresh self.seen_value_ids v,
                        )),
                        refl,
                        (
                          AllTracked-append (fresh ++ self.seen_value_ids) self.pending fresh
                              (AllTracked-widen fresh self.seen_value_ids self.pending t.0)
                              (AllTracked-self fresh self.seen_value_ids),
                          has_duplicates-append self.pending fresh t.1
                              (fresh_values_distinct self.seen_value_ids [] ids)
                              (Outside-Absent self.seen_value_ids self.pending fresh t.0
                                (fresh_values-Outside self.seen_value_ids [] ids)),
                        ),
                        ground (arith, a, length-append self.pending fresh),
                        ground (arith, b, length-append fresh self.seen_value_ids),
                      )
              ]
      ]
