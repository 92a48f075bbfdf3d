-- ===== src/Proposer/Random.antt =====
-- src/proposer.rs: the trait `PrioritySource`, and its two implementations.
use rust_quepaxa.Prelude.{
  ℕ, ◌+◌, ◌-◌, ◌*◌, ◌/◌, ◌%◌, ◌^◌, ◌≤◌, ◌<◌, List, [], ◌∷◌, arith, leb, ltb, max, if◌then◌else◌,
  Bool-cases, leb→lt, inl, inr,
}
use Prim.Native.Nat.{bit_xor}
use rust_quepaxa.Error.{
  Result, ok, err, invalid_proposal, transport_error, priority_range_too_small,
  randomness_unavailable,
}
use rust_quepaxa.Types.Clock.{u64_mod, u64_max}
use rust_quepaxa.Types.Keys.{Priority, ReplicaId, LaneId}

pub record PrioritySource (R : Type 0) : Type 0 where
  pub next_below : R → Priority → R × Result Priority

-- What both implementations promise: a priority from 1 up to the bound, without it.
abbrev pub InRange : Priority → Result Priority → Type 0
InRange bound (ok priority) = (1 ≤ priority) × (priority < bound)
InRange bound (err error) = Unit

-- `x << k`, `x >> k` and `wrapping_mul` on `u64`
abbrev shl : ℕ → ℕ → ℕ
shl x k = (x * 2 ^ k) % u64_mod

abbrev shr : ℕ → ℕ → ℕ
shr x k = x / 2 ^ k

abbrev wrapping_mul : ℕ → ℕ → ℕ
wrapping_mul a b = (a * b) % u64_mod

pub record XorShift64 : Type 0 where
  pub state : ℕ

unfoldable pub mix_seed : ℕ → ℕ
mix_seed value =
    let a = bit_xor value (shr value 30) in
    let b = wrapping_mul a 0xbf58476d1ce4e5b9 in
    let c = bit_xor b (shr b 27) in
    let d = wrapping_mul c 0x94d049bb133111eb in bit_xor d (shr d 31)

-- `XorShift64::new`
unfoldable pub new_xorshift : ℕ → XorShift64
new_xorshift seed = record { state = max seed 1 }

unfoldable pub new_for_stream : ℕ → ReplicaId → LaneId → XorShift64
unfolding mix_seed new_xorshift
new_for_stream seed replica_id lane_id = new_xorshift (
    mix_seed (
      bit_xor (bit_xor seed (wrapping_mul replica_id 0x9e3779b97f4a7c15))
        (wrapping_mul lane_id 0xbf58476d1ce4e5b9)))

-- The three shifts of `next_below`.
unfoldable pub xorshift : ℕ → ℕ
xorshift x = let a = bit_xor x (shl x 13) in let b = bit_xor a (shr a 7) in bit_xor b (shl b 17)

unfoldable pub xorshift_next_below : XorShift64 → Priority → XorShift64 × Result Priority
xorshift_next_below r upper =
    if leb upper 1
    then (r, err (invalid_proposal priority_range_too_small))
    else let x = xorshift r.state in (record { state = x }, ok (x % (upper - 1) + 1))

-- The words that `/dev/urandom` will give, each of 64 bits; it fails when they end.
pub record OsRandom : Type 0 where
  pub words : List ℕ

-- The rejection loop of `next_below`, over the words left.
unfoldable pub draw_below : ℕ → ℕ → List ℕ → OsRandom × Result Priority
draw_below range cutoff [] = (record { words = [] }, err (transport_error randomness_unavailable))
draw_below range cutoff (value ∷ words) =
    let rest = draw_below range cutoff words in
    if ltb value cutoff then (record { words = words }, ok (value % range + 1)) else rest

unfoldable pub os_next_below : OsRandom → Priority → OsRandom × Result Priority
unfolding draw_below
os_next_below r upper =
    if leb upper 1
    then (r, err (invalid_proposal priority_range_too_small))
    else let range = upper - 1 in draw_below range (u64_max - u64_max % range) r.words

instance abbrev pub xorshift_source : PrioritySource XorShift64
xorshift_source = record { next_below = xorshift_next_below }

instance abbrev pub os_source : PrioritySource OsRandom
os_source = record { next_below = os_next_below }

-- Every priority that the test generator draws is in range.
pub xorshift_next_below-InRange :
    (r : XorShift64) (upper : Priority) → InRange upper (xorshift_next_below r upper).1
unfolding xorshift_next_below
xorshift_next_below-InRange r upper = ground arith

draw_below-InRange :
    (upper cutoff : ℕ) (words : List ℕ)
    → 1 < upper
    → InRange upper (draw_below (upper - 1) cutoff words).1
unfolding draw_below
draw_below-InRange upper cutoff [] h = tt
draw_below-InRange upper cutoff (value ∷ words) h =
    ground (arith, draw_below-InRange upper cutoff words h)

-- A priority that the operating system's generator draws is at least 1 and below the bound,
-- whatever words it reads.
pub os_next_below-InRange :
    (r : OsRandom) (upper : Priority) → InRange upper (os_next_below r upper).1
unfolding os_next_below
os_next_below-InRange r upper = elim (Bool-cases (leb upper 1)) [
  | inl e ↦ rw (e, os_next_below) tt
  | inr e ↦ rw (e, os_next_below) (draw_below-InRange upper _ r.words (leb→lt upper 1 e))
]
