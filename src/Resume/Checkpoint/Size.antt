-- ===== src/Resume/Checkpoint/Size.antt =====
-- The estimate of the serialized size of a checkpoint, crates/engine/src/resume/checkpoint.rs, by the
-- fields that the code charges. A length in bytes is below 2^64, as `usize` is.
use kdown.Prelude.{
  ℕ, ◌+◌, ◌*◌, ◌≤◌, ◌≡◌, ◌↔◌, sym, ap, leb→le, ltb→le, refl, inl, inr, true, false, Bool, Option,
  none, some, List, [], ◌∷◌, leb, ltb, if◌then◌else◌, String, length, Result, ok, err, ◌>>=◌,
  u64_max, arith, subst, Bool-cases,
}
use Prim.Native.String.{len}
use kdown.Resume.Checkpoint.{Checkpoint, CheckpointError, ExpectedDigest, overflow, too_large}

abbrev checked_add : ℕ → ℕ → Result CheckpointError ℕ
checked_add a b = if leb (a + b) u64_max then ok (a + b) else err overflow

abbrev checked_mul : ℕ → ℕ → Result CheckpointError ℕ
checked_mul a b = if leb (a * b) u64_max then ok (a * b) else err overflow

unfoldable pub json_string : ℕ → Result CheckpointError ℕ
json_string bytes = do escaped ← checked_mul bytes 6; checked_add escaped 2

unfoldable pub json_optional_string : Option String → Result CheckpointError ℕ
unfolding json_string
json_optional_string none = ok 4
json_optional_string (some v) = json_string (len v)

-- `add`, with the captured total as an argument.
abbrev add : ℕ → Result CheckpointError ℕ → Result CheckpointError ℕ
add total cost = do value ← cost; checked_add total value

unfoldable pub add_digests : ℕ → List ExpectedDigest → Result CheckpointError ℕ
add_digests total [] = ok total
add_digests total (digest ∷ rest) = do
  with_algorithm ← add total (json_string (len digest.algorithm))
  with_hex ← add with_algorithm (json_string (len digest.hex))
  with_fixed ← add with_hex (ok 64)
  add_digests with_fixed rest

unfoldable pub checked_serialized_size : Checkpoint → Result CheckpointError ℕ
unfolding add_digests json_string json_optional_string
checked_serialized_size cp = do
  t1 ← add 512 (json_string (len cp.temp_path_identity))
  t2 ← add t1 (json_string (len cp.created_at))
  t3 ← add t2 (json_string (len cp.updated_at))
  t4 ← add t3 (json_optional_string cp.owned_temp_identity)
  t5 ← add t4 (json_optional_string cp.covered_digest)
  t6 ← add t5 (json_optional_string cp.validators.etag)
  t7 ← add t6 (json_optional_string cp.validators.last_modified)
  t8 ← add t7 (ok (if cp.validators.etag_is_weak then 4 else 5))
  t9 ← add t8 (ok 20)
  t10 ← add t9 (checked_mul (length cp.completed_ranges) 48)
  add_digests t10 cp.expected_hashes

unfoldable pub check_serialized_within : ℕ → Checkpoint → Result CheckpointError ℕ
unfolding checked_serialized_size
check_serialized_within cap cp = do
  estimate ← checked_serialized_size cp
  if ltb cap estimate then err (too_large estimate cap) else ok estimate

-- What the code would add up without a limit to its numbers.
abbrev string_cost : ℕ → ℕ
string_cost bytes = bytes * 6 + 2

abbrev optional_cost : Option String → ℕ
optional_cost none = 4
optional_cost (some v) = string_cost (len v)

abbrev digest_cost : ExpectedDigest → ℕ
digest_cost d = string_cost (len d.algorithm) + string_cost (len d.hex) + 64

abbrev digests_cost : List ExpectedDigest → ℕ
digests_cost [] = 0
digests_cost (d ∷ rest) =
    string_cost (len d.algorithm) + (string_cost (len d.hex) + (64 + digests_cost rest))

abbrev after_validators : Checkpoint → ℕ
after_validators cp =
    (if cp.validators.etag_is_weak then 4 else 5)
    + (20 + (length cp.completed_ranges * 48 + digests_cost cp.expected_hashes))

abbrev after_times : Checkpoint → ℕ
after_times cp =
    optional_cost cp.owned_temp_identity
    + (optional_cost cp.covered_digest
        + (optional_cost cp.validators.etag
            + (optional_cost cp.validators.last_modified + after_validators cp)))

abbrev exact_size : Checkpoint → ℕ
exact_size cp =
    512
    + (string_cost (len cp.temp_path_identity)
        + (string_cost (len cp.created_at) + (string_cost (len cp.updated_at) + after_times cp)))

-- A number that is at most 2^64 - 1 as a checked result.
abbrev checked : ℕ → Result CheckpointError ℕ
checked n = if leb n u64_max then ok n else err overflow

json_string_lem : (n : ℕ) → json_string n ≡ checked (string_cost n)
unfolding json_string
json_string_lem n = elim (Bool-cases (leb (n * 6) u64_max)) [
  | inl e ↦ rw e refl
  | inr e ↦ let big : leb (n * 6 + 2) u64_max ≡ false = ground arith in rw (e, big) refl
]

json_optional_string_lem : (o : Option String) → json_optional_string o ≡ checked (optional_cost o)
unfolding json_optional_string
json_optional_string_lem none = refl
json_optional_string_lem (some v) = json_string_lem (len v)

-- One addition, whose cost and remainder are checked numbers, in a chain.
add-step :
    (a b n : ℕ) {cost : Result CheckpointError ℕ} {k : ℕ → Result CheckpointError ℕ}
    → cost ≡ checked b
    → ((t : ℕ) → leb t u64_max ≡ true → k t ≡ checked (t + n))
    → add a cost >>= k ≡ checked (a + (b + n))
add-step a b n {cost} {k} e h = elim (Bool-cases (leb b u64_max)) [
  | inr big ↦ let more : leb (a + (b + n)) u64_max ≡ false = ground arith in rw (e, big, more) refl
  | inl fits ↦ elim (Bool-cases (leb (a + b) u64_max)) [
    | inr big ↦
        let more : leb (a + (b + n)) u64_max ≡ false = ground arith in rw (e, fits, big, more) refl
    | inl small ↦
        let same : a + b + n ≡ a + (b + n) = omega arith in
        rw (e, fits, small) (subst (λ x. k (a + b) ≡ checked x) same (h (a + b) small))
  ]
]

add_digests_lem :
    (ds : List ExpectedDigest) (t : ℕ)
    → leb t u64_max ≡ true
    → add_digests t ds ≡ checked (t + digests_cost ds)
unfolding add_digests
add_digests_lem [] t h = let same : t + 0 ≡ t = omega arith in rw (same, h) refl
add_digests_lem (d ∷ rest) t h =
    let tail = digests_cost rest in
    let hex = string_cost (len d.hex) in
    add-step t (string_cost (len d.algorithm)) (hex + (64 + tail))
      (json_string_lem (len d.algorithm))
      (λ u hu.
        add-step u hex (64 + tail) (json_string_lem (len d.hex))
          (λ v hv. add-step v 64 tail refl (λ w hw. add_digests_lem rest w hw)))

abbrev fixed : ℕ → Result CheckpointError ℕ
fixed n = ok n

flag_cost : (b : Bool) → fixed (if b then 4 else 5) ≡ checked (if b then 4 else 5)
flag_cost true = refl
flag_cost false = refl

-- The size is the sum of the costs, or an overflow if that is not within `u64`.
checked_serialized_size_lem :
    (cp : Checkpoint) → checked_serialized_size cp ≡ checked (exact_size cp)
unfolding checked_serialized_size
checked_serialized_size_lem cp =
    let v = cp.validators in
    let n9 = digests_cost cp.expected_hashes in
    let n8 = length cp.completed_ranges * 48 + n9 in
    let n5 = optional_cost v.last_modified + after_validators cp in
    let n4 = optional_cost v.etag + n5 in
    let flag = if v.etag_is_weak then 4 else 5 in
    let string = λ (s : String). json_string_lem (len s) in
    let text = λ (s : String). string_cost (len s) in
    add-step 512 (text cp.temp_path_identity)
      (text cp.created_at + (text cp.updated_at + after_times cp)) (string cp.temp_path_identity)
      (λ t h.
        add-step t (text cp.created_at) (text cp.updated_at + after_times cp) (string cp.created_at)
          (λ t h. add-step t (text cp.updated_at) (after_times cp) (string cp.updated_at) (λ t h.
            add-step t (optional_cost cp.owned_temp_identity) (optional_cost cp.covered_digest + n4)
              (json_optional_string_lem cp.owned_temp_identity)
              (λ t h.
                add-step t (optional_cost cp.covered_digest) n4
                  (json_optional_string_lem cp.covered_digest)
                  (λ t h.
                    add-step t (optional_cost v.etag) n5 (json_optional_string_lem v.etag) (λ t h.
                      add-step t (optional_cost v.last_modified) (after_validators cp)
                        (json_optional_string_lem v.last_modified)
                        (λ t h. add-step t flag (20 + n8) (flag_cost v.etag_is_weak) (λ t h.
                          add-step t 20 n8 refl (λ t h.
                            add-step t (length cp.completed_ranges * 48) n9 refl
                              (λ t h. add_digests_lem cp.expected_hashes t h))))))))))

-- `check_serialized_within` gives a size exactly if that size is the sum of the costs that the
-- code adds, over unbounded numbers, and within both the budget and `u64`: no addition and no
-- product wraps. The id of the job is not among those costs.
check_serialized_within_iff :
    (cap : ℕ) (cp : Checkpoint) (n : ℕ)
    → (check_serialized_within cap cp ≡ ok n) ↔ ((n ≡ exact_size cp) × (n ≤ cap) × (n ≤ u64_max))
unfolding check_serialized_within
check_serialized_within_iff cap cp n = elim (Bool-cases (leb (exact_size cp) u64_max)) [
  | inr big ↦
      rw (checked_serialized_size_lem cp, big)
        (λ h. absurd (cc), λ h. absurd (ground (arith, h.0, h.2, big)))
  | inl fits ↦ elim (Bool-cases (ltb cap (exact_size cp))) [
    | inl over ↦
        rw (checked_serialized_size_lem cp, fits, over)
          (λ h. absurd (cc), λ h. absurd (ground (arith, h.0, h.1, over)))
    | inr under ↦
        let size = leb→le (exact_size cp) u64_max fits in
        let budget = ltb→le cap (exact_size cp) under in
        rw (checked_serialized_size_lem cp, fits, under)
          (
            λ h.
                let same : exact_size cp ≡ n = cc in
                (sym same, omega (arith, same, budget), omega (arith, same, size)),
            λ h. ap ok (sym h.0),
          )
  ]
]
