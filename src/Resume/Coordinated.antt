-- ===== src/Resume/Coordinated.antt =====
-- crates/engine/src/resume/coordinated_store.rs: the store of a job that never goes back. The store
-- around which it stands is a parameter. A call holds the lock throughout, so calls are steps; a
-- poisoned lock is left out.
pub mod Monotone
use kdown.Prelude.{
  ℕ, Bool, true, false, not, ◌&&◌, ◌||◌, Option, none, some, List, [], ◌∷◌, ◌++◌, ◌==◌,
  if◌then◌else◌, String, str_eq, Result, ok, err,
}
use kdown.Interval.{ByteRange}
use kdown.Http.Validators.{ResourceValidators}
use kdown.Resume.Checkpoint.{Checkpoint, CheckpointError, inconsistent, sort_ranges, merge_sorted}
use kdown.Resume.Admission.{CheckpointStore}

unfoldable pub union_ranges : List ByteRange → List ByteRange → List ByteRange
unfolding sort_ranges merge_sorted
union_ranges a b = merge_sorted none (sort_ranges (a ++ b))

-- The derived equalities.
abbrev same_bool : Bool → Bool → Bool
same_bool true b = b
same_bool false b = not b

abbrev same_text : Option String → Option String → Bool
same_text none none = true
same_text none (some b) = false
same_text (some a) none = false
same_text (some a) (some b) = str_eq a b

abbrev pub same_size : Option ℕ → Option ℕ → Bool
same_size none none = true
same_size none (some b) = false
same_size (some a) none = false
same_size (some a) (some b) = a == b

abbrev pub same_validators : ResourceValidators → ResourceValidators → Bool
same_validators v w =
    same_text v.etag w.etag
    && same_bool v.etag_is_weak w.etag_is_weak
    && same_text v.last_modified w.last_modified
    && same_size v.total_size w.total_size

abbrev pub same_ranges : List ByteRange → List ByteRange → Bool
same_ranges [] [] = true
same_ranges [] (r ∷ b) = false
same_ranges (r ∷ a) [] = false
same_ranges (r ∷ a) (q ∷ b) = (r.0 == q.0 && r.1 == q.1) && same_ranges a b

-- `last_accepted` by identity.
abbrev pub Accepted : Type 0
Accepted = List (String × Checkpoint)

unfoldable pub last_accepted : Accepted → String → Option Checkpoint
last_accepted [] id = none
last_accepted ((k, cp) ∷ rest) id = if str_eq k id then some cp else last_accepted rest id

unfoldable pub accept : Accepted → String → Checkpoint → Accepted
accept m id cp = (id, cp) ∷ m

unfoldable pub forget : Accepted → String → Accepted
forget [] id = []
forget ((k, cp) ∷ rest) id = if str_eq k id then forget rest id else (k, cp) ∷ forget rest id

pub record Coordinated (S : Type 0) : Type 0 where
  pub inner : S
  pub accepted : Accepted

module _ {S : Type 0} (store : CheckpointStore S) where
  abbrev pub load :
      Coordinated S → String → Coordinated S × Result CheckpointError (Option Checkpoint)
  load c id = let (s, r) = store.load c.inner id in (record c { inner = s }, r)

  -- The adapter's answer, and what is then remembered.
  abbrev pub saved :
      Accepted
      → Checkpoint
      → S × Result CheckpointError (Unit {0})
      → Coordinated S × Result CheckpointError (Unit {0})
  unfolding accept
  saved m cp (s, ok u) = (record { inner = s; accepted = accept m cp.job_id cp }, ok tt)
  saved m cp (s, err e) = (record { inner = s; accepted = m }, err e)

  abbrev pub save_over :
      Coordinated S
      → Checkpoint
      → Option Checkpoint
      → Coordinated S × Result CheckpointError (Unit {0})
  unfolding saved union_ranges
  save_over c cp none = saved c.accepted cp (store.save_atomic c.inner cp)
  save_over c cp (some prev) =
      let merged = union_ranges prev.completed_ranges cp.completed_ranges in
      let forwarded = record cp { completed_ranges = merged } in
      if not (same_validators prev.validators cp.validators)
        || not (same_size prev.total_size cp.total_size)
      then (c, err inconsistent)
      else if same_ranges merged prev.completed_ranges
      then (c, ok tt)
      else saved c.accepted forwarded (store.save_atomic c.inner forwarded)

  unfoldable pub save_atomic :
      Coordinated S → Checkpoint → Coordinated S × Result CheckpointError (Unit {0})
  unfolding save_over last_accepted
  save_atomic c cp = save_over c cp (last_accepted c.accepted cp.job_id)

  abbrev pub deleted :
      Accepted
      → String
      → S × Result CheckpointError (Unit {0})
      → Coordinated S × Result CheckpointError (Unit {0})
  unfolding forget
  deleted m id (s, ok u) = (record { inner = s; accepted = forget m id }, ok tt)
  deleted m id (s, err e) = (record { inner = s; accepted = m }, err e)

  unfoldable pub delete : Coordinated S → String → Coordinated S × Result CheckpointError (Unit {0})
  unfolding deleted
  delete c id = deleted c.accepted id (store.delete c.inner id)

  unfoldable pub save_all : Coordinated S → List Checkpoint → Coordinated S
  unfolding save_atomic
  save_all c [] = c
  save_all c (cp ∷ rest) = save_all (save_atomic c cp).0 rest
