-- ===== src/AbstractDomain/MemRegion/Clear.antt =====
-- What clearing an interval leaves: the elements that do not intersect it.
use fkie_cad_cwe_checker.Prelude.{
  ℕ, ◌+◌, ◌^◌, ◌≤◌, ◌<◌, ◌≡◌, sym, ◌∙◌, inl, inr, Bool, ◌&&◌, Option, none, some, List, arith, ltb,
  if◌then◌else◌, Option-cases,
}
use fkie_cad_cwe_checker.Prelude.Outcome.{Outcome, ok}
use fkie_cad_cwe_checker.Prelude.Key.{nat_ord}
use fkie_cad_cwe_checker.BTreeMap
use fkie_cad_cwe_checker.BTreeMap.Laws.{get-remove, remove-IsSorted}
use fkie_cad_cwe_checker.BTreeMap.{IsSorted}
use fkie_cad_cwe_checker.BTreeMap.Range.{
  range, remove_all, get-range, get-remove_all, remove_all-IsSorted,
}
use fkie_cad_cwe_checker.Prelude.Word64.{i64_add-size, as_i64}
use fkie_cad_cwe_checker.AbstractDomain.MemRegion.{
  ValueDomain, overlap_before, clear_before, clear_interval,
}
use fkie_cad_cwe_checker.AbstractDomain.MemRegion.Regions.{
  Fits, IsValid, IsValid-sub, overlap_before-some, overlap_before-none,
}

module _ {T : Type 0} (d : ValueDomain T) where
  -- An element at `k` shares a byte with the range from `start` to before `end`.
  abbrev pub intersects : ℕ → ℕ → ℕ → T → Bool
  intersects start end k v = ltb k end && ltb start (k + d.bytesize v)

  abbrev pub outside : ℕ → ℕ → ℕ → Option T → Option T
  outside start end k none = none
  outside start end k (some v) = if intersects start end k v then none else some v

  get-clear_before :
      (position k : ℕ) (m : List (ℕ × T))
      → IsValid d m
      → BTreeMap.get k (clear_before d position m) ≡ (
          if ltb k position
          then outside position position k (BTreeMap.get k m)
          else BTreeMap.get k m)
  unfolding clear_before
  get-clear_before position k m valid = elim (Option-cases (overlap_before d position m)) [
    | inl e ↦ elim (Option-cases (BTreeMap.get k m)) [
      | inl a ↦ ground arith
      | inr (w, a) ↦ ground (arith, overlap_before-none d position k w m valid e a)
    ]
    | inr ((p, v), e) ↦
        let (here, lt, past, others) = overlap_before-some d position p v m valid e in
        elim (Option-cases (BTreeMap.get k m)) [
          | inl a ↦ ground (arith, get-remove p k m)
          | inr (w, a) ↦ ground (arith, get-remove p k m, others k w a)
        ]
  ]

  clear_before-IsSorted :
      (position : ℕ) (m : List (ℕ × T)) → IsSorted m → IsSorted (clear_before d position m)
  unfolding clear_before
  clear_before-IsSorted position m s = elim (Option-cases (overlap_before d position m)) [
    | inl e ↦ rw (clear_before, e) s
    | inr ((p, v), e) ↦ rw (clear_before, e) (remove-IsSorted p m s)
  ]

  -- `r` is a normal return of a valid map that holds the elements outside of the range.
  pub record Clears (start end : ℕ) (m : List (ℕ × T)) (r : Outcome (List (ℕ × T))) : Type 0 where
    pub out : List (ℕ × T)
    pub returns : r ≡ ok out
    pub valid : IsValid d out
    pub lookup : (k : ℕ) → BTreeMap.get k out ≡ outside start end k (BTreeMap.get k m)

  get-cleared :
      (start end k : ℕ) (m : List (ℕ × T))
      → IsValid d m
      → start ≤ end
      → BTreeMap.get k
          (remove_all (range start end (clear_before d start m)) (clear_before d start m))
        ≡ outside start end k (BTreeMap.get k m)
  get-cleared start end k m valid le =
      let cleared = clear_before d start m in
      let sorted = clear_before-IsSorted start m valid.sorted in
      elim (Option-cases (BTreeMap.get k m)) [
        | inl a ↦ ground (
          arith,
          get-remove_all k (range start end cleared) cleared,
          get-range start end k cleared sorted,
          get-clear_before start k m valid,
        )
        | inr (w, a) ↦
            let size = Fits.has_size (valid.fits k w a) in
            ground (
              arith,
              get-remove_all k (range start end cleared) cleared,
              get-range start end k cleared sorted,
              get-clear_before start k m valid,
            )
      ]

  outside-sub :
      (start end k : ℕ) (o : Option T) (v : T) → outside start end k o ≡ some v → o ≡ some v
  outside-sub start end k none v h = absurd (ground arith)
  outside-sub start end k (some w) v h = ground arith

  -- On a valid map, clearing an interval that ends before the last address does not panic; it
  -- removes exactly the elements that share a byte with it, and leaves a valid map.
  pub clear_interval-Clears :
      (empty_root : Bool) (position size : ℕ) (m : List (ℕ × T))
      → IsValid d m
      → size < 2 ^ 63
      → position + size < 2 ^ 64
      → Clears position (position + size) m (clear_interval d empty_root position (as_i64 size) m)
  unfolding clear_interval
  clear_interval-Clears empty_root position size m valid small ends =
      let end = i64_add-size position size small ends in
      let cleared = clear_before d position m in
      let out = remove_all (range position (position + size) cleared) cleared in
      let lookup = λ (k : ℕ). get-cleared position (position + size) k m valid (omega arith) in
      let sorted =
        remove_all-IsSorted (range position (position + size) cleared) cleared
          (clear_before-IsSorted position m valid.sorted) in
      record {
        out = out;
        returns = rw end (ground arith);
        valid = IsValid-sub d m out valid sorted (λ k v h.
            outside-sub position (position + size) k (BTreeMap.get k m) v (sym (lookup k) ∙ h));
        lookup = lookup;
      }
