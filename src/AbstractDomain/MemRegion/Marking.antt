-- ===== src/AbstractDomain/MemRegion/Marking.antt =====
-- What merging elements with `Top` leaves: in an interval, and in the whole region.
use fkie_cad_cwe_checker.Prelude.{Bool}
use fkie_cad_cwe_checker.Prelude.{
  ◌⊎◌, ℕ, ◌+◌, ◌^◌, ◌≤◌, ◌<◌, ◌≡◌, refl, sym, ◌∙◌, inl, inr, Option, none, some, List, [], ◌∷◌,
  arith, ltb, ◌==◌, if◌then◌else◌, Option-cases, Bool-cases,
}
use mathlib.Core.Path.{subst}
use fkie_cad_cwe_checker.Prelude.Outcome.{Outcome, ok}
use fkie_cad_cwe_checker.Prelude.Key.{nat_ord}
use fkie_cad_cwe_checker.BTreeMap
use fkie_cad_cwe_checker.BTreeMap.{IsSorted, Above}
use fkie_cad_cwe_checker.BTreeMap.Laws.{
  get-insert, get-remove, get-Above, Above-IsSorted, Above-trans, insert-IsSorted, remove-IsSorted,
}
use fkie_cad_cwe_checker.BTreeMap.Range.{range, get-range}
use fkie_cad_cwe_checker.Prelude.Word64.{i64_add-size}
use fkie_cad_cwe_checker.AbstractDomain.DomainMap.{unless_top}
use fkie_cad_cwe_checker.AbstractDomain.MemRegion.{
  ValueDomain, MemRegion, overlap_before, store, merged_with_top, merge_all_with_top, merge_before,
  merge_values_intersecting_range_with_top, mark_interval_values_as_top,
}
use fkie_cad_cwe_checker.AbstractDomain.MemRegion.Regions.{
  Fits, IsValid, overlap_before-some, overlap_before-none,
}
use fkie_cad_cwe_checker.AbstractDomain.MemRegion.Clear.{intersects}

range-Above :
    {V : Type 0} (start end k : ℕ) (m : List (ℕ × V)) → Above k m → Above k (range start end m)
unfolding range
range-Above start end k [] a = tt
range-Above start end k ((j, v) ∷ m) (b, a) =
    ground (arith, range-Above start end j m a, range-Above start end k m (Above-trans k j m b a))

range-IsSorted :
    {V : Type 0} (start end : ℕ) (m : List (ℕ × V)) → IsSorted m → IsSorted (range start end m)
unfolding range
range-IsSorted start end [] s = tt
range-IsSorted start end ((j, v) ∷ m) s =
    ground (arith, range-Above start end j m s, range-IsSorted start end m (Above-IsSorted j m s))

module _ {T : Type 0} (d : ValueDomain T) where
  -- An element that is merged with `Top`, and goes if it becomes `Top`.
  abbrev pub marked : T → Option T
  marked v = unless_top d.domain (merged_with_top d v)

  abbrev pub mark_in : ℕ → ℕ → ℕ → Option T → Option T
  mark_in start end k none = none
  mark_in start end k (some v) = if intersects d start end k v then marked v else some v

  pub get-store :
      (j k : ℕ) (v : T) (m : List (ℕ × T))
      → BTreeMap.get k (store d j v m)
        ≡ (if k == j then unless_top d.domain v else BTreeMap.get k m)
  unfolding store
  get-store j k v m = ground (arith, get-insert j k v m, get-remove j k m)

  pub store-IsSorted : (j : ℕ) (v : T) (m : List (ℕ × T)) → IsSorted m → IsSorted (store d j v m)
  unfolding store
  store-IsSorted j v m s = ground (arith, insert-IsSorted j v m s, remove-IsSorted j m s)

  get-merge_all :
      (k : ℕ) (ks m : List (ℕ × T))
      → IsSorted ks
      → BTreeMap.get k (merge_all_with_top d ks m)
        ≡ elim (BTreeMap.get k ks) [ some v ↦ marked v | none ↦ BTreeMap.get k m ]
  unfolding merge_all_with_top BTreeMap.get
  get-merge_all k [] m s = refl
  get-merge_all k ((j, v) ∷ ks) m s =
      get-merge_all k ks (store d j (merged_with_top d v) m) (Above-IsSorted j ks s)
      ∙ ground (arith, get-store j k (merged_with_top d v) m, get-Above j ks s)

  merge_all-IsSorted : (ks m : List (ℕ × T)) → IsSorted m → IsSorted (merge_all_with_top d ks m)
  unfolding merge_all_with_top
  merge_all-IsSorted [] m s = s
  merge_all-IsSorted ((j, v) ∷ ks) m s =
      merge_all-IsSorted ks (store d j (merged_with_top d v) m)
        (store-IsSorted j (merged_with_top d v) m s)

  merge_before-IsSorted :
      (start : ℕ) (m : List (ℕ × T)) → IsSorted m → IsSorted (merge_before d start m)
  unfolding merge_before
  merge_before-IsSorted start m s = elim (Option-cases (overlap_before d start m)) [
    | inl e ↦ rw (merge_before, e) s
    | inr ((p, v), e) ↦ rw (merge_before, e) (store-IsSorted p (merged_with_top d v) m s)
  ]

  get-merge_before :
      (start k : ℕ) (m : List (ℕ × T))
      → IsValid d m
      → BTreeMap.get k (merge_before d start m)
        ≡ (if ltb k start then mark_in start start k (BTreeMap.get k m) else BTreeMap.get k m)
  unfolding merge_before
  get-merge_before start k m valid = elim (Option-cases (overlap_before d start m)) [
    | inl e ↦ elim (Option-cases (BTreeMap.get k m)) [
      | inl a ↦ ground arith
      | inr (w, a) ↦ ground (arith, overlap_before-none d start k w m valid e a)
    ]
    | inr ((p, v), e) ↦
        let (here, lt, past, others) = overlap_before-some d start p v m valid e in
        elim (Option-cases (BTreeMap.get k m)) [
          | inl a ↦ ground (arith, get-store p k (merged_with_top d v) m)
          | inr (w, a) ↦ ground (arith, get-store p k (merged_with_top d v) m, others k w a)
        ]
  ]

  get-marked :
      (start end k : ℕ) (m : List (ℕ × T))
      → IsValid d m
      → start ≤ end
      → BTreeMap.get k
          (merge_all_with_top d (range start end (merge_before d start m)) (merge_before d start m))
        ≡ mark_in start end k (BTreeMap.get k m)
  get-marked start end k m valid le =
      let before = merge_before d start m in
      let sorted = merge_before-IsSorted start m valid.sorted in
      elim (Option-cases (BTreeMap.get k m)) [
        | inl a ↦ ground (
          arith,
          get-merge_all k (range start end before) before (range-IsSorted start end before sorted),
          get-range start end k before sorted,
          get-merge_before start k m valid,
        )
        | inr (w, a) ↦
            let size = Fits.has_size (valid.fits k w a) in
            ground (
              arith,
              get-merge_all k (range start end before) before
                  (range-IsSorted start end before sorted),
              get-range start end k before sorted,
              get-merge_before start k m valid,
            )
      ]

  -- Merging with `Top` keeps the size of a value.
  abbrev pub KeepsSize : Type 0
  KeepsSize = (v : T) → d.bytesize (merged_with_top d v) ≡ d.bytesize v

  marked-Fits :
      KeepsSize
      → (k : ℕ) (v w : T) → Fits d k v
      → marked v ≡ some w
      → Fits d k w × (d.bytesize w ≡ d.bytesize v)
  marked-Fits keeps k v w fits h =
      let same : merged_with_top d v ≡ w = ground arith in
      let size : d.bytesize w ≡ d.bytesize v = ground (arith, keeps v) in
      (
        record {
          has_size = omega (arith, size, fits.has_size);
          small = omega (arith, size, fits.small);
          ends = omega (arith, size, fits.ends);
          known = ground arith;
        },
        size,
      )

  -- Each element of `out` is an element of `m`, or one that was marked.
  abbrev pub From : List (ℕ × T) → List (ℕ × T) → Type 0
  From m out =
      (k : ℕ) (w : T)
      → BTreeMap.get k out ≡ some w
      → (v : T) × (BTreeMap.get k m ≡ some v) × ((v ≡ w) ⊎ (marked v ≡ some w))

  pub From-IsValid :
      (m out : List (ℕ × T)) → KeepsSize → IsValid d m → IsSorted out → From m out → IsValid d out
  From-IsValid m out keeps valid s from = record {
    sorted = s;
    fits = λ k w h.
        let (v, there, how) = from k w h in
        elim how [
          | inl same ↦ subst (Fits d k) same (valid.fits k v there)
          | inr mark ↦ (marked-Fits keeps k v w (valid.fits k v there) mark).0
        ];
    disjoint = λ j k v w h h' lt.
        let (v', there, how) = from j v h in
        let (w', there', how') = from k w h' in
        let apart = valid.disjoint j k v' w' there there' lt in
        elim how [
          | inl same ↦ subst (λ x. j + d.bytesize x ≤ k) same apart
          | inr mark ↦ omega (arith, (marked-Fits keeps j v' v (valid.fits j v' there) mark).1)
        ];
  }

  mark_in-from :
      (start end k : ℕ) (o : Option T) (w : T)
      → mark_in start end k o ≡ some w
      → (v : T) × (o ≡ some v) × ((v ≡ w) ⊎ (marked v ≡ some w))
  mark_in-from start end k none w h = absurd (ground arith)
  mark_in-from start end k (some v) w h = elim (Bool-cases (intersects d start end k v)) [
    | inl meets ↦ (v, refl, inr (ground arith))
    | inr apart ↦ (v, refl, inl (ground arith))
  ]

  pub record Marks (start end : ℕ) (r : MemRegion T) (result : Outcome (MemRegion T)) : Type 0 where
    pub out : MemRegion T
    pub returns : result ≡ ok out
    pub same_size : out.address_bytesize ≡ r.address_bytesize
    pub valid : IsValid d out.values
    pub lookup : (k : ℕ) → BTreeMap.get k out.values ≡ mark_in start end k (BTreeMap.get k r.values)

  -- Marking the values of an interval of a valid region, from a start to an end where elements of
  -- some size begin, does not panic if the interval ends before the last address. Exactly the
  -- elements that share a byte with the interval are merged with `Top`, those that become `Top` go,
  -- and the region stays valid if merging with `Top` keeps the size of values.
  pub mark_interval_values_as_top-Marks :
      (empty_root : Bool) (start end elem_size : ℕ) (r : MemRegion T)
      → KeepsSize
      → IsValid d r.values
      → start ≤ end
      → elem_size < 2 ^ 63
      → end + elem_size < 2 ^ 64
      → Marks start
          (end + elem_size)
          r
          (mark_interval_values_as_top d empty_root start end elem_size r)
  unfolding mark_interval_values_as_top merge_values_intersecting_range_with_top
  mark_interval_values_as_top-Marks empty_root start end elem_size r keeps valid le small ends =
      let past = i64_add-size end elem_size small ends in
      let before = merge_before d start r.values in
      let values = merge_all_with_top d (range start (end + elem_size) before) before in
      let lookup = λ (k : ℕ). get-marked start (end + elem_size) k r.values valid (omega arith) in
      let sorted =
        merge_all-IsSorted (range start (end + elem_size) before) before
          (merge_before-IsSorted start r.values valid.sorted) in
      record {
        out = record { address_bytesize = r.address_bytesize; values = values };
        returns = rw past (ground arith);
        same_size = refl;
        valid = From-IsValid r.values values keeps valid sorted (λ k w h.
            mark_in-from start (end + elem_size) k (BTreeMap.get k r.values) w
              (sym (lookup k) ∙ h));
        lookup = lookup;
      }
