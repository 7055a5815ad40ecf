-- ===== src/AbstractDomain/MemRegion/Merging/Loop.antt =====
-- The loop of `merge_inner`: what it stores.
use fkie_cad_cwe_checker.Prelude.{
  ℕ, ◌+◌, ◌≤◌, ◌<◌, ◌≡◌, refl, ◌⊎◌, inl, inr, true, Option, none, some, List, [], ◌∷◌, arith, leb,
  ◌&&◌, Option-cases, Bool-cases,
}
use mathlib.Core.Path.{subst₂}
use fkie_cad_cwe_checker.Prelude.Outcome.{Outcome, ok}
use fkie_cad_cwe_checker.Prelude.Key.{nat_ord, ◌=?◌}
use Prim.Native.Nat.{max}
use fkie_cad_cwe_checker.BTreeMap
use fkie_cad_cwe_checker.BTreeMap.{IsSorted}
use fkie_cad_cwe_checker.BTreeMap.Laws.{
  get-insert, get-Above, Above-IsSorted, Above-trans, insert-IsSorted,
}
use fkie_cad_cwe_checker.AbstractDomain.MemRegion.{ValueDomain}
use fkie_cad_cwe_checker.AbstractDomain.MemRegion.Merging.{
  Zipped, is_free, merge_or_merge_with_top, merge_loop,
}
use fkie_cad_cwe_checker.AbstractDomain.MemRegion.Merging.Zip.{
  FitsPair, FitsPair-ends, pair_size, compute_range_end-ok, is_free-after,
}

get-below :
    {V : Type 0} (j k : ℕ) (m : List (ℕ × V)) → BTreeMap.Above k m → j < k → BTreeMap.get j m ≡ none
get-below j k [] a lt = get-Above j [] tt
get-below j k ((i, v) ∷ m) a lt =
    get-Above j ((i, v) ∷ m) (Above-trans j k ((i, v) ∷ m) (ground arith) a)

module _ {T : Type 0} (d : ValueDomain T) where
  pub merge_or-returns :
      (k : ℕ) (l r : Option T)
      → FitsPair d k l r
      → (m : Option T) × (merge_or_merge_with_top d l r ≡ ok m)
  unfolding merge_or_merge_with_top
  merge_or-returns k none none h = absurd h
  merge_or-returns k none (some r) h = (_, refl)
  merge_or-returns k (some l) none h = (_, refl)
  merge_or-returns k (some l) (some r) h = (_, refl)

  module _ (zipped : Zipped d) (sorted : IsSorted zipped)
      (fits : (k : ℕ) (l r : Option T)
        → BTreeMap.get k zipped ≡ some (l, r)
        → FitsPair d k l r) where
    -- The value comes from the entry at its offset, and no other entry has an element that shares a
    -- byte with one of that entry.
    pub record Stored (k : ℕ) (v : T) : Type 0 where
      pub left : Option T
      pub right : Option T
      pub here : BTreeMap.get k zipped ≡ some (left, right)
      pub merged : merge_or_merge_with_top d left right ≡ ok (some v)
      pub before :
          (j : ℕ) (l r : Option T)
          → BTreeMap.get j zipped ≡ some (l, r)
          → j < k
          → j + pair_size d l r ≤ k
      pub after :
          (j : ℕ) (l r : Option T)
          → BTreeMap.get j zipped ≡ some (l, r)
          → k < j
          → k + pair_size d left right ≤ j

    abbrev AllStored : List (ℕ × T) → Type 0
    AllStored m = (k : ℕ) (v : T) → BTreeMap.get k m ≡ some v → Stored k v

    -- The entries that are not in `rest` end before `end`.
    abbrev Passed : Zipped d → ℕ → Type 0
    Passed rest end =
        (j : ℕ) (l r : Option T)
        → BTreeMap.get j zipped ≡ some (l, r)
        → (BTreeMap.get j rest ≡ some (l, r)) ⊎ (j + pair_size d l r ≤ end)

    insert-AllStored :
        (k : ℕ) (v : T) (m : List (ℕ × T))
        → Stored k v
        → AllStored m
        → AllStored (BTreeMap.insert k v m)
    insert-AllStored k v m stored all j w h = elim (Bool-cases (j =? k)) [
      | inl same ↦
          let place : k ≡ j = ground arith in
          let value : v ≡ w = ground (arith, get-insert k j v m) in subst₂ Stored place value stored
      | inr other ↦ all j w (ground (arith, get-insert k j v m))
    ]

    -- The next entry is stored when it starts behind all entries before, and ends before the next.
    stored :
        (k : ℕ) (l r : Option T) (v : T) (rest : Zipped d) (end : ℕ)
        → BTreeMap.get k zipped ≡ some (l, r)
        → IsSorted ((k, (l, r)) ∷ rest)
        → Passed ((k, (l, r)) ∷ rest) end
        → end ≤ k
        → is_free d k (k + pair_size d l r) zipped ≡ true
        → merge_or_merge_with_top d l r ≡ ok (some v)
        → Stored k v
    unfolding BTreeMap.get
    stored k l r v rest end here s passed behind free merged =
        let ends = FitsPair-ends d k l r (fits k l r here) in
        record {
          left = l;
          right = r;
          here = here;
          merged = merged;
          before = λ j l' r' there lt. elim (passed j l' r' there) [
            | inl waits ↦ absurd (ground (arith, get-below j k rest s))
            | inr done ↦ omega arith
          ];
          after = λ j l' r' there lt.
              is_free-after d k (k + pair_size d l r) j (l', r') zipped sorted (omega (arith, ends))
                free there lt;
        }

    abbrev Result : Outcome (List (ℕ × T)) → Type 0
    Result r = (out : List (ℕ × T)) × (r ≡ ok out) × IsSorted out × AllStored out

    pub merge_loop-Result :
        (rest : Zipped d) (end : ℕ) (m : List (ℕ × T))
        → IsSorted rest
        → ((j : ℕ) (l r : Option T)
            → BTreeMap.get j rest ≡ some (l, r)
            → BTreeMap.get j zipped ≡ some (l, r))
        → Passed rest end
        → IsSorted m
        → AllStored m
        → Result (merge_loop d zipped rest end m)
    unfolding merge_loop BTreeMap.get
    merge_loop-Result [] end m s sub passed s' all = (m, refl, s', all)
    merge_loop-Result ((k, (l, r)) ∷ rest) end m s sub passed s' all =
        let here : BTreeMap.get k zipped ≡ some (l, r) = sub k l r (ground arith) in
        let computed = compute_range_end-ok d k l r (fits k l r here) in
        let (merged, e) = merge_or-returns k l r (fits k l r here) in
        let next_end = max end (k + pair_size d l r) in
        let sub' = λ (j : ℕ) (l' r' : Option T) (h : BTreeMap.get j rest ≡ some (l', r')).
          sub j l' r' (ground (arith, get-Above k rest s)) in
        let passed' : Passed rest next_end = λ j l' r' h. elim (passed j l' r' h) [
          | inl waits ↦ elim (Bool-cases (j =? k)) [
            | inl same ↦ inr (ground arith)
            | inr other ↦ inl (ground arith)
          ]
          | inr done ↦ inr (omega arith)
        ] in
        let continue = λ (m' : List (ℕ × T)) (t : IsSorted m') (all' : AllStored m').
          merge_loop-Result rest next_end m' (Above-IsSorted k rest s) sub' passed' t all' in
        elim (Bool-cases (leb end k && is_free d k (k + pair_size d l r) zipped)) [
          | inr skip ↦
              let (out, returns, t, kept_all) = continue m s' all in
              (out, ground (arith, computed, returns), t, kept_all)
          | inl take ↦ elim (Option-cases merged) [
            | inl gone ↦
                let (out, returns, t, kept_all) = continue m s' all in
                (out, ground (arith, computed, returns, e), t, kept_all)
            | inr (v, survives) ↦
                let entry =
                  stored k l r v rest end here s passed (ground arith) (ground arith)
                    (ground (arith, e)) in
                let (out, returns, t, kept_all) =
                  continue (BTreeMap.insert k v m) (insert-IsSorted k v m s')
                    (insert-AllStored k v m entry all) in
                (out, ground (arith, computed, returns, e), t, kept_all)
          ]
        ]
