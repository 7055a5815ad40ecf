-- ===== src/BTreeMap/Dense.antt =====
-- Maps whose keys are the numbers of a range: the list of the values is indexed by the keys.
use fkie_cad_cwe_checker.Prelude.{
  ℕ, zero, suc, ◌+◌, ◌≤◌, ◌<◌, ◌≡◌, refl, ap, ◌&&◌, List, [], ◌∷◌, map, arith, ltb, leb, is_some,
}
use fkie_cad_cwe_checker.Prelude.Lists.{length, get_elem?}
use fkie_cad_cwe_checker.Prelude.Key.{nat_ord}
use fkie_cad_cwe_checker.BTreeMap
use fkie_cad_cwe_checker.BTreeMap.Laws.{get-Above, Above-trans, Above-IsSorted}
use fkie_cad_cwe_checker.BTreeMap.{IsSorted, Above}

module _ {V : Type 0} where
  -- The keys of the map are lo, ..., hi - 1.
  abbrev pub IsDense : ℕ → ℕ → List (ℕ × V) → Type 0
  IsDense lo hi m = (x : ℕ) → is_some (BTreeMap.get x m) ≡ (leb lo x && ltb x hi)

  abbrev pub values : List (ℕ × V) → List V
  values m = map (λ e. e.1) m

  dense-head :
      (lo hi j : ℕ) (v : V) (m : List (ℕ × V)) → Above j m → IsDense lo hi ((j, v) ∷ m) → j ≡ lo
  unfolding BTreeMap.get
  dense-head lo hi j v m a d =
      let early = λ (h : lo < j). get-Above lo m (Above-trans lo j m (ground arith) a) in
      ground (arith, d j, d lo, early)

  IsDense-tail :
      (lo hi j : ℕ) (v : V) (m : List (ℕ × V))
      → Above j m
      → IsDense lo hi ((j, v) ∷ m)
      → IsDense (lo + 1) hi m
  unfolding BTreeMap.get
  IsDense-tail lo hi j v m a d x =
      ground (arith, d x, d j, dense-head lo hi j v m a d, get-Above j m a)

  pub length-values :
      (lo hi : ℕ) (m : List (ℕ × V))
      → lo ≤ hi
      → IsSorted m
      → IsDense lo hi m
      → lo + length (values m) ≡ hi
  unfolding BTreeMap.get
  length-values lo hi [] h s d = ground (arith, d lo)
  length-values lo hi ((j, v) ∷ m) h s d =
      let rest = length-values (lo + 1) hi m in
      ground (
        arith,
        d j,
        rest,
        Above-IsSorted j m s,
        IsDense-tail lo hi j v m s d,
        dense-head lo hi j v m s d,
      )

  pub get_elem?-values :
      (lo hi : ℕ) (m : List (ℕ × V)) (k : ℕ)
      → IsSorted m
      → IsDense lo hi m
      → get_elem? (values m) k ≡ BTreeMap.get (lo + k) m
  unfolding BTreeMap.get
  get_elem?-values lo hi [] k s d = refl
  get_elem?-values lo hi ((j, v) ∷ m) zero s d = ground (arith, dense-head lo hi j v m s d)
  get_elem?-values lo hi ((j, v) ∷ m) (suc k) s d =
      let rest =
        get_elem?-values (lo + 1) hi m k (Above-IsSorted j m s) (IsDense-tail lo hi j v m s d) in
      let same : lo + 1 + k ≡ lo + suc k = omega arith in
      ground (arith, rest, ap (λ i. BTreeMap.get i m) same, dense-head lo hi j v m s d)
