-- ===== src/BTreeSet/Laws.antt =====
-- Membership laws of `BTreeSet`.
use fkie_cad_cwe_checker.Prelude.{
  ◌≡◌, refl, true, none, some, List, [], ◌∷◌, ◌||◌, ◌&&◌, not, arith,
}
use fkie_cad_cwe_checker.Prelude.Key.{Ord, ◌=?◌}
use fkie_cad_cwe_checker.BTreeSet.{contains, insert, remove, union, intersection, last}

module _ {K : Type 0} ⦃o : Ord K⦄ where
  pub contains-insert : (k j : K) (s : List K) → contains j (insert k s) ≡ (j =? k || contains j s)
  unfolding contains insert
  contains-insert k j [] = refl
  contains-insert k j (i ∷ s) =
      ground (arith, o.cmp_eq_iff k i, o.cmp_eq_iff j i, o.cmp_eq_iff j k, contains-insert k j s)

  pub contains-remove :
      (k j : K) (s : List K) → contains j (remove k s) ≡ (not (j =? k) && contains j s)
  unfolding contains remove
  contains-remove k j [] = ground arith
  contains-remove k j (i ∷ s) =
      ground (arith, o.cmp_eq_iff k i, o.cmp_eq_iff j i, o.cmp_eq_iff j k, contains-remove k j s)

  pub contains-union :
      (j : K) (s t : List K) → contains j (union s t) ≡ (contains j s || contains j t)
  unfolding union contains
  contains-union j [] t = refl
  contains-union j (k ∷ s) t = ground (arith, contains-insert k j (union s t), contains-union j s t)

  pub contains-intersection :
      (j : K) (s t : List K) → contains j (intersection s t) ≡ (contains j s && contains j t)
  unfolding intersection contains
  contains-intersection j [] t = refl
  contains-intersection j (k ∷ s) t = ground (arith, o.cmp_eq_iff j k, contains-intersection j s t)

  pub contains-last : (k : K) (s : List K) → last s ≡ some k → contains k s ≡ true
  unfolding last contains
  contains-last k [] h = ground arith
  contains-last k (j ∷ []) h = ground (arith, o.cmp_eq_iff k j)
  contains-last k (j ∷ i ∷ s) h = ground (arith, contains-last k (i ∷ s) h)

  pub last-none : (s : List K) → last s ≡ none → s ≡ []
  unfolding last
  last-none [] h = refl
  last-none (j ∷ []) h = ground arith
  last-none (j ∷ i ∷ s) h = ground (arith, last-none (i ∷ s) h)
