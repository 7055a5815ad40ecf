-- ===== src/BTreeMap/Laws.antt =====
-- The map laws of `BTreeMap`.
use fkie_cad_cwe_checker.Prelude.{
  ◌≡◌, refl, Option, none, some, List, [], ◌∷◌, and_then, if◌then◌else◌, arith,
}
use fkie_cad_cwe_checker.Prelude.Key.{Ord, ◌=?◌}
use fkie_cad_cwe_checker.BTreeMap.{get, insert, remove, retain, Above, IsSorted}
use Prim.Native.Nat.{Ordering}

module _ {K V : Type 0} ⦃o : Ord K⦄ where
  pub get-insert :
      (k j : K) (v : V) (m : List (K × V))
      → get j (insert k v m) ≡ (if j =? k then some v else get j m)
  unfolding get insert
  get-insert k j v [] = refl
  get-insert k j v ((i, w) ∷ m) =
      ground (arith, o.cmp_eq_iff k i, o.cmp_eq_iff j i, o.cmp_eq_iff j k, get-insert k j v m)

  pub get-remove :
      (k j : K) (m : List (K × V)) → get j (remove k m) ≡ (if j =? k then none else get j m)
  unfolding get remove
  get-remove k j [] = ground arith
  get-remove k j ((i, w) ∷ m) =
      ground (arith, o.cmp_eq_iff k i, o.cmp_eq_iff j i, o.cmp_eq_iff j k, get-remove k j m)

  pub Above-trans : (i j : K) (m : List (K × V)) → o.cmp i j ≡ Ordering.lt → Above j m → Above i m
  Above-trans i j [] h a = tt
  Above-trans i j ((k, w) ∷ m) h (b, c) = (o.cmp_trans i j k h b, c)

  pub get-Above : (k : K) (m : List (K × V)) → Above k m → get k m ≡ none
  unfolding get
  get-Above k [] a = refl
  get-Above k ((j, w) ∷ m) (b, c) =
      ground (arith, o.cmp_eq_iff k j, get-Above k m (Above-trans k j m b c))

  pub Above-IsSorted : (j : K) (m : List (K × V)) → Above j m → IsSorted m
  Above-IsSorted j [] a = tt
  Above-IsSorted j ((k, w) ∷ m) (b, c) = c

  pub retain-Above :
      (k : K) (f : K → V → Option V) (m : List (K × V)) → Above k m → Above k (retain f m)
  unfolding retain
  retain-Above k f [] a = tt
  retain-Above k f ((j, w) ∷ m) (b, c) =
      ground (arith, retain-Above j f m c, retain-Above k f m (Above-trans k j m b c))

  pub retain-IsSorted :
      (f : K → V → Option V) (m : List (K × V)) → IsSorted m → IsSorted (retain f m)
  unfolding retain
  retain-IsSorted f [] s = tt
  retain-IsSorted f ((j, w) ∷ m) s =
      ground (arith, retain-Above j f m s, retain-IsSorted f m (Above-IsSorted j m s))

  pub get-retain :
      (k : K) (f : K → V → Option V) (m : List (K × V))
      → IsSorted m
      → get k (retain f m) ≡ and_then (get k m) (f k)
  unfolding retain get
  get-retain k f [] s = refl
  get-retain k f ((j, w) ∷ m) s = ground (
    arith,
    o.cmp_eq_iff k j,
    get-retain k f m (Above-IsSorted j m s),
    get-Above j m s,
    get-Above j (retain f m) (retain-Above j f m s),
  )

  insert-Above :
      (k j : K) (v : V) (m : List (K × V))
      → o.cmp k j ≡ Ordering.lt
      → Above k m
      → Above k (insert j v m)
  unfolding insert
  insert-Above k j v [] h a = (h, tt)
  insert-Above k j v ((i, w) ∷ m) h (b, c) =
      ground (arith, o.cmp_eq_iff j i, o.cmp_gt j i, insert-Above i j v m)

  pub insert-IsSorted : (j : K) (v : V) (m : List (K × V)) → IsSorted m → IsSorted (insert j v m)
  unfolding insert
  insert-IsSorted j v [] s = tt
  insert-IsSorted j v ((i, w) ∷ m) s =
      ground (arith, o.cmp_eq_iff j i, o.cmp_gt j i, insert-Above i j v m)

  remove-Above : (k j : K) (m : List (K × V)) → Above k m → Above k (remove j m)
  unfolding remove
  remove-Above k j [] a = tt
  remove-Above k j ((i, w) ∷ m) (b, c) =
      ground (arith, remove-Above i j m c, remove-Above k j m (Above-trans k i m b c))

  pub remove-IsSorted : (j : K) (m : List (K × V)) → IsSorted m → IsSorted (remove j m)
  unfolding remove
  remove-IsSorted j [] s = tt
  remove-IsSorted j ((i, w) ∷ m) s =
      ground (arith, remove-Above i j m s, remove-IsSorted j m (Above-IsSorted i m s))

  abbrev Agree : List (K × V) → List (K × V) → Type 0
  Agree l m = (k : K) → get k l ≡ get k m

  Agree-head :
      (i j : K) (v w : V) (l m : List (K × V))
      → Above i l
      → Above j m
      → Agree ((i, v) ∷ l) ((j, w) ∷ m)
      → (i ≡ j) × (v ≡ w)
  unfolding get
  Agree-head i j v w l m a b h =
      let above_j = λ (lt : o.cmp i j ≡ Ordering.lt). get-Above i m (Above-trans i j m lt b) in
      let above_i = λ (lt : o.cmp j i ≡ Ordering.lt). get-Above j l (Above-trans j i l lt a) in
      ground (
        arith,
        h i,
        h j,
        o.cmp_eq_iff i j,
        o.cmp_eq_iff j i,
        o.cmp_eq_iff i i,
        o.cmp_eq_iff j j,
        o.cmp_gt i j,
        above_i,
        above_j,
      )

  Agree-tail :
      (i j : K) (v w : V) (l m : List (K × V))
      → Above i l
      → Above j m
      → Agree ((i, v) ∷ l) ((j, w) ∷ m)
      → Agree l m
  unfolding get
  Agree-tail i j v w l m a b h k = ground (
    arith,
    h k,
    Agree-head i j v w l m a b h,
    o.cmp_eq_iff k i,
    o.cmp_eq_iff k j,
    get-Above i l a,
    get-Above j m b,
  )

  -- Two maps with the same lookups are the same list of pairs.
  pub get_ext :
      (l m : List (K × V)) → IsSorted l → IsSorted m → ((k : K) → get k l ≡ get k m) → l ≡ m
  unfolding get
  get_ext [] [] s t h = refl
  get_ext [] ((j, w) ∷ m) s t h = ground (arith, h j, o.cmp_eq_iff j j)
  get_ext ((i, v) ∷ l) [] s t h = ground (arith, h i, o.cmp_eq_iff i i)
  get_ext ((i, v) ∷ l) ((j, w) ∷ m) s t h =
      let tails =
        get_ext l m (Above-IsSorted i l s) (Above-IsSorted j m t) (Agree-tail i j v w l m s t h) in
      ground (arith, Agree-head i j v w l m s t h, tails)
