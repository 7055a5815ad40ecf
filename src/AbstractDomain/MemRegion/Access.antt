-- ===== src/AbstractDomain/MemRegion/Access.antt =====
-- Writing a value at an offset, reading it back, and shifting a region.
use fkie_cad_cwe_checker.Prelude.{
  ℕ, ◌+◌, ◌^◌, ◌≤◌, ◌<◌, ◌≡◌, refl, sym, ◌∙◌, ◌≢◌, ◌⊎◌, inl, inr, Bool, true, false, not, ◌&&◌,
  Option, none, some, List, arith, ◌==◌, if◌then◌else◌, Bool-cases, Option-cases,
}
use mathlib.Core.Path.{subst₂}
use fkie_cad_cwe_checker.Prelude.Outcome.{Outcome, ok, index}
use fkie_cad_cwe_checker.Prelude.Key.{nat_ord}
use fkie_cad_cwe_checker.BTreeMap
use fkie_cad_cwe_checker.BTreeMap.Laws.{get-insert, insert-IsSorted}
use fkie_cad_cwe_checker.Prelude.Word64.{as_i64, as_i64-lt}
use fkie_cad_cwe_checker.Apint.{ApInt, byte_size_from}
use fkie_cad_cwe_checker.AbstractDomain.MemRegion.{
  ValueDomain, MemRegion, insert_at_byte_index, add, get, remove, checked_position,
}
use fkie_cad_cwe_checker.AbstractDomain.MemRegion.Regions.{Fits, IsValid}
use fkie_cad_cwe_checker.AbstractDomain.MemRegion.Clear.{outside, intersects, clear_interval-Clears}

eq_self : (n : ℕ) → (n == n) ≡ true
eq_self n = ground arith

module _ {T : Type 0} (d : ValueDomain T) where
  IsValid-insert :
      (p : ℕ) (v : T) (m : List (ℕ × T))
      → IsValid d m
      → Fits d p v
      → ((k : ℕ) (w : T)
          → BTreeMap.get k m ≡ some w
          → k ≢ p
          → (k + d.bytesize w ≤ p) ⊎ (p + d.bytesize v ≤ k))
      → IsValid d (BTreeMap.insert p v m)
  IsValid-insert p v m valid f free = record {
    sorted = insert-IsSorted p v m valid.sorted;
    fits = λ k w h. elim (Bool-cases (k == p)) [
      | inl e ↦
          let same : p ≡ k = ground arith in
          let value : v ≡ w = ground (arith, get-insert p k v m) in subst₂ (Fits d) same value f
      | inr e ↦ valid.fits k w (ground (arith, get-insert p k v m))
    ];
    disjoint = λ j k u w h h' lt.
        let size = f.has_size in
        ground (
          arith,
          get-insert p j v m,
          get-insert p k v m,
          valid.disjoint j k u w,
          free j u,
          free k w,
        );
  }

  -- `r` is a normal return of a valid region, which holds the value at the position, unless it is
  -- `Top`, and else the elements that share no byte with it.
  pub record Writes (value : T) (position : ℕ) (before : MemRegion T) (r : Outcome (MemRegion T))
      : Type 0 where
    pub out : MemRegion T
    pub returns : r ≡ ok out
    pub same_address : out.address_bytesize ≡ before.address_bytesize
    pub valid : IsValid d out.values
    pub lookup :
        (k : ℕ)
        → BTreeMap.get k out.values ≡ (
            if k == position
            then (if d.is_top value then none else some value)
            else outside d position (position + d.bytesize value) k (BTreeMap.get k before.values))

  outside-free :
      (start end k : ℕ) (o : Option T) (w : T)
      → outside d start end k o ≡ some w
      → (k + d.bytesize w ≤ start) ⊎ (end ≤ k)
  outside-free start end k none w h = absurd (ground arith)
  outside-free start end k (some v) w h = ground arith

  outside-at :
      (start size : ℕ) (m : List (ℕ × T))
      → IsValid d m
      → 0 < size
      → outside d start (start + size) start (BTreeMap.get start m) ≡ none
  outside-at start size m valid pos = elim (Option-cases (BTreeMap.get start m)) [
    | inl a ↦ rw a
    | inr (w, a) ↦ let has = Fits.has_size (valid.fits start w a) in ground arith
  ]

  -- Writing a value of positive size that ends before the last address to a valid region does not
  -- panic. Afterwards the position holds the value, or nothing if the value is `Top`, the elements
  -- that share a byte with it are gone, all others are unchanged, and the region is valid.
  pub insert_at_byte_index-Writes :
      (empty_root : Bool) (value : T) (position : ℕ) (r : MemRegion T)
      → IsValid d r.values
      → 0 < d.bytesize value
      → d.bytesize value < 2 ^ 63
      → position + d.bytesize value < 2 ^ 64
      → Writes value position r (insert_at_byte_index d empty_root value position r)
  unfolding insert_at_byte_index
  insert_at_byte_index-Writes empty_root value position r valid pos small ends =
      let end = position + d.bytesize value in
      let c =
        clear_interval-Clears d empty_root position (d.bytesize value) r.values valid small ends in
      let signed = as_i64-lt (d.bytesize value) small in
      elim (Bool-cases (d.is_top value)) [
        | inl unknown ↦ record {
          out = record r { values = c.out };
          returns = ground (arith, c.returns);
          same_address = refl;
          valid = c.valid;
          lookup = λ k. elim (Bool-cases (k == position)) [
            | inl e ↦
                let same : k ≡ position = ground arith in
                rw (same, unknown)
                  (rw (eq_self position)
                    (c.lookup position ∙ outside-at position (d.bytesize value) r.values valid pos))
            | inr e ↦ ground (arith, c.lookup k)
          ];
        }
        | inr known ↦ record {
          out = record r { values = BTreeMap.insert position value c.out };
          returns = ground (arith, c.returns);
          same_address = refl;
          valid =
              IsValid-insert position value c.out c.valid
                (record { has_size = pos; small = small; ends = ends; known = known })
                (λ k w h other.
                  outside-free position end k (BTreeMap.get k r.values) w (sym (c.lookup k) ∙ h));
          lookup = λ k. ground (arith, get-insert position k value c.out, c.lookup k);
        }
      ]

  module _ (api : ApInt) (position : api.Bitvector) (index : ℕ) (r : MemRegion T) where
    -- The bitvector is an address of the region, and stands for the offset.
    pub record Addresses : Type 0 where
      pub width_fits : byte_size_from (api.width position) ≡ r.address_bytesize
      pub offset : api.try_to_i64 position ≡ some index

  checked-ok :
      (api : ApInt) (position : api.Bitvector) (index : ℕ) (r : MemRegion T)
      → Addresses api position index r
      → checked_position d api position r ≡ ok index
  unfolding checked_position
  checked-ok api position index r a =
      let same = a.width_fits in let found = a.offset in ground arith

  -- A value that was added is read back: at its position and size as it is, or as the `Top` value
  -- of that size if it is `Top`; with another size as the `Top` value of that size.
  pub get-add :
      (empty_root : Bool) (api : ApInt) (position : api.Bitvector) (index size : ℕ) (value : T)
      (r : MemRegion T)
      → Addresses api position index r
      → IsValid d r.values
      → 0 < d.bytesize value
      → d.bytesize value < 2 ^ 63
      → index + d.bytesize value < 2 ^ 64
      → (r' : MemRegion T) × (add d api empty_root value position r ≡ ok r')
        × (get d api position size r'
            ≡ ok (
                if not (d.is_top value) && d.bytesize value == size then value else d.new_top size))
  unfolding add get
  get-add empty_root api position index size value r a valid pos small ends =
      let w = insert_at_byte_index-Writes empty_root value index r valid pos small ends in
      let here = checked-ok api position index r a in
      let there =
        checked-ok api position index w.out
          (record { width_fits = a.width_fits ∙ sym w.same_address; offset = a.offset }) in
      (w.out, rw here w.returns, rw there (ground (arith, w.lookup index)))

  -- Adding a value leaves what is read at another position as it was, if the element there shares
  -- no byte with the value.
  pub get-add_ne :
      (empty_root : Bool) (api : ApInt) (position other : api.Bitvector) (index j size : ℕ)
      (value : T) (r : MemRegion T)
      → Addresses api position index r
      → Addresses api other j r
      → IsValid d r.values
      → 0 < d.bytesize value
      → d.bytesize value < 2 ^ 63
      → index + d.bytesize value < 2 ^ 64
      → j ≢ index
      → ((w : T)
          → BTreeMap.get j r.values ≡ some w
          → intersects d index (index + d.bytesize value) j w ≡ false)
      → (r' : MemRegion T) × (add d api empty_root value position r ≡ ok r')
        × (get d api other size r' ≡ get d api other size r)
  unfolding add get
  get-add_ne empty_root api position other index j size value r a b valid pos small ends ne apart =
      let w = insert_at_byte_index-Writes empty_root value index r valid pos small ends in
      let here = checked-ok api position index r a in
      let before = checked-ok api other j r b in
      let there =
        checked-ok api other j w.out
          (record { width_fits = b.width_fits ∙ sym w.same_address; offset = b.offset }) in
      (
        w.out,
        rw here w.returns,
        rw (there, before)
            (elim (Option-cases (BTreeMap.get j r.values)) [
              | inl e ↦ ground (arith, w.lookup j)
              | inr (v, e) ↦ ground (arith, w.lookup j, apart v e)
            ]),
      )

  -- Removing an interval of a valid region that ends before the last address removes exactly the
  -- elements that share a byte with it.
  pub remove-Clears :
      (empty_root : Bool) (api : ApInt) (position size_in_bytes : api.Bitvector) (index size : ℕ)
      (r : MemRegion T)
      → Addresses api position index r
      → api.try_to_i64 size_in_bytes ≡ some (as_i64 size)
      → IsValid d r.values
      → 0 < size
      → size < 2 ^ 63
      → index + size < 2 ^ 64
      → (r' : MemRegion T) × (remove d api empty_root position size_in_bytes r ≡ ok r')
        × IsValid d r'.values
        × ((k : ℕ)
            → BTreeMap.get k r'.values ≡ outside d index (index + size) k (BTreeMap.get k r.values))
  unfolding remove
  remove-Clears empty_root api position size_in_bytes index size r a amount valid pos small ends =
      let c = clear_interval-Clears d empty_root index size r.values valid small ends in
      let here = checked-ok api position index r a in
      let signed = as_i64-lt size small in
      (record r { values = c.out }, ground (arith, c.returns), c.valid, c.lookup)
