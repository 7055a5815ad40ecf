-- ===== src/AbstractDomain/MemRegion/Refused.antt =====
-- When the methods of src/cwe_checker_lib/src/abstract_domain/mem_region.rs that write values panic.
use fkie_cad_cwe_checker.Prelude.Key.{nat_ord}
use fkie_cad_cwe_checker.BTreeMap
use fkie_cad_cwe_checker.BTreeMap.Range.{range, remove_all, has_root}
use fkie_cad_cwe_checker.Prelude.{
  ℕ, ◌+◌, ◌^◌, ◌≤◌, ◌<◌, ◌≡◌, ◌⊎◌, inl, inr, Bool, true, arith, Bool-cases, below_or_not, ltb, ◌&&◌,
  if◌then◌else◌, false, not, List, refl,
}
use fkie_cad_cwe_checker.Prelude.Outcome.{ok, panic}
use fkie_cad_cwe_checker.Prelude.Word64.{as_i64, as_i64-lt, i64_add-size, i64_add_wraps, i64_add}
use fkie_cad_cwe_checker.AbstractDomain.MemRegion.{
  ValueDomain, MemRegion, clear_interval, insert_at_byte_index, clear_before,
}

module _ {T : Type 0} (d : ValueDomain T) where
  negative_size : (size : ℕ) → 2 ^ 63 ≤ size → size < 2 ^ 64 → as_i64 size < 2 ^ 63
  unfolding as_i64
  negative_size size h k = omega (arith, h, k)

  -- The size of the value is 0 or no `i64`, or the value reaches the last address or wraps around and
  -- the map of the region has a root node.
  abbrev pub Refuses : Bool → T → ℕ → MemRegion T → Type 0
  Refuses empty_root value position r =
      (d.bytesize value ≡ 0)
      ⊎ ((2 ^ 63 ≤ d.bytesize value)
          ⊎ ((2 ^ 64 ≤ position + d.bytesize value) × (has_root empty_root r.values ≡ true)))

  clear_interval-ok :
      (empty_root : Bool) (position size : ℕ) (m : List (ℕ × T))
      → (ltb (i64_add position size) position && has_root empty_root m) ≡ false
      → (out : List (ℕ × T)) × (clear_interval d empty_root position size m ≡ ok out)
  unfolding clear_interval
  clear_interval-ok empty_root position size m h =
      let cleared : List (ℕ × T) = clear_before d position m in
      (remove_all (range position (i64_add position size) cleared) cleared, rw h refl)

  insert-ok :
      (empty_root : Bool) (value : T) (position : ℕ) (r : MemRegion T) (out : List (ℕ × T))
      → ltb (2 ^ 63) (as_i64 (d.bytesize value)) ≡ true
      → clear_interval d empty_root position (as_i64 (d.bytesize value)) r.values ≡ ok out
      → (r' : MemRegion T) × (insert_at_byte_index d empty_root value position r ≡ ok r')
  unfolding insert_at_byte_index
  insert-ok empty_root value position r out positive h = (
    record r { values = if not (d.is_top value) then BTreeMap.insert position value out else out },
    ground (arith, positive, h),
  )

  -- For every region, valid or not, every offset and every value whose size is a `u64`:
  -- `insert_at_byte_index` panics exactly if the size of the value is 0 or at least 2 ^ 63, or if the
  -- written bytes reach the last address or wrap around and the map of the region has a root node, which
  -- every map with an entry has. Otherwise it returns.
  pub insert_at_byte_index-Refuses :
      (empty_root : Bool) (value : T) (position : ℕ) (r : MemRegion T)
      → d.bytesize value < 2 ^ 64
      → position < 2 ^ 64
      → (Refuses empty_root value position r
          × (insert_at_byte_index d empty_root value position r ≡ panic))
        ⊎ (¬ (Refuses empty_root value position r)
            × ((r' : MemRegion T) × (insert_at_byte_index d empty_root value position r ≡ ok r')))
  unfolding insert_at_byte_index clear_interval
  insert_at_byte_index-Refuses empty_root value position r u64 inside =
      let size : ℕ = d.bytesize value in
      elim (below_or_not 0 size) [
        | inr empty ↦
            let none_left = as_i64-lt size (omega (arith, empty)) in
            inl (inl (omega (arith, empty)), ground (arith, none_left, empty))
        | inl positive ↦ elim (below_or_not size (2 ^ 63)) [
          | inr large ↦ inl (inr (inl large), ground (arith, negative_size size large u64))
          | inl small ↦
              let signed = as_i64-lt size small in
              elim (below_or_not (position + size) (2 ^ 64)) [
                | inl fits ↦
                    let end = i64_add-size position size small fits in
                    let (out, run) =
                      clear_interval-ok empty_root position (as_i64 size) r.values
                        (ground (arith, end)) in
                    inr (
                      (λ refuses. elim refuses [
                        | inl empty ↦ omega (arith, empty, positive)
                        | inr other ↦ elim other [
                          | inl large ↦ omega (arith, large, small)
                          | inr (wraps, rooted) ↦ omega (arith, wraps, fits)
                        ]
                      ]),
                      insert-ok empty_root value position r out (ground (arith, signed, positive))
                          run,
                    )
                | inr wraps ↦
                    let end = i64_add_wraps position size small inside (omega (arith, wraps)) in
                    elim (Bool-cases (has_root empty_root r.values)) [
                      | inl rooted ↦ inl (
                        inr (inr (wraps, rooted)),
                        ground (arith, signed, positive, end, small, inside, rooted),
                      )
                      | inr rootless ↦
                          let (out, run) =
                            clear_interval-ok empty_root position (as_i64 size) r.values
                              (ground (arith, rootless)) in
                          inr (
                            (λ refuses. elim refuses [
                              | inl empty ↦ omega (arith, empty, positive)
                              | inr other ↦ elim other [
                                | inl large ↦ omega (arith, large, small)
                                | inr (wraps, rooted) ↦ ground (arith, rooted, rootless)
                              ]
                            ]),
                            insert-ok empty_root value position r out
                                (ground (arith, signed, positive)) run,
                          )
                    ]
              ]
        ]
      ]
