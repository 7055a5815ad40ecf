-- ===== src/Analysis/AccessPattern/Laws.antt =====
-- The access patterns are a join semilattice with a maximum, ordered by the sets of flags.
use fkie_cad_cwe_checker.Prelude.{◌≡◌, refl, ◌↔◌, true, ◌||◌, arith}
use fkie_cad_cwe_checker.Prelude.Key.{nat_ord}
use fkie_cad_cwe_checker.Analysis.AccessPattern
use fkie_cad_cwe_checker.Analysis.AccessPattern.{AccessPattern}

-- Every flag of `a` is a flag of `b`.
pub record Le (a b : AccessPattern) : Type 0 where
  pub derefs : a.dereferenced ≡ true → b.dereferenced ≡ true
  pub reads : a.read ≡ true → b.read ≡ true
  pub writes : a.mutably_dereferenced ≡ true → b.mutably_dereferenced ≡ true

-- `merge` gives the least upper bound: a merge lies below a pattern exactly when both of its
-- inputs do.
pub merge-IsLub : (a b c : AccessPattern) → Le (AccessPattern.merge a b) c ↔ Le a c × Le b c
unfolding AccessPattern.merge
merge-IsLub a b c = (
  λ h. (
    record {
      derefs = λ e. ground (arith, h.derefs);
      reads = λ e. ground (arith, h.reads);
      writes = λ e. ground (arith, h.writes);
    },
    record {
      derefs = λ e. ground (arith, h.derefs);
      reads = λ e. ground (arith, h.reads);
      writes = λ e. ground (arith, h.writes);
    },
  ),
  λ (h, k). record {
    derefs = λ e. ground (arith, h.derefs, k.derefs);
    reads = λ e. ground (arith, h.reads, k.reads);
    writes = λ e. ground (arith, h.writes, k.writes);
  },
)

-- `is_top` holds of exactly the patterns that every pattern lies below.
pub is_top_iff :
    (a : AccessPattern) → (AccessPattern.is_top a ≡ true) ↔ ((b : AccessPattern) → Le b a)
unfolding AccessPattern.is_top AccessPattern.new_unknown_access
is_top_iff a = (
  λ h b. record {
    derefs = λ e. ground arith;
    reads = λ e. ground arith;
    writes = λ e. ground arith;
  },
  λ h.
      let top = h AccessPattern.new_unknown_access in
      ground (arith, top.derefs refl, top.reads refl, top.writes refl),
)

-- A merge has been accessed, dereferenced or mutably dereferenced exactly when one of the two
-- patterns has been.
pub merge-accessed :
    (a b : AccessPattern)
    → (AccessPattern.is_accessed (AccessPattern.merge a b)
        ≡ (AccessPattern.is_accessed a || AccessPattern.is_accessed b))
      × (AccessPattern.is_dereferenced (AccessPattern.merge a b)
          ≡ (AccessPattern.is_dereferenced a || AccessPattern.is_dereferenced b))
      × (AccessPattern.is_mutably_dereferenced (AccessPattern.merge a b)
          ≡ (AccessPattern.is_mutably_dereferenced a || AccessPattern.is_mutably_dereferenced b))
unfolding AccessPattern.merge AccessPattern.is_accessed AccessPattern.is_dereferenced
    AccessPattern.is_mutably_dereferenced
merge-accessed a b = (ground arith, ground arith, ground arith)

-- Two patterns that are printed alike are the same.
pub fmt-injective : (a b : AccessPattern) → AccessPattern.fmt a ≡ AccessPattern.fmt b → a ≡ b
unfolding AccessPattern.fmt
fmt-injective a b h = ground arith
