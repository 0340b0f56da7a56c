-- ===== src/Merge/Plan/Served.antt =====
-- The plan and the bump mode of the allocator: what Estimate asks for serves the cells of its
-- manifest, in any order.
use hivekit.Common.{
  ℕ, ◌+◌, ◌%◌, ◌^◌, ◌<◌, ◌≡◌, refl, sym, ap₂, ◌∙◌, subst, arith, List, [], ◌∷◌, All, map, some, ok,
  true, inl, inr,
}
use hivekit.Common.Sorting.{All-perm}
use mathlib.Core.List.{Permᴰ}
use hivekit.Format.Align.{align8_i32, align8_i32_lem}
use hivekit.Alloc.{Allocator}
use hivekit.Alloc.Bump.{enable_bump_mode}
use hivekit.Alloc.Bump.Region.{InBump, Fits}
use hivekit.Alloc.Bump.Whole.{Requested, start, start-InBump, enable_bump_mode-ready, bounds}
use hivekit.Alloc.Bump.Overlap.{alloc_all, sum_cells, alloc_all-serves}
use hivekit.Merge.Trie.{Node}
use hivekit.Merge.Plan.{AllocEntry, SpacePlan, estimate}
use hivekit.Merge.Plan.Balance.{sum_sizes, IsCellSize, estimate-total}

-- The sizes of a manifest, and of any order of them.
abbrev pub sizes : List AllocEntry → List ℕ
sizes manifest = map (λ e. e.size) manifest

sum_cells-perm : {xs ys : List ℕ} → Permᴰ xs ys → sum_cells xs ≡ sum_cells ys
sum_cells-perm Permᴰ.nil = refl
sum_cells-perm (Permᴰ.cons e d) = ap₂ (λ n m. align8_i32 n + m) e (sum_cells-perm d)
sum_cells-perm (Permᴰ.swap {a = a} {b = b} {l = l} e₁ e₂) =
    let swapped : align8_i32 a + (align8_i32 b + sum_cells l)
        ≡ align8_i32 b + (align8_i32 a + sum_cells l) =
      omega arith in
    swapped ∙ ap₂ (λ n m. align8_i32 n + (align8_i32 m + sum_cells l)) e₂ e₁
sum_cells-perm (Permᴰ.trans d₁ d₂) = sum_cells-perm d₁ ∙ sum_cells-perm d₂

-- A whole cell is rounded up to itself.
align8_i32-whole : (n : ℕ) → n % 8 ≡ 0 → n + 7 < 2 ^ 31 → align8_i32 n ≡ n
align8_i32-whole n whole h = omega (arith, align8_i32_lem n h, whole)

sum_cells-sizes :
    (es : List AllocEntry)
    → All IsCellSize es
    → sum_sizes es + 7 < 2 ^ 31
    → sum_cells (sizes es) ≡ sum_sizes es
sum_cells-sizes [] cells h = refl
sum_cells-sizes (e ∷ es) ((whole, large), cells) h =
    omega
      (arith, align8_i32-whole e.size whole (omega arith), sum_cells-sizes es cells (omega arith))

sizes-Fits :
    (capacity : ℕ) (es : List AllocEntry)
    → All IsCellSize es
    → sum_sizes es + 7 + capacity < 2 ^ 31
    → All (Fits capacity) (sizes es)
sizes-Fits capacity [] cells h = tt
sizes-Fits capacity (e ∷ es) ((whole, large), cells) h =
    ((omega arith, omega arith), sizes-Fits capacity es cells (omega arith))

-- EnableBumpMode and then the allocations succeed, and fill what was asked for.
abbrev pub Serves : ℕ → List ℕ → Allocator → Type 0
Serves total needs a =
    (enabled : Allocator) × (filled : Allocator) × (enable_bump_mode true total a ≡ ok enabled)
    × (alloc_all needs enabled ≡ some filled)
    × (filled.bump.cursor ≡ total)

manifest-served :
    (manifest : List AllocEntry) (total : ℕ) (needs : List ℕ) (a : Allocator)
    → total ≡ sum_sizes manifest
    → All IsCellSize manifest
    → Requested a total
    → total + 4200 < 2 ^ 30
    → Permᴰ (sizes manifest) needs
    → Serves total needs a
manifest-served manifest total needs a sum cells asked small order =
    let b = bounds a total asked in
    let inv : InBump (start a total asked) = start-InBump a total asked [] tt in
    let fits =
      All-perm (Fits (start a total asked).bump.capacity) order
        (sizes-Fits (start a total asked).bump.capacity manifest cells (omega (arith, b, sum))) in
    let cells_sum : sum_cells needs ≡ total =
      sym (sum_cells-perm order) ∙ sum_cells-sizes manifest cells (omega (arith, sum)) ∙ sym sum in
    let up = align8_i32_lem total (omega arith) in
    let (filled, e, moved) =
      alloc_all-serves needs (start a total asked) inv fits (omega (arith, cells_sum, b, up)) in
    (
      start a total asked,
      filled,
      enable_bump_mode-ready a total asked,
      e,
      omega (arith, moved, cells_sum),
    )

-- With a plan that Estimate made of a trie, of less than 2^30 - 4,200 bytes, with the hive grown
-- and room for it in the file, EnableBumpMode of its total and then the allocations of its
-- manifest, in any order, succeed, and the cursor moves by just that total.
pub estimate-Serves :
    (root : Node) (sp : SpacePlan) (needs : List ℕ) (a : Allocator)
    → estimate root ≡ ok sp
    → Requested a sp.total_new_bytes
    → sp.total_new_bytes + 4200 < 2 ^ 30
    → Permᴰ (sizes sp.manifest) needs
    → Serves sp.total_new_bytes needs a
estimate-Serves root sp needs a h asked small order = elim (estimate-total root) [
  | inl refused ↦ cc
  | inr (sp', e, sum, cells, fits) ↦
      let same : sp' ≡ sp = cc in
      let balanced : (sp.total_new_bytes ≡ sum_sizes sp.manifest) × All IsCellSize sp.manifest =
        subst (λ p. (p.total_new_bytes ≡ sum_sizes p.manifest) × All IsCellSize p.manifest) same
          (sum, cells) in
      manifest-served sp.manifest sp.total_new_bytes needs a balanced.0 balanced.1 asked small order
]
