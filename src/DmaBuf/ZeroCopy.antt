-- ===== src/DmaBuf/ZeroCopy.antt =====
-- `test_zero_copy` in tests/test_gtt_dmabuf.cpp. A mapping is the function from the index of a word to
-- the word of memory that stands there, so that two mappings can share words in any way.
use npu_gpu_cpu.Prelude.{
  ℕ, zero, suc, ◌+◌, ◌≤◌, ◌<◌, ◌≡◌, refl, sym, ap, ◌∙◌, Option, none, some, ◌⊎◌, inl, inr, Array,
  write, for_to, ◌==◌, if◌then◌else◌, arith,
}
use native.Mathlib.Decide.{ℕ_discrete}

abbrev pub Mapping : Type 0
Mapping = ℕ → ℕ

-- The result, with the index of the word that the program prints.
pub data Verdict : Type 0 where
  passed : Verdict
  npu_differs gpu_differs : ℕ → Verdict

-- `for(size_t i=0;i<num_words;i++)ptr[i]=v;`
unfoldable pub fill : Mapping → ℕ → ℕ → Array ℕ → Array ℕ
fill words v n = for_to n λ i. write (words i) v

-- The loop that compares, from i on, with `left` words to go.
unfoldable pub first_mismatch : Mapping → ℕ → Array ℕ → ℕ → ℕ → Option ℕ
first_mismatch words v m i zero = none
first_mismatch words v m i (suc left) =
    let rest = first_mismatch words v m (suc i) left in if m (words i) == v then rest else some i

unfoldable pub test_zero_copy : Mapping → Mapping → ℕ → Array ℕ → Verdict × Array ℕ
unfolding fill first_mismatch
test_zero_copy gpu npu n m =
    let written = fill gpu 0xDEADBEEF n m in
    let overwritten = fill npu 0xCAFEBABE n written in
    elim (first_mismatch npu 0xDEADBEEF written 0 n) [
      | some i ↦ (npu_differs i, written)
      | none ↦ elim (first_mismatch gpu 0xCAFEBABE overwritten 0 n) [
        | some i ↦ (gpu_differs i, overwritten)
        | none ↦ (passed, overwritten)
      ]
    ]

module _ (words : Mapping) (v : ℕ) where
  fill_inside : (n : ℕ) (m : Array ℕ) (i : ℕ) → i < n → fill words v n m (words i) ≡ v
  unfolding fill for_to
  fill_inside zero m i lt = absurd (omega arith)
  fill_inside (suc n) m i lt = elim (ℕ_discrete i n) [
    | yes e ↦ rw e (ground arith)
    | no ne ↦ ground (arith, fill_inside n m i)
  ]

  -- A word that the mapping does not have is kept.
  fill-cases :
      (n : ℕ) (m : Array ℕ) (q : ℕ)
      → ((i : ℕ) × (i < n) × (words i ≡ q)) ⊎ (fill words v n m q ≡ m q)
  unfolding fill for_to
  fill-cases zero m q = inr refl
  fill-cases (suc n) m q = elim (ℕ_discrete (words n) q) [
    | yes e ↦ inl (n, omega arith, e)
    | no ne ↦ elim (fill-cases n m q) [
      | inl (i, lt, e) ↦ inl (i, omega arith, e)
      | inr kept ↦ inr (ground (arith, kept))
    ]
  ]

  module _ (m : Array ℕ) where
    all_equal :
        (i left : ℕ)
        → first_mismatch words v m i left ≡ none
        → (j : ℕ) → i ≤ j
        → j < i + left
        → m (words j) ≡ v
    unfolding first_mismatch
    all_equal i zero h j le lt = absurd (omega arith)
    all_equal i (suc left) h j le lt = elim (ℕ_discrete i j) [
      | yes e ↦ rw (sym e) (ground arith)
      | no ne ↦ all_equal (suc i) left (ground arith) j (omega arith) (omega arith)
    ]

    no_mismatch :
        (i left : ℕ)
        → ((j : ℕ) → i ≤ j → j < i + left → m (words j) ≡ v)
        → first_mismatch words v m i left ≡ none
    unfolding first_mismatch
    no_mismatch i zero h = refl
    no_mismatch i (suc left) h = ground (
      arith,
      h i (omega arith) (omega arith),
      no_mismatch (suc i) left (λ j le lt. h j (omega arith) (omega arith)),
    )

module _ (gpu npu : Mapping) (n : ℕ) (m : Array ℕ) where
  written : Array ℕ
  written = fill gpu 0xDEADBEEF n m

  overwritten : Array ℕ
  overwritten = fill npu 0xCAFEBABE n written

  test_zero_copy_parts :
      (test_zero_copy gpu npu n m).0 ≡ passed
      → (first_mismatch npu 0xDEADBEEF written 0 n ≡ none)
        × (first_mismatch gpu 0xCAFEBABE overwritten 0 n ≡ none)
        × ((test_zero_copy gpu npu n m).1 ≡ overwritten)
  unfolding test_zero_copy written overwritten
  test_zero_copy_parts h = ground arith

  -- What a pass shows: every word of the GPU's mapping is one of the NPU's mapping, and every word of the
  -- NPU's mapping is one of the GPU's mapping or held 0xDEADBEEF before; and all of them hold 0xCAFEBABE
  -- at the end.
  pub test_zero_copy-passed :
      (test_zero_copy gpu npu n m).0 ≡ passed
      → (i : ℕ) → i < n
      → ((j : ℕ) × (j < n) × (npu j ≡ gpu i))
        × (((j : ℕ) × (j < n) × (gpu j ≡ npu i)) ⊎ (m (npu i) ≡ 0xDEADBEEF))
        × ((test_zero_copy gpu npu n m).1 (gpu i) ≡ 0xCAFEBABE)
        × ((test_zero_copy gpu npu n m).1 (npu i) ≡ 0xCAFEBABE)
  unfolding written overwritten
  test_zero_copy-passed h i lt =
      let (read, read_back, after) = test_zero_copy_parts h in
      let back = all_equal gpu 0xCAFEBABE overwritten 0 n read_back i (omega arith) (omega arith) in
      (
        elim (fill-cases npu 0xCAFEBABE n written (gpu i)) [
          | inl found ↦ found
          | inr kept ↦ absurd (omega (arith, kept, back, fill_inside gpu 0xDEADBEEF n m i lt))
        ],
        elim (fill-cases gpu 0xDEADBEEF n m (npu i)) [
          | inl found ↦ inl found
          | inr kept ↦
              inr
                (sym kept ∙ all_equal npu 0xDEADBEEF written 0 n read i (omega arith) (omega arith))
        ],
        ap (λ t. t (gpu i)) after ∙ back,
        ap (λ t. t (npu i)) after ∙ fill_inside npu 0xCAFEBABE n written i lt,
      )

  -- Two mappings of the same words pass, whatever the memory holds.
  pub test_zero_copy-same :
      ((i : ℕ) → i < n → npu i ≡ gpu i) → (test_zero_copy gpu npu n m).0 ≡ passed
  unfolding test_zero_copy written overwritten
  test_zero_copy-same same = ground (
    arith,
    no_mismatch npu 0xDEADBEEF written 0 n (λ j le lt.
        ap written (same j (omega arith)) ∙ fill_inside gpu 0xDEADBEEF n m j (omega arith)),
    no_mismatch gpu 0xCAFEBABE overwritten 0 n (λ j le lt.
        ap overwritten (sym (same j (omega arith)))
        ∙ fill_inside npu 0xCAFEBABE n written j (omega arith)),
  )
