-- ===== src/Daemon/Policy.antt =====
-- Which sizes the patterns give.
use npu_gpu_cpu.Prelude.{codes, ℕ, ◌≤◌, ◌≡◌, ◌≢◌, true, ◌⊎◌, inl, inr, [], ◌∷◌, starts_with, arith}
use npu_gpu_cpu.Daemon.{Text, contains, first_size, cpu, select_device, estimate_model_size}

starts_with-contains : (p s : Text) → starts_with p s ≡ true → contains p s ≡ true
unfolding contains
starts_with-contains p [] h = h
starts_with-contains p (c ∷ s) h = ground (arith, h)

-- A text that contains a word contains the word without its first letter.
contains_tail : (c : ℕ) (p s : Text) → contains (c ∷ p) s ≡ true → contains p s ≡ true
unfolding contains starts_with
contains_tail c p [] h = ground arith
contains_tail c p (d ∷ s) h = ground (arith, starts_with-contains p s, contains_tail c p s)

module _ (lower : Text → Text) (name : Text) where
  below_3 : contains (codes "3b") (lower name) ≡ true → estimate_model_size lower name ≤ 40
  unfolding estimate_model_size first_size
  below_3 h = ground arith

  below_4 : contains (codes "4b") (lower name) ≡ true → estimate_model_size lower name ≤ 40
  unfolding estimate_model_size first_size
  below_4 h = ground arith

  -- The patterns "13b", "14b" and "34b" are never reached, since "3b" or "4b" is found before them: a
  -- model whose name contains one of them is taken for one of at most 4 billion parameters, and not sent
  -- to the CPU.
  pub estimate_model_size-shadowed :
      (pattern : Text)
      → (pattern ≡ codes "13b") ⊎ (pattern ≡ codes "14b") ⊎ (pattern ≡ codes "34b")
      → contains pattern (lower name) ≡ true
      → (estimate_model_size lower name ≤ 40)
        × (select_device (estimate_model_size lower name) ≢ cpu)
  unfolding select_device
  estimate_model_size-shadowed pattern which h =
      let small = small which in (small, ground (arith, small))
    where
      small :
          (pattern ≡ codes "13b") ⊎ (pattern ≡ codes "14b") ⊎ (pattern ≡ codes "34b")
          → estimate_model_size lower name ≤ 40
      small (inl e) = below_3 (contains_tail 49 (codes "3b") (lower name) (rw e at h))
      small (inr (inl e)) = below_4 (contains_tail 49 (codes "4b") (lower name) (rw e at h))
      small (inr (inr e)) = below_4 (contains_tail 51 (codes "4b") (lower name) (rw e at h))
