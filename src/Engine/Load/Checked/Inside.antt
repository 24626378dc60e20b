-- ===== src/Engine/Load/Checked/Inside.antt =====
-- When the weights of a layer fit the buffers of the contexts, their loading makes no access outside.
use npu_gpu_cpu.Prelude.{
  ℕ, ◌*◌, ◌≡◌, refl, ◌∙◌, ℤ, Array, Bool, true, false, ◌&&◌, none, some, leb, if◌then◌else◌, arith,
}
use native.Mathlib.Decide.{dec_lt}
use npu_gpu_cpu.Prelude.Checked.{◌>>=◌, bind_some}
use npu_gpu_cpu.Engine.Floats.{Floats}
use npu_gpu_cpu.Engine.Fuse.Checked.{fuse_qkv_checked_lem, fuse_gate_up_checked_lem}
use npu_gpu_cpu.Engine.I8Ctx.{pack_b}
use npu_gpu_cpu.Engine.I8Ctx.Bound.{pack_b_checked, pack_b_inside, pack_b_overrun}
use npu_gpu_cpu.Engine.Load.{
  Offsets, offsets, norm_weights, pack_qkv, pack_o, pack_gate_up, pack_down, Kernels, load_layer,
}
use npu_gpu_cpu.Engine.Load.Checked.{
  qkv_rows, o_rows, gate_up_rows, down_rows, pack_qkv_checked, pack_o_checked, pack_gate_up_checked,
  pack_down_checked, load_layer_checked, fits,
}

-- Four steps that fail by a test each.
four_steps :
    {A B C D R : Type 0} (b c d e : Bool) (x : A) (y : B) (z : C) (u : D) (r : A → B → C → D → R)
    → ((if b then some x else none) >>= λ x'. (if c then some y else none) >>= λ y'.
        (if d then some z else none) >>= λ z'.
        (if e then some u else none) >>= λ u'. some (r x' y' z' u'))
      ≡ (if b && (c && (d && e)) then some (r x y z u) else none)
four_steps false c d e x y z u r = refl
four_steps true false d e x y z u r = refl
four_steps true true false e x y z u r = refl
four_steps true true true false x y z u r = refl
four_steps true true true true x y z u r = refl

module _ {F D : Type 0} (f : Floats F D) where
  -- `packB` of a matrix of r * 1024 elements into a buffer of n * 1024.
  pack_rows :
      (n r : ℕ) (w : Array F) (b_m : Array ℤ)
      → pack_b_checked f (r * 1024) (n * 1024) w r 1024 b_m
        ≡ (if leb r n then some (pack_b f w r 1024 b_m) else none)
  pack_rows n r w b_m = elim (dec_lt n r) [
    | yes lt ↦ pack_b_overrun f (r * 1024) (n * 1024) w r 1024 b_m (omega arith) ∙ ground arith
    | no ge ↦
        pack_b_inside f (r * 1024) (n * 1024) w r 1024 b_m (omega arith) (omega arith)
        ∙ ground arith
  ]

  pack_columns :
      (n t : ℕ) (w : Array F) (b_m : Array ℤ)
      → pack_b_checked f (1024 * t) (1024 * n) w 1024 t b_m
        ≡ (if leb t n then some (pack_b f w 1024 t b_m) else none)
  pack_columns n t w b_m = elim (dec_lt n t) [
    | yes lt ↦ pack_b_overrun f (1024 * t) (1024 * n) w 1024 t b_m (omega arith) ∙ ground arith
    | no ge ↦
        pack_b_inside f (1024 * t) (1024 * n) w 1024 t b_m (omega arith) (omega arith)
        ∙ ground arith
  ]

module _ {F D : Type 0} (f : Floats F D) (dequant : ℕ → ℕ → Array F × ℕ) (b_m : Array ℤ)
    (md : ℕ → ℕ) where
  pack_qkv_checked_lem :
      (lo : Offsets)
      → pack_qkv_checked f dequant b_m md lo ≡ (
          if leb (qkv_rows f dequant b_m md lo) 4096
          then some (pack_qkv f dequant b_m md lo)
          else none)
  unfolding pack_qkv_checked pack_qkv
  pack_qkv_checked_lem lo =
      bind_some _ (fuse_qkv_checked_lem 1024 _ _ _ _ _ _ (λ _. f.zero))
        (pack_columns f 4096 (qkv_rows f dequant b_m md lo) _ b_m)

  pack_gate_up_checked_lem :
      (lo : Offsets)
      → pack_gate_up_checked f dequant b_m md lo ≡ (
          if leb (gate_up_rows f dequant b_m md lo) 6144
          then some (pack_gate_up f dequant b_m md lo)
          else none)
  unfolding pack_gate_up_checked pack_gate_up
  pack_gate_up_checked_lem lo =
      bind_some _ (fuse_gate_up_checked_lem 1024 _ _ _ _ (λ _. f.zero))
        (pack_columns f 6144 (gate_up_rows f dequant b_m md lo) _ b_m)

  pack_o_checked_lem :
      (lo : Offsets)
      → pack_o_checked f dequant b_m md lo ≡ (
          if leb (o_rows f dequant b_m md lo) 2048 then some (pack_o f dequant b_m md lo) else none)
  unfolding pack_o_checked pack_o
  pack_o_checked_lem lo = pack_rows f 2048 (o_rows f dequant b_m md lo) _ b_m

  pack_down_checked_lem :
      (lo : Offsets)
      → pack_down_checked f dequant b_m md lo ≡ (
          if leb (down_rows f dequant b_m md lo) 3072
          then some (pack_down f dequant b_m md lo)
          else none)
  unfolding pack_down_checked pack_down
  pack_down_checked_lem lo = pack_rows f 3072 (down_rows f dequant b_m md lo) _ b_m

module _ {F D : Type 0} (f : Floats F D) (blank : Array F) (b_m : Array ℤ)
    (dequant : ℕ → ℕ → Array F × ℕ) where
  -- The joining and packing of a layer's weights makes no access outside of a vector, a matrix or a buffer
  -- of the NPU exactly if Q, K and V have at most 4096 rows together, O at most 2048, gate and up at most
  -- 6144 together, and down at most 3072; then it is the loading without the checks.
  pub load_layer_checked_lem :
      (run : Kernels) (md : ℕ → ℕ) (size l : ℕ)
      → load_layer_checked f blank b_m dequant run md size l ≡ (
          if fits f blank b_m dequant md size l
          then some (load_layer f blank b_m dequant run md size l)
          else none)
  unfolding load_layer_checked load_layer
  load_layer_checked_lem run md size l =
      let lo = offsets md size l in
      rw
        (
          pack_qkv_checked_lem f dequant b_m md lo,
          pack_o_checked_lem f dequant b_m md lo,
          pack_gate_up_checked_lem f dequant b_m md lo,
          pack_down_checked_lem f dequant b_m md lo,
        )
        (four_steps (leb (qkv_rows f dequant b_m md lo) 4096)
          (leb (o_rows f dequant b_m md lo) 2048) (leb (gate_up_rows f dequant b_m md lo) 6144)
          (leb (down_rows f dequant b_m md lo) 3072) (pack_qkv f dequant b_m md lo)
          (pack_o f dequant b_m md lo) (pack_gate_up f dequant b_m md lo)
          (pack_down f dequant b_m md lo)
          (λ q o g d. record {
            in_n = norm_weights f blank md lo.in_off 1024;
            pa_n = norm_weights f blank md lo.pa_off 1024;
            qn_w = norm_weights f blank md lo.qn_off 128;
            kn_w = norm_weights f blank md lo.kn_off 128;
            qk = q.0;
            o_ = o.0;
            g_ = g.0;
            d_ = d.0;
            run_q = λ a. run.cq a q.1;
            run_o = λ a. run.co a o.1;
            run_g = λ a. run.cg a g.1;
            run_d = λ a. run.cd a d.1;
          }))
