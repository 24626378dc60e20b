-- ===== src/Engine/Load/Cells.antt =====
-- What the kernels find in the B buffers, and that the look-up of a tensor has a result.
use npu_gpu_cpu.Prelude.{
  ℕ, ◌+◌, ◌*◌, ◌-◌, ◌<◌, ◌≡◌, refl, ◌∙◌, ap, ℤ, Array, ltb, Option, some, none, ◌≢◌, List,
  if◌then◌else◌,
}
use npu_gpu_cpu.Prelude.Index.{index-lt}
use npu_gpu_cpu.Engine.Floats.{Floats}
use npu_gpu_cpu.Engine.Fuse.{fuse_qkv, fuse_gate_up}
use npu_gpu_cpu.Engine.Fuse.Cells.{fuse_qkv_cells, fuse_gate_up_cells}
use npu_gpu_cpu.Engine.I8Ctx.{quantise, usable, abs_max}
use npu_gpu_cpu.Engine.I8Ctx.Quantise.{pack_b_cells}
use npu_gpu_cpu.Engine.Json.{jo}
use npu_gpu_cpu.Engine.Json.Entry.{jo_total}
use npu_gpu_cpu.Engine.Load.{bytes, hsz, i8p, number, offset, Offsets, pack_qkv, pack_gate_up}

-- The offset of a tensor is what `jo` gives for its name in the header.
offset-jo :
    (md : ℕ → ℕ) (size : ℕ) (nm : List ℕ)
    → jo nm (bytes md 8 (hsz md)) (bytes md (8 + hsz md) (size - (8 + hsz md)))
      ≡ some (offset md size nm)
unfolding offset
offset-jo md size nm = some_number _ (jo_total nm _ _)
  where
    some_number : (x : Option ℕ) → x ≢ none → x ≡ some (number x)
    some_number none ne = absurd (ne refl)
    some_number (some o) ne = refl

module _ {F D : Type 0} (f : Floats F D) (dequant : ℕ → ℕ → Array F × ℕ) (b_m : Array ℤ)
    (md : ℕ → ℕ) (lo : Offsets) where
  -- The factor by which a matrix of n elements is quantised.
  abbrev pub factor : Array F → ℕ → F
  factor w n = f.div f.f127 (usable f (abs_max f w n))

  -- The columns of a matrix, by what `dequant_i8_to_float` stores.
  abbrev pub columns : ℕ → ℕ → ℕ
  columns o n = (dequant (i8p md o) n).1

  -- The B buffer of the QKV context holds, in row k, the rows k of Q, K and V side by side, quantised by
  -- one factor, which comes from the joined matrix.
  pub pack_qkv_cells :
      (k c : ℕ)
      → k < 1024
      → c < columns lo.qp 256 + columns lo.kp 128 + columns lo.vp 128
      → let (qw, qr) = dequant (i8p md lo.qp) 256 in
        let (kw, kr) = dequant (i8p md lo.kp) 128 in
        let (vw, vr) = dequant (i8p md lo.vp) 128 in
        let t = qr + kr + vr in
        let joined = fuse_qkv 1024 qr kr vr qw kw vw (λ _. f.zero) in
        (pack_qkv f dequant b_m md lo).1 (k * t + c)
        ≡ quantise f (factor joined (1024 * t)) (
            if ltb c qr
            then qw (k * qr + c)
            else if ltb c (qr + kr)
            then kw (k * kr + (c - qr))
            else vw (k * vr + (c - (qr + kr))))
  unfolding pack_qkv
  pack_qkv_cells k c hk hc =
      (pack_b_cells f _ 1024 _ b_m _ (index-lt k c 1024 _ hk hc)).0
      ∙ ap (quantise f _) (fuse_qkv_cells 1024 _ _ _ _ _ _ _ k c hk hc)

  -- The same for the gate and up matrices.
  pub pack_gate_up_cells :
      (k c : ℕ)
      → k < 1024
      → c < columns lo.gp 384 + columns lo.up 384
      → let (gw, gr) = dequant (i8p md lo.gp) 384 in
        let (uw, ur) = dequant (i8p md lo.up) 384 in
        let t = gr + ur in
        let joined = fuse_gate_up 1024 gr ur gw uw (λ _. f.zero) in
        (pack_gate_up f dequant b_m md lo).1 (k * t + c)
        ≡ quantise f
            (factor joined (1024 * t))
            (if ltb c gr then gw (k * gr + c) else uw (k * ur + (c - gr)))
  unfolding pack_gate_up
  pack_gate_up_cells k c hk hc =
      (pack_b_cells f _ 1024 _ b_m _ (index-lt k c 1024 _ hk hc)).0
      ∙ ap (quantise f _) (fuse_gate_up_cells 1024 _ _ _ _ _ k c hk hc)
