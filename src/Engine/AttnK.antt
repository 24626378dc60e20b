-- ===== src/Engine/AttnK.antt =====
-- `AttnK::run`: Q, K and V packed into the kernel's input as pairs of bf16, and its output unpacked.
pub mod Regions
pub mod Layout
pub mod Run
use npu_gpu_cpu.Prelude.{
  ℕ, zero, suc, ◌+◌, ◌*◌, ◌/◌, ◌%◌, ◌^◌, Array, write, for_to, ltb, if◌then◌else◌,
}
use npu_gpu_cpu.Engine.Bf16.{f2bf, bf16f, isfinite}

-- Q_DW, K_DW and V_DW; WQH, WKVH and HD / 2.
abbrev pub q_dw : ℕ
q_dw = 256

abbrev pub k_dw : ℕ
k_dw = 2048

abbrev pub v_dw : ℕ
v_dw = 2048

abbrev pub wqh : ℕ
wqh = 4

abbrev pub wkvh : ℕ
wkvh = 2

abbrev pub hd : ℕ
hd = 128

-- `(f2bf(a) << 16) | f2bf(b)`, a 32-bit word; the halves do not overlap.
unfoldable pub pack_pair : ℕ → ℕ → ℕ
pack_pair a b = f2bf a * 2 ^ 16 + f2bf b

-- `memset(in_m, 0, …)` over the whole input buffer.
pub clear : Array ℕ → Array ℕ
clear in_m i = if ltb i (q_dw + 2 * k_dw + 2 * v_dw) then 0 else in_m i

pub pack_q : Array ℕ → Array ℕ → Array ℕ
pack_q q4 = for_to wqh λ h.
    for_to (hd / 2) λ dm.
      write (h * (hd / 2) + dm) (pack_pair (q4 (h * hd + 2 * dm)) (q4 (h * hd + (2 * dm + 1))))

-- The word of one head of one token, 0 for a token that is not there.
abbrev pub kv_word : Array ℕ → ℕ → ℕ → ℕ → ℕ → ℕ
kv_word x n_tokens tt h dm =
    let st = if ltb tt n_tokens then tt else 0 in
    if ltb tt n_tokens
    then pack_pair (x (st * wkvh * hd + h * hd + 2 * dm))
        (x (st * wkvh * hd + h * hd + (2 * dm + 1)))
    else 0

pub pack_kv : Array ℕ → Array ℕ → ℕ → Array ℕ → Array ℕ
pack_kv k2 v2 n_tokens =
    let kv_dw = wkvh * (hd / 2) in
    for_to 2 λ b. for_to 16 λ t. for_to wkvh λ h. for_to (hd / 2) λ dm in_m.
      let k_off = q_dw + b * k_dw in
      let v_off = q_dw + 2 * k_dw + b * v_dw in
      write (v_off + t * kv_dw + h * (hd / 2) + dm) (kv_word v2 n_tokens (b * 16 + t) h dm)
        (write (k_off + t * kv_dw + h * (hd / 2) + dm) (kv_word k2 n_tokens (b * 16 + t) h dm) in_m)

pub pack_input : Array ℕ → Array ℕ → Array ℕ → ℕ → Array ℕ → Array ℕ
unfolding pack_q pack_kv clear
pack_input q4 k2 v2 n_tokens in_m = pack_kv k2 v2 n_tokens (pack_q q4 (clear in_m))

pub unpack_output : Array ℕ → Array ℕ → Array ℕ
unpack_output od = for_to wqh λ h. for_to (hd / 2) λ dm out4.
    let p = od (h * (hd / 2) + dm) in
    write (h * hd + (2 * dm + 1)) (bf16f (p % 2 ^ 16))
      (write (h * hd + 2 * dm) (bf16f (p / 2 ^ 16)) out4)

-- The last loop: what is not finite becomes 0.
pub drop_nonfinite : Array ℕ → Array ℕ
drop_nonfinite = for_to wqh λ h.
    for_to hd λ d out4. if isfinite (out4 (h * hd + d)) then out4 else write (h * hd + d) 0 out4

-- `run`; the kernel is from the words of the input to those of the output.
pub run : (Array ℕ → Array ℕ) → Array ℕ → Array ℕ → Array ℕ → ℕ → Array ℕ → Array ℕ → Array ℕ
unfolding pack_input unpack_output drop_nonfinite
run kernel q4 k2 v2 n_tokens in_m out4 =
    drop_nonfinite (unpack_output (kernel (pack_input q4 k2 v2 n_tokens in_m)) out4)
