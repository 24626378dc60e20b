-- ===== src/Driver/Block/Path.antt =====
-- `snprintf(npu->fw_path, 64, "amdnpu/%04x_%02x/npu.dev.sbin", device, revision)`.
use npu_gpu_cpu.Prelude.{
  codes, ℕ, zero, suc, ◌+◌, ◌/◌, ◌%◌, ◌^◌, ◌<◌, ◌≡◌, refl, ap, ◌-◌, ltb, if◌then◌else◌, List, [],
  ◌∷◌, ◌++◌, arith,
}
use npu_gpu_cpu.Driver.Block.{PciDev}

-- A digit as printf writes it for `x`.
pub hex_digit : ℕ → ℕ
hex_digit d = if ltb d 10 then b'0' + d else b'a' + (d - 10)

-- `%04x` of a 16-bit and `%02x` of an 8-bit number.
hex4 : ℕ → List ℕ
unfolding hex_digit
hex4 n =
    hex_digit (n / 4096 % 16)
    ∷ hex_digit (n / 256 % 16)
    ∷ hex_digit (n / 16 % 16)
    ∷ hex_digit (n % 16)
    ∷ []

hex2 : ℕ → List ℕ
unfolding hex_digit
hex2 n = hex_digit (n / 16 % 16) ∷ hex_digit (n % 16) ∷ []

-- What is printed, before it is cut to the buffer.
pub printed_path : PciDev → List ℕ
unfolding hex4 hex2
printed_path p =
    codes "amdnpu/" ++ (hex4 p.device ++ (b'_' ∷ hex2 p.revision ++ codes "/npu.dev.sbin"))

abbrev pub take : ℕ → List ℕ → List ℕ
take zero xs = []
take (suc n) [] = []
take (suc n) (x ∷ xs) = x ∷ take n xs

-- snprintf keeps one byte of the 64 for the final 0.
pub fw_path : PciDev → List ℕ
unfolding printed_path
fw_path p = take 63 (printed_path p)

hex_digit_injective : (a b : ℕ) → a < 16 → b < 16 → hex_digit a ≡ hex_digit b → a ≡ b
unfolding hex_digit
hex_digit_injective a b ha hb e = ground arith

abbrev nth : List ℕ → ℕ → ℕ
nth [] i = 0
nth (x ∷ xs) zero = x
nth (x ∷ xs) (suc i) = nth xs i

-- For PCI functions with 16-bit devices and 8-bit revisions, the path is not cut, and equal paths
-- come from equal devices and revisions.
pub fw_path_faithful :
    (p q : PciDev)
    → p.device < 2 ^ 16
    → p.revision < 2 ^ 8
    → q.device < 2 ^ 16
    → q.revision < 2 ^ 8
    → fw_path p ≡ fw_path q
    → (fw_path p ≡ printed_path p) × (p.device ≡ q.device) × (p.revision ≡ q.revision)
unfolding fw_path
fw_path_faithful p q hp rp hq rq e = (
  refl,
  omega (
    arith,
    digit (p.device / 4096) (q.device / 4096) (ap (λ l. nth l 7) e),
    digit (p.device / 256) (q.device / 256) (ap (λ l. nth l 8) e),
    digit (p.device / 16) (q.device / 16) (ap (λ l. nth l 9) e),
    digit p.device q.device (ap (λ l. nth l 10) e),
  ),
  omega (
    arith,
    digit (p.revision / 16) (q.revision / 16) (ap (λ l. nth l 12) e),
    digit p.revision q.revision (ap (λ l. nth l 13) e),
  ),
)
  where
    digit : (a b : ℕ) → hex_digit (a % 16) ≡ hex_digit (b % 16) → a % 16 ≡ b % 16
    digit a b = hex_digit_injective (a % 16) (b % 16) (omega arith) (omega arith)
