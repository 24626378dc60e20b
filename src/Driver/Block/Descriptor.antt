-- ===== src/Driver/Block/Descriptor.antt =====
-- Finding the NPU's PCI function, the table of functions and the descriptor that the GPU driver gets.
-- The kernel's PCI macros, its `pci_get_slot` and its number for the block's type are parameters.
pub mod Life
use npu_gpu_cpu.Prelude.{
  codes, ℕ, zero, suc, ◌+◌, ◌≡◌, refl, ℤ, pos, nonzero, Bool, true, Option, none, some, List, [],
  ◌∷◌, if◌then◌else◌, arith,
}
use npu_gpu_cpu.Driver.Block.{
  PciDev, Npu, Event, Adev, early_init, sw_init, hw_init, hw_fini, sw_fini, suspend, resume,
}

-- `PCI_SLOT`, `PCI_DEVFN` and `pci_get_slot`
pub record Pci : Type 0 where
  pub slot : ℕ → ℕ
  pub devfn : ℕ → ℕ → ℕ
  pub get_slot : ℕ → ℕ → Option PciDev

-- The GPU's `pdev`: the number of its bus, and its `devfn`.
pub record GpuPdev : Type 0 where
  pub bus : ℕ
  pub devfn : ℕ

unfoldable pub find_pci_dev : Pci → GpuPdev → Option PciDev
find_pci_dev pci gpu = pci.get_slot gpu.bus (pci.devfn (pci.slot gpu.devfn) 1)

-- `struct amd_ip_funcs`, as far as it is filled, with the answers of the kernel as arguments.
pub record IpFuncs : Type 0 where
  pub name : List ℕ
  pub early_init : Bool → Adev → ℤ × Adev
  pub sw_init : ℤ → ℕ → ℤ → Adev → ℤ × Adev
  pub hw_init : Adev → ℤ × Adev
  pub hw_fini : Adev → ℤ × Adev
  pub sw_fini : Adev → ℤ × Adev
  pub suspend : Adev → ℤ × Adev
  pub resume : Adev → ℤ × Adev

pub record IpBlockVersion : Type 0 where
  pub type : ℕ
  pub major : ℕ
  pub minor : ℕ
  pub rev : ℕ
  pub funcs : IpFuncs

pub npu_ip_funcs : Pci → GpuPdev → IpFuncs
unfolding find_pci_dev
npu_ip_funcs pci gpu = record {
  name = codes "amdgpu_npu";
  early_init = λ memory. early_init memory (find_pci_dev pci gpu);
  sw_init = sw_init;
  hw_init = hw_init;
  hw_fini = hw_fini;
  sw_fini = sw_fini;
  suspend = suspend;
  resume = resume;
}

pub npu_ip_block : ℕ → Pci → GpuPdev → IpBlockVersion
unfolding npu_ip_funcs
npu_ip_block type pci gpu = record {
  type = type;
  major = 1;
  minor = 0;
  rev = 0;
  funcs = npu_ip_funcs pci gpu;
}
