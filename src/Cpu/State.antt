-- ===== src/Cpu/State.antt =====
-- `CpuState` (src/cpu/espresso/cpu_state.hpp). A register file is a function of the register's
-- number, which the decoder keeps below 32 (below 8 for the graphics quantization registers).
use affogato.Base.{ℕ, Bool, false, ◌==◌, if◌then◌else◌}

pub record CpuState : Type 0 where
  pub gpr : ℕ → ℕ
  pub fpr : ℕ → ℕ
  pub fpr_ps1 : ℕ → ℕ
  pub gqr : ℕ → ℕ
  pub cr : ℕ
  pub xer : ℕ
  pub fpscr : ℕ
  pub lr : ℕ
  pub ctr : ℕ
  pub cia : ℕ
  pub reservation_address : ℕ
  pub reservation_valid : Bool

-- `reset`, and the state at construction.
abbrev pub zeroed : CpuState
zeroed = record {
  gpr = λ r. 0;
  fpr = λ r. 0;
  fpr_ps1 = λ r. 0;
  gqr = λ r. 0;
  cr = 0;
  xer = 0;
  fpscr = 0;
  lr = 0;
  ctr = 0;
  cia = 0;
  reservation_address = 0;
  reservation_valid = false;
}

-- `registers[index] = value`.
abbrev pub put : (ℕ → ℕ) → ℕ → ℕ → ℕ → ℕ
put registers index value other = if index == other then value else registers other
