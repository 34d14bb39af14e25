-- ===== src/Softfp.antt =====
-- Soft floating point: softfp_template.h and softfp_template_icvt.h.
pub mod Format
pub mod Round
pub mod Wide
pub mod Arith
pub mod Compare
pub mod Convert
