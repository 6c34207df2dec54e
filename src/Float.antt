-- ===== src/Float.antt =====
-- Go's float64 and the functions of package math that the code calls, as a parameter: antt has no
-- floats.
pub mod Defs
pub mod Rational
