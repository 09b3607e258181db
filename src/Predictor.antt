-- ===== src/Predictor.antt =====
-- src/predictor: the branch predictors.
pub mod Counter
pub mod YehPatt
pub mod Perceptron
pub mod Hybrid
