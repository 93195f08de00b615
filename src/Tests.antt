-- ===== src/Tests.antt =====
-- Runs of the model at concrete inputs, and the instances of the theorems.
mod Sample
mod TokenExamples
mod SessionExamples
mod LoginExamples
mod SeedingExamples
mod RateExamples
mod RequestExamples
mod ListingExamples
mod BodyExamples
mod CommandExamples
