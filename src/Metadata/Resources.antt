-- ===== src/Metadata/Resources.antt =====
-- metadata/metadata.go: the resources and their methods, a child module for each Go type.
pub mod Groups
pub mod SourceVariants
pub mod FeatureVariants
pub mod LabelVariants
pub mod TrainingSetVariants
pub mod Models
pub mod Entities
pub mod Users
pub mod Providers
