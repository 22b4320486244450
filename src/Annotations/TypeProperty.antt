-- ===== src/Annotations/TypeProperty.antt =====
-- decorators/typeproperty/typePropertyAnnotationContainer.ts
mod Defs
mod Asking
pub mod Views
pub mod Laws
unfoldable pub use Defs.*
unfoldable pub use Asking.*
