-- ===== src/Annotations/ServiceFunction.antt =====
-- decorators/service/function/serviceFunctionAnnotationContainer.ts
mod Defs
mod AddingAccess
mod Adding
mod Asking
pub mod Registrations
pub mod Views
pub mod Answers
pub mod Laws
pub use Defs.*
unfoldable pub use AddingAccess.*
unfoldable pub use Adding.*
unfoldable pub use Asking.*
