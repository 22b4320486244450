-- ===== src/Annotations.antt =====
-- What decorators register: the annotation containers of decorators/.
pub mod Classes
pub mod Entity
pub mod Keys
pub mod Service
pub mod ServiceFunction
pub mod TypeProperty
pub mod Tests
